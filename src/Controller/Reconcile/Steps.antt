-- ===== src/Controller/Reconcile/Steps.antt =====
-- What a reconciliation of a workload does to the pending assignments, and which calls it sends.
use tenstorrent_dra_framewor.Base.{
  ℕ, ◌≡◌, refl, sym, subst, ◌∙◌, inl, inr, String, true, false, not, ◌&&◌, ◌||◌, List, Option, none,
  some, ◌==◌, string_eq, nat_eq, All, Option-cases, length, ltb, arith, branch,
}
use tenstorrent_dra_framewor.Base.Dict.{Dict, lookup, insert, erase}
use tenstorrent_dra_framewor.Api.{Workload, RankAssignment, FabricTopologyStatus}
use tenstorrent_dra_framewor.Placement.Model.{Reservations}
use tenstorrent_dra_framewor.Placement.Search.{default_limits}
use tenstorrent_dra_framewor.Placement.Search.Sound.{IsPlacement, solve_context-IsPlacement}
use tenstorrent_dra_framewor.Controller.Validation.{validate_workload}
use tenstorrent_dra_framewor.Controller.Validation.Admitted.{
  IsConfined, validate_workload-IsAdmitted,
}
use tenstorrent_dra_framewor.Controller.World.{
  Env, Cache, Controller, tick, key_of, drop_pending, and_then,
}
use tenstorrent_dra_framewor.Controller.Status.{
  Observed, observed_phase, terminal_phase, assignments_reserved, set_workload_status,
}
use tenstorrent_dra_framewor.Controller.Reserve.{reservations}
use tenstorrent_dra_framewor.Controller.Sends.{stay, tick-Sends, next}
use tenstorrent_dra_framewor.Controller.Sends.Safe.{
  IsSafeCall, KeepsHardened, update_workload_status-Sends, report_status-Sends,
  delete_children-Sends, ensure_children-Sends, SendsSafely,
}
use tenstorrent_dra_framewor.Controller.Reconcile.{
  max_workloads, blank_status, with_hash, replan, finish, restart, keep_running, is_outdated,
  is_changed, frozen_reason, follow_assigned, with_placement, assign, place, follow_unassigned,
  is_assigned, reconcile_workload, exceed_scale, reconcile_workload_key,
}

-- The pending assignments stay, or the one of the workload goes, or it becomes a new one.
pub data PendingStep (key : String) (IsNew : List RankAssignment → Type 0)
    (a b : Dict String (List RankAssignment)) : Type 0 where
  unchanged : b ≡ a → PendingStep key IsNew a b
  dropped : b ≡ erase key a → PendingStep key IsNew a b
  taken :
      (found : List RankAssignment)
      → IsNew found
      → b ≡ insert key found a
      → PendingStep key IsNew a b

pub record Reconciles (key : String) (IsNew : List RankAssignment → Type 0) (a b : Controller)
    : Type 0 where
  pub step : PendingStep key IsNew a.pending b.pending
  pub same_cache : b.cache ≡ a.cache
  pub same_fabric : b.fabric ≡ a.fabric
  pub safe : All IsSafeCall a.calls → All IsSafeCall b.calls

module _ {key : String} {IsNew : List RankAssignment → Type 0} where
  pub only : {a b : Controller} → SendsSafely a b → Reconciles key IsNew a b
  only p = record {
    step = unchanged p.same_pending;
    same_cache = p.same_cache;
    same_fabric = p.same_fabric;
    safe = p.good;
  }

  pub drops : {a : Controller} → Reconciles key IsNew a (drop_pending key a)
  unfolding drop_pending
  drops = record { step = dropped refl; same_cache = refl; same_fabric = refl; safe = λ h. h }

  pub first :
      {a b c : Controller} → SendsSafely a b → Reconciles key IsNew b c → Reconciles key IsNew a c
  first {a} {b} {c} p q = record {
    step = subst (λ d. PendingStep key IsNew d c.pending) p.same_pending q.step;
    same_cache = q.same_cache ∙ p.same_cache;
    same_fabric = q.same_fabric ∙ p.same_fabric;
    safe = λ h. q.safe (p.good h);
  }

  pub last :
      {a b c : Controller} → Reconciles key IsNew a b → SendsSafely b c → Reconciles key IsNew a c
  last {a} {b} {c} p q = record {
    step = subst (PendingStep key IsNew a.pending) (sym q.same_pending) p.step;
    same_cache = q.same_cache ∙ p.same_cache;
    same_fabric = q.same_fabric ∙ p.same_fabric;
    safe = λ h. q.good (p.safe h);
  }

  and_then-last :
      {a : Controller} (r : Option String × Controller)
      (f : Controller → Option String × Controller)
      → Reconciles key IsNew a r.1
      → ((b : Controller) → SendsSafely b (f b).1)
      → Reconciles key IsNew a (and_then r f).1
  unfolding and_then
  and_then-last (none, c) f p q = last p (q c)
  and_then-last (some e, c) f p q = p

  and_then-first :
      {a : Controller} (r : Option String × Controller)
      (f : Controller → Option String × Controller)
      → SendsSafely a r.1
      → ((b : Controller) → Reconciles key IsNew b (f b).1)
      → Reconciles key IsNew a (and_then r f).1
  unfolding and_then
  and_then-first (none, c) f p q = first p (q c)
  and_then-first (some e, c) f p q = only p

module _ (env : Env) (fabric : FabricTopologyStatus) (used : Reservations)
    (workload : Workload) where
  -- A step of the reconciliation of this workload.
  abbrev pub Steps : Controller → Controller → Type 0
  Steps = Reconciles (key_of workload) (IsPlacement workload fabric.endpoints used)

  replan-Steps : (message : String) (c : Controller) → Steps c (replan env message workload c).1
  unfolding replan
  replan-Steps message c = and_then-last _ _ (last drops (delete_children-Sends env workload _)) (
      report_status-Sends env "Pending" false "Replanning" message
        (record workload { status = blank_status env workload }))

  finish-Steps : (o : Observed) (c : Controller) → Steps c (finish env o workload c).1
  unfolding finish set_workload_status
  finish-Steps o c =
      let marked =
        (set_workload_status env o.phase (o.phase == "Succeeded") o.reason o.message workload
          (drop_pending (key_of workload) c)).0 in
      and_then-last _ _ (last (last drops tick-Sends) (delete_children-Sends env marked _))
        (update_workload_status-Sends env marked)

  restart-Steps : (c : Controller) → Steps c (restart env workload c).1
  unfolding restart
  restart-Steps c = and_then-first _ _ (delete_children-Sends env workload c) (λ b.
      last drops (
        update_workload_status-Sends env (record workload { status = blank_status env workload })
          _))

  module _ (defaults : KeepsHardened env)
      (confined : IsConfined workload.spec.container_name workload.spec.pod_template.spec) where
    keep_running-Steps : (o : Observed) (c : Controller) → Steps c (keep_running env o workload c).1
    unfolding keep_running set_workload_status
    keep_running-Steps o c =
        let marked =
          with_hash env
            (set_workload_status env o.phase (o.phase == "Running") o.reason o.message workload
              c).0 in
        and_then-last _ _
          (only (next tick-Sends (ensure_children-Sends env defaults marked confined _)))
          (update_workload_status-Sends env marked)

    follow_assigned-Steps :
        (c : Controller) → Steps c (follow_assigned env fabric used workload c).1
    unfolding follow_assigned
    follow_assigned-Steps c =
        let o = observed_phase c.cache.pods workload in
        let claimed : String = "an assigned device was consumed by another claim" in
        let (reason, message) = frozen_reason env (is_changed env workload) in
        let Goal : Option String × Controller → Type 0 = λ r. Steps c r.1 in
        branch Goal (assignments_reserved workload.status.assignments used)
          (λ _.
            branch Goal o.started
              (λ _.
                only (report_status-Sends env "Degraded" false "DeviceClaimed" claimed workload c))
              (λ _. replan-Steps claimed c))
          λ _.
            branch Goal (o.reason == "Unschedulable" && not o.started)
              (λ _. replan-Steps o.message c)
              λ _.
                branch Goal (o.phase == "Failed" || o.phase == "Succeeded") (λ _. finish-Steps o c)
                  λ _.
                    branch Goal (is_changed env workload || is_outdated env fabric workload)
                      (λ _.
                        branch Goal o.started
                          (λ _.
                            only
                              (report_status-Sends env "Degraded" false reason message workload c))
                          (λ _. restart-Steps c))
                      (λ _. keep_running-Steps o c)

    assign-Steps :
        (found : List RankAssignment) (c : Controller)
        → IsPlacement workload fabric.endpoints used found
        → Steps c (assign env fabric found workload c).1
    unfolding assign set_workload_status
    assign-Steps found c good =
        let marked =
          (set_workload_status env "Assigned" true "Assigned"
            "complete connected assignment reserved" (with_placement env fabric found workload)
            c).0 in
        and_then-first _ _ (next tick-Sends (update_workload_status-Sends env marked _)) λ b.
          last
            (record {
              step = taken found good refl;
              same_cache = refl;
              same_fabric = refl;
              safe = λ h. h;
            })
            (ensure_children-Sends env defaults marked confined _)

    place-IsPlacement :
        (count : ℕ)
        → (place env fabric used workload count).ok ≡ true
        → IsPlacement workload fabric.endpoints used
            (place env fabric used workload count).assignments
    unfolding place
    place-IsPlacement count =
        solve_context-IsPlacement (env.ctx count) env.child_name workload fabric.endpoints used
          default_limits

    follow_unassigned-Steps :
        (c : Controller) → Steps c (follow_unassigned env fabric used workload c).1
    unfolding follow_unassigned set_workload_status
    follow_unassigned-Steps c =
        let Goal : Option String × Controller → Type 0 = λ r. Steps c r.1 in
        let solution = place env fabric used workload c.clock in
        branch Goal (not fabric.valid)
          (λ _. only (next tick-Sends (update_workload_status-Sends env _ _)))
          λ _. elim (Option-cases solution.error) [
            | inr (e, fault) ↦ rw fault (
                only (
                  next tick-Sends
                    (report_status-Sends env "Pending" false "PlacementError" e workload _)))
            | inl fine ↦ rw fine (
                branch Goal (not solution.ok)
                  (λ _.
                    only (next (next tick-Sends tick-Sends) (update_workload_status-Sends env _ _)))
                  λ ok. first tick-Sends (
                    assign-Steps solution.assignments (tick c)
                      (place-IsPlacement c.clock (ground (arith, ok)))))
          ]

  reconcile_workload-Steps :
      (c : Controller)
      → KeepsHardened env
      → Steps c (reconcile_workload env fabric used workload c).1
  unfolding reconcile_workload set_workload_status
  reconcile_workload-Steps c defaults =
      let Goal : Option String × Controller → Type 0 = λ r. Steps c r.1 in
      elim (Option-cases (validate_workload env.is_dns_label workload)) [
        | inr (e, fault) ↦
            rw (reconcile_workload, fault)
              (only (next tick-Sends (update_workload_status-Sends env _ _)))
        | inl fine ↦
            let confined = (validate_workload-IsAdmitted env.is_dns_label workload fine).confined in
            rw (reconcile_workload, fine)
              (branch Goal (is_assigned env workload)
                (λ _.
                  branch Goal (terminal_phase workload.status.phase)
                    (λ _. last drops (delete_children-Sends env workload _))
                    (λ _. follow_assigned-Steps defaults confined c))
                (λ _. follow_unassigned-Steps defaults confined c))
      ]

-- The placement found for the workload of the key, on the fabric and beside the devices taken now.
abbrev pub IsGranted : String → Controller → List RankAssignment → Type 0
IsGranted key c found =
    (workload : Workload) × IsPlacement workload c.fabric.endpoints (reservations key c) found

-- The informer's store has each workload under the key of its namespace and name.
abbrev pub IsKeyed : Cache → Type 0
IsKeyed cache =
    (key : String) (workload : Workload)
    → lookup key cache.workloads ≡ some (some workload)
    → key_of workload ≡ key

grant-step :
    {key : String} {IsNew IsOther : List RankAssignment → Type 0}
    {a b : Dict String (List RankAssignment)}
    → ((found : List RankAssignment) → IsNew found → IsOther found)
    → PendingStep key IsNew a b
    → PendingStep key IsOther a b
grant-step f (unchanged e) = unchanged e
grant-step f (dropped e) = dropped e
grant-step f (taken found new e) = taken found (f found new) e

-- The reconciliation of a key.
pub reconcile_workload_key-Reconciles :
    (env : Env) (key : String) (c : Controller)
    → KeepsHardened env
    → IsKeyed c.cache
    → Reconciles key (IsGranted key c) c (reconcile_workload_key env key c).1
unfolding reconcile_workload_key exceed_scale
reconcile_workload_key-Reconciles env key c defaults keyed =
    let Goal : Option String × Controller → Type 0 = λ r. Reconciles key (IsGranted key c) c r.1 in
    elim (Option-cases (lookup key c.cache.workloads)) [
      | inl missing ↦ rw (reconcile_workload_key, missing) drops
      | inr (none, undecoded) ↦ rw (reconcile_workload_key, undecoded) (only stay)
      | inr (some workload, stored) ↦
          let used = reservations key c in
          let step = reconcile_workload-Steps env c.fabric used workload c defaults in
          rw (reconcile_workload_key, stored)
            (branch Goal (ltb max_workloads (length c.cache.workloads))
              (λ _. only (report_status-Sends env _ false "ClusterScaleExceeded" _ workload c))
              λ _. record {
                step =
                    grant-step (λ found good. (workload, good))
                      (subst
                        (λ k.
                          PendingStep k (IsPlacement workload c.fabric.endpoints used) c.pending
                            (reconcile_workload env c.fabric used workload c).1.pending)
                        (keyed key workload stored) step.step);
                same_cache = step.same_cache;
                same_fabric = step.same_fabric;
                safe = step.safe;
              })
    ]
