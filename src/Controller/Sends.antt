-- ===== src/Controller/Sends.antt =====
-- What the calls of the controller have in common: each step sends calls of a kind, and leaves the
-- pending assignments, the stores and the fabric to the reconciliation.
pub mod Safe
pub mod Owned
use tenstorrent_dra_framewor.Base.{
  ℕ, zero, suc, ◌≡◌, refl, ap, ◌∙◌, inl, inr, String, Bool, true, false, not, ◌&&◌, List, [], ◌∷◌,
  Option, none, some, ◌==◌, string_eq, nat_eq, All, Option-cases, Bool-cases, if◌then◌else◌, length,
  branch, ◌⊎◌, arith,
}
use tenstorrent_dra_framewor.Api.{Workload, WorkloadStatus, WorkloadRank, RankAssignment}
use tenstorrent_dra_framewor.Api.Pod.{Pod, PodSpec, Claim}
use tenstorrent_dra_framewor.Controller.Validation.Admitted.{IsConfined}
use tenstorrent_dra_framewor.Controller.Children.{owned_by, owner, controls, build_claim, build_pod}
use tenstorrent_dra_framewor.Controller.Children.Hardened.{
  IsHardened, IsPinned, build_pod-IsPinned, pin_admission_defaults-IsHardened,
}
use tenstorrent_dra_framewor.Controller.World.{
  retry_on_conflict, Attempt, finished, conflicted, failed, created_fabric, sent_fabric,
  sent_fabric_event, queue_added, queue_added_later, queue_retried, queue_forgotten, Reply, found,
  unread, Created, created, already_exists, not_created, updated, conflict, not_updated, Call,
  sent_claim, sent_pod, deleted_pod, deleted_claim, sent_status, sent_event, Env, Controller, tick,
  send, and_then,
}
use tenstorrent_dra_framewor.Controller.Status.{
  terminal_phase, write_status, attempt_update, emit_workload_event, update_workload_status,
  report_status, set_workload_status, with_observed,
}
use tenstorrent_dra_framewor.Controller.Apply.{
  check_claim, ensure_claim, check_pod, pinned, ensure_pod, ensure_ranks, ensure_children,
  delete_assigned, delete_children,
}

-- The step from `a` to `b` sends good calls, and changes nothing else.
pub record Sends (Good : Call → Type 0) (a b : Controller) : Type 0 where
  pub same_pending : b.pending ≡ a.pending
  pub same_cache : b.cache ≡ a.cache
  pub same_fabric : b.fabric ≡ a.fabric
  pub good : All Good a.calls → All Good b.calls

module _ {Good : Call → Type 0} where
  abbrev pub stay : {a : Controller} → Sends Good a a
  stay = record { same_pending = refl; same_cache = refl; same_fabric = refl; good = λ h. h }

  abbrev pub tick-Sends : {a : Controller} → Sends Good a (tick a)
  tick-Sends = record { same_pending = refl; same_cache = refl; same_fabric = refl; good = λ h. h }

  pub send-Sends : {a : Controller} (call : Call) → Good call → Sends Good a (send call a)
  send-Sends call fine = record {
    same_pending = refl;
    same_cache = refl;
    same_fabric = refl;
    good = λ h. (fine, h);
  }

  pub next : {a b c : Controller} → Sends Good a b → Sends Good b c → Sends Good a c
  next p q = record {
    same_pending = q.same_pending ∙ p.same_pending;
    same_cache = q.same_cache ∙ p.same_cache;
    same_fabric = q.same_fabric ∙ p.same_fabric;
    good = λ h. q.good (p.good h);
  }

  pub and_then-Sends :
      {a : Controller} (r : Option String × Controller)
      (f : Controller → Option String × Controller)
      → Sends Good a r.1
      → ((b : Controller) → Sends Good b (f b).1)
      → Sends Good a (and_then r f).1
  unfolding and_then
  and_then-Sends (none, c) f p q = next p (q c)
  and_then-Sends (some e, c) f p q = p

pub Attempt-cases :
    (a : Attempt)
    → (((changed : Bool) × (a ≡ finished changed)) ⊎ ((e : String) × (a ≡ failed e)))
      ⊎ ((e : String) × (a ≡ conflicted e))
Attempt-cases (finished changed) = inl (inl (changed, refl))
Attempt-cases (failed e) = inl (inr (e, refl))
Attempt-cases (conflicted e) = inr (e, refl)

pub Reply-cases :
    {A : Type 0} (r : Reply A) → ((a : A) × (r ≡ found a)) ⊎ ((e : String) × (r ≡ unread e))
Reply-cases (found a) = inl (a, refl)
Reply-cases (unread e) = inr (e, refl)

pub Created-cases :
    (r : Created) → ((r ≡ created) ⊎ ((e : String) × (r ≡ not_created e))) ⊎ (r ≡ already_exists)
Created-cases created = inl (inl refl)
Created-cases (not_created e) = inl (inr (e, refl))
Created-cases already_exists = inr refl

module _ {Good : Call → Type 0} where
  pub retry_on_conflict-Sends :
      (n : ℕ) (e : String) (attempt : Controller → Attempt × Controller) (c : Controller)
      → ((b : Controller) → Sends Good b (attempt b).1)
      → Sends Good c (retry_on_conflict n e attempt c).1
  unfolding retry_on_conflict
  retry_on_conflict-Sends zero e attempt c h = stay
  retry_on_conflict-Sends (suc n) e attempt c h = elim (Attempt-cases (attempt c).0) [
    | inl (inl (changed, p)) ↦ rw (retry_on_conflict, p) (h c)
    | inl (inr (fault, p)) ↦ rw (retry_on_conflict, p) (h c)
    | inr (fault, p) ↦
        rw (retry_on_conflict, p) (next (h c) (retry_on_conflict-Sends n fault attempt _ h))
  ]

-- What is asked of the status of the workload, wherever it replaces one that has not ended, or has
-- the same phase.
abbrev pub IsFineStatus : (Call → Type 0) → Workload → Type 0
IsFineStatus Good workload =
    (latest : Workload)
    → (terminal_phase latest.status.phase ≡ true → latest.status.phase ≡ workload.status.phase)
    → Good (sent_status latest workload.status)

module _ {Good : Call → Type 0} (env : Env)
    (events : (warning : Bool) (reason message : String)
      → Good (sent_event warning reason message)) where
  write_status-Sends :
      (latest workload : Workload) (c : Controller)
      → IsFineStatus Good workload
      → Sends Good c (write_status env latest workload c).1
  unfolding write_status
  write_status-Sends latest workload c fine =
      let kept =
        terminal_phase latest.status.phase && not (latest.status.phase == workload.status.phase) in
      let same = env.same_status latest.status workload.status in
      elim (Bool-cases kept) [
        | inl e ↦ rw (write_status, e) stay
        | inr live ↦ elim (Bool-cases same) [
          | inl e ↦ rw (write_status, live, e) stay
          | inr e ↦
              rw (write_status, live, e)
                (send-Sends (sent_status latest workload.status)
                  (fine latest (λ ended. ground (arith, live, ended))))
        ]
      ]

  attempt_update-Sends :
      (workload : Workload) (c : Controller)
      → IsFineStatus Good workload
      → Sends Good c (attempt_update env workload c).1
  unfolding attempt_update
  attempt_update-Sends workload c fine = elim (Reply-cases (env.get_workload c.clock)) [
    | inl (latest, e) ↦
        rw (attempt_update, e) (next tick-Sends (write_status-Sends latest workload (tick c) fine))
    | inr (fault, e) ↦ rw (attempt_update, e) tick-Sends
  ]

  emit_workload_event-Sends :
      (warning : Bool) (reason message : String) (c : Controller)
      → Sends Good c (emit_workload_event env warning reason message c)
  unfolding emit_workload_event
  emit_workload_event-Sends warning reason message c =
      branch (Sends Good c) _
        (λ _. send-Sends (sent_event warning reason message) (events warning reason message))
        (λ _. stay)

  pub update_workload_status-Sends :
      (workload : Workload) (c : Controller)
      → IsFineStatus Good (with_observed env workload)
      → Sends Good c (update_workload_status env workload c).1
  unfolding update_workload_status
  update_workload_status-Sends workload c fine =
      let current = with_observed env workload in
      let sent =
        retry_on_conflict-Sends env.attempts "no attempt" (attempt_update env current) c
          (λ b. attempt_update-Sends current b fine) in
      let written = retry_on_conflict env.attempts "no attempt" (attempt_update env current) c in
      elim (Option-cases written.0.0) [
        | inr (fault, e) ↦ rw (update_workload_status, e) sent
        | inl e ↦ elim (Bool-cases written.0.1) [
          | inl changed ↦
              rw (update_workload_status, e, changed)
                (next sent (emit_workload_event-Sends _ _ _ _))
          | inr unchanged ↦ rw (update_workload_status, e, unchanged) sent
        ]
      ]

  pub report_status-Sends :
      (phase : String) (ready : Bool) (reason message : String) (workload : Workload)
      (c : Controller)
      → IsFineStatus Good
          (with_observed env (set_workload_status env phase ready reason message workload c).0)
      → Sends Good c (report_status env phase ready reason message workload c).1
  unfolding report_status set_workload_status
  report_status-Sends phase ready reason message workload c fine = next tick-Sends (
      update_workload_status-Sends (set_workload_status env phase ready reason message workload c).0
        (tick c) fine)
