-- ===== src/Controller/Reconcile/Frozen.antt =====
-- An assignment with a rank that has started.
use tenstorrent_dra_framewor.Base.{
  ◌≡◌, refl, inl, inr, String, Bool, true, false, not, ◌&&◌, ◌||◌, List, Option, ◌==◌, string_eq,
  nat_eq, Option-cases, branch, arith,
}
use tenstorrent_dra_framewor.Api.{Workload, RankAssignment, FabricTopologyStatus}
use tenstorrent_dra_framewor.Placement.Model.{Reservations}
use tenstorrent_dra_framewor.Controller.Validation.{validate_workload}
use tenstorrent_dra_framewor.Controller.World.{
  Env, Controller, Call, sent_claim, sent_pod, deleted_pod, deleted_claim, sent_status, sent_event,
  created_fabric, sent_fabric, sent_fabric_event, queue_added, queue_added_later, queue_retried,
  queue_forgotten,
}
use tenstorrent_dra_framewor.Controller.Status.{
  Observed, observed_phase, terminal_phase, assignments_reserved, set_workload_status,
  report_status,
}
use tenstorrent_dra_framewor.Controller.Status.Started.{
  IsRunning, observed_phase-started, observed_phase-fails, observed_phase-lasts,
}
use tenstorrent_dra_framewor.Controller.Sends.{
  Sends, tick-Sends, next, and_then-Sends, update_workload_status-Sends, report_status-Sends,
}
use tenstorrent_dra_framewor.Controller.Sends.Owned.{ensure_children-Sends}
use tenstorrent_dra_framewor.Controller.Reconcile.{
  with_hash, keep_running, is_outdated, is_changed, frozen_reason, follow_assigned, is_assigned,
  reconcile_workload,
}

-- The call deletes nothing, and a status that it sends has this assignment.
abbrev pub KeepsAssignment : List RankAssignment → Call → Type 0
KeepsAssignment assignments (sent_claim claim) = Unit
KeepsAssignment assignments (sent_pod pod) = Unit
KeepsAssignment assignments (deleted_pod namespace name) = ⊥
KeepsAssignment assignments (deleted_claim namespace name) = ⊥
KeepsAssignment assignments (sent_status latest status) = status.assignments ≡ assignments
KeepsAssignment assignments (sent_event warning reason message) = Unit
KeepsAssignment assignments created_fabric = Unit
KeepsAssignment assignments (sent_fabric status) = Unit
KeepsAssignment assignments (sent_fabric_event warning reason message) = Unit
KeepsAssignment assignments (queue_added key) = Unit
KeepsAssignment assignments (queue_added_later key) = Unit
KeepsAssignment assignments (queue_retried key) = Unit
KeepsAssignment assignments (queue_forgotten key) = Unit

module _ (env : Env) (fabric : FabricTopologyStatus) (used : Reservations)
    (workload : Workload) where
  abbrev Frozen : Controller → Controller → Type 0
  Frozen = Sends (KeepsAssignment workload.status.assignments)

  report-Frozen :
      (phase : String) (ready : Bool) (reason message : String) (c : Controller)
      → Frozen c (report_status env phase ready reason message workload c).1
  unfolding set_workload_status
  report-Frozen phase ready reason message c =
      report_status-Sends env (λ _ _ _. tt) phase ready reason message workload c (λ _ _. refl)

  keep_running-Frozen : (o : Observed) (c : Controller) → Frozen c (keep_running env o workload c).1
  unfolding keep_running set_workload_status
  keep_running-Frozen o c =
      let marked =
        with_hash env
          (set_workload_status env o.phase (o.phase == "Running") o.reason o.message workload
            c).0 in
      and_then-Sends _ _
        (next tick-Sends (ensure_children-Sends env marked (λ _ _. tt) (λ _ _ _ _ _. tt) _))
        (λ b. update_workload_status-Sends env (λ _ _ _. tt) marked b (λ _ _. refl))

  follow_assigned-Frozen :
      (c : Controller)
      → IsRunning c.cache.pods workload
      → Frozen c (follow_assigned env fabric used workload c).1
  unfolding follow_assigned
  follow_assigned-Frozen c h =
      let o = observed_phase c.cache.pods workload in
      let started = observed_phase-started c.cache.pods workload h in
      let not_failed = observed_phase-fails c.cache.pods workload h in
      let not_succeeded = observed_phase-lasts c.cache.pods workload h in
      let claimed : String = "an assigned device was consumed by another claim" in
      let (reason, message) = frozen_reason env (is_changed env workload) in
      let Goal : Option String × Controller → Type 0 = λ r. Frozen c r.1 in
      branch Goal (assignments_reserved workload.status.assignments used)
        (λ _. rw started (report-Frozen "Degraded" false "DeviceClaimed" claimed c))
        λ _.
          branch Goal (o.reason == "Unschedulable" && not o.started)
            (λ e. absurd (ground (arith, e, started)))
            λ _.
              branch Goal (o.phase == "Failed" || o.phase == "Succeeded")
                (λ e. absurd (ground (arith, e, not_failed, not_succeeded)))
                λ _.
                  branch Goal (is_changed env workload || is_outdated env fabric workload)
                    (λ _. rw started (report-Frozen "Degraded" false reason message c))
                    (λ _. keep_running-Frozen o c)

  -- Where a rank of an assigned workload that has not ended has begun and not ended, no rank's pod has
  -- failed, and no rank before it waits as unschedulable, a reconciliation deletes none of the pods and
  -- claims, writes no other assignment, and leaves the pending assignments alone, whatever became of the
  -- spec, the fabric and the devices.
  pub reconcile_workload-Frozen :
      (c : Controller)
      → is_assigned env workload ≡ true
      → terminal_phase workload.status.phase ≡ false
      → IsRunning c.cache.pods workload
      → Sends
          (KeepsAssignment workload.status.assignments)
          c
          (reconcile_workload env fabric used workload c).1
  unfolding reconcile_workload set_workload_status
  reconcile_workload-Frozen c assigned live h =
      elim (Option-cases (validate_workload env.is_dns_label workload)) [
        | inr (e, fault) ↦
            rw (reconcile_workload, fault)
              (next tick-Sends (update_workload_status-Sends env (λ _ _ _. tt) _ _ (λ _ _. refl)))
        | inl fine ↦ rw (reconcile_workload, fine, assigned, live) (follow_assigned-Frozen c h)
      ]
