-- ===== src/Controller/Reconcile.antt =====
-- internal/controller/controller.go: the reconciliation of a workload.
pub mod Steps
pub mod Frozen
use tenstorrent_dra_framewor.Base.{
  ℕ, String, ◌<>◌, Bool, true, false, not, ◌&&◌, ◌||◌, List, [], ◌∷◌, Option, none, some, ◌==◌,
  string_eq, nat_eq, if◌then◌else◌, length, ltb,
}
use tenstorrent_dra_framewor.Base.Text.{show}
use tenstorrent_dra_framewor.Base.Dict.{Dict, lookup, insert}
use tenstorrent_dra_framewor.Api.{Workload, WorkloadStatus, RankAssignment, FabricTopologyStatus}
use tenstorrent_dra_framewor.Api.Pod.{Claim, AllocationResult}
use tenstorrent_dra_framewor.Placement.Model.{Reservations, reserve, add_assignments}
use tenstorrent_dra_framewor.Placement.Search.{Solution, solve_context, default_limits}
use tenstorrent_dra_framewor.Topology.{workload_generation}
use tenstorrent_dra_framewor.Controller.Validation.{validate_workload}
use tenstorrent_dra_framewor.Controller.World.{
  Env, Cache, Controller, M, tick, key_of, drop_pending, and_then,
}
use tenstorrent_dra_framewor.Controller.Status.{
  Observed, observed_phase, terminal_phase, assignments_reserved, set_workload_status,
  update_workload_status, report_status,
}
use tenstorrent_dra_framewor.Controller.Reserve.{reservations}
use tenstorrent_dra_framewor.Controller.Apply.{ensure_children, delete_children}

abbrev pub max_workloads : ℕ
max_workloads = 1000

module _ (env : Env) where
  abbrev pub blank_status : Workload → WorkloadStatus
  blank_status workload = record {
    phase = "Pending";
    observed_generation = workload.generation;
    spec_hash = env.spec_hash workload.spec;
    fabric_generation = "";
    assignments = [];
    conditions = [];
  }

  abbrev pub with_hash : Workload → Workload
  with_hash workload = record workload {
    status = record workload.status { spec_hash = env.spec_hash workload.spec };
  }

  -- Without a rank that has started, the assignment is given up.
  unfoldable pub replan : String → Workload → M (Option String)
  replan message workload c =
      and_then (delete_children env workload (drop_pending (key_of workload) c)) (
        report_status env "Pending" false "Replanning" message
          (record workload { status = blank_status workload }))

  -- The ranks have ended.
  unfoldable pub finish : Observed → Workload → M (Option String)
  finish o workload c =
      let (marked, c₁) =
        set_workload_status env o.phase (o.phase == "Succeeded") o.reason o.message workload
          (drop_pending (key_of workload) c) in
      and_then (delete_children env marked c₁) (update_workload_status env marked)

  -- The spec or the fabric has changed before a rank started.
  unfoldable pub restart : Workload → M (Option String)
  restart workload c = and_then (delete_children env workload c) (λ c₁.
      update_workload_status env (record workload { status = blank_status workload })
        (drop_pending (key_of workload) c₁))

  unfoldable pub keep_running : Observed → Workload → M (Option String)
  keep_running o workload c =
      let (marked, c₁) =
        set_workload_status env o.phase (o.phase == "Running") o.reason o.message workload c in
      and_then (ensure_children env (with_hash marked) c₁)
        (update_workload_status env (with_hash marked))

  -- The assignment no longer suits the spec or the fabric.
  unfoldable pub is_outdated : FabricTopologyStatus → Workload → Bool
  is_outdated fabric workload =
      let status = workload.status in
      not (
        status.fabric_generation
        == workload_generation env.digest fabric workload.spec.topology status.assignments)

  unfoldable pub is_changed : Workload → Bool
  is_changed workload =
      let hash = workload.status.spec_hash in
      not (hash == "") && not (hash == env.spec_hash workload.spec)

  abbrev pub frozen_reason : Bool → String × String
  frozen_reason changed =
      if changed
      then ("SpecChanged", "workload spec changed after a rank started; assignment is frozen")
      else (
        "FabricChanged",
        "relevant fabric topology changed after a rank started; assignment is frozen",
      )

  -- `reconcileWorkload` on a workload that is assigned and not terminal.
  unfoldable pub follow_assigned :
      FabricTopologyStatus → Reservations → Workload → M (Option String)
  follow_assigned fabric used workload c =
      let o = observed_phase c.cache.pods workload in
      let claimed : String = "an assigned device was consumed by another claim" in
      let reserved = report_status env "Degraded" false "DeviceClaimed" claimed workload c in
      let replanned = replan claimed workload c in
      let rescheduled = replan o.message workload c in
      let finished = finish o workload c in
      let changed = is_changed workload in
      let (reason, message) = frozen_reason changed in
      let frozen = report_status env "Degraded" false reason message workload c in
      let restarted = restart workload c in
      let kept = keep_running o workload c in
      if assignments_reserved workload.status.assignments used
      then (if o.started then reserved else replanned)
      else if o.reason == "Unschedulable" && not o.started
      then rescheduled
      else if o.phase == "Failed" || o.phase == "Succeeded"
      then finished
      else if changed || is_outdated fabric workload
      then (if o.started then frozen else restarted)
      else kept

  -- The answer of the placement, and the workload with a placement that was found.
  abbrev pub with_placement : FabricTopologyStatus → List RankAssignment → Workload → Workload
  with_placement fabric assignments workload = record workload {
    status = record workload.status {
      assignments = assignments;
      fabric_generation = workload_generation env.digest fabric workload.spec.topology assignments;
      spec_hash = env.spec_hash workload.spec;
    };
  }

  -- The placement is published, kept as pending, and its children are made.
  unfoldable pub assign : FabricTopologyStatus → List RankAssignment → Workload → M (Option String)
  assign fabric assignments workload c =
      let (marked, c₁) =
        set_workload_status env "Assigned" true "Assigned" "complete connected assignment reserved"
          (with_placement fabric assignments workload) c in
      and_then (update_workload_status env marked c₁) (λ c₂.
        ensure_children env marked
          (record c₂ { pending = insert (key_of workload) assignments c₂.pending }))

  -- `placement.SolveContext` as the controller calls it.
  unfoldable pub place : FabricTopologyStatus → Reservations → Workload → ℕ → Solution
  place fabric used workload count =
      solve_context (env.ctx count) env.child_name (some workload) fabric.endpoints used
        default_limits

  -- `reconcileWorkload` on a workload without assignments.
  unfoldable pub follow_unassigned :
      FabricTopologyStatus → Reservations → Workload → M (Option String)
  follow_unassigned fabric used workload c =
      let (blocked, c₁) =
        set_workload_status env "Pending" false "FabricInvalid"
          "validated fabric topology is unavailable" workload c in
      let solution = place fabric used workload c.clock in
      let c₂ = tick c in
      let (unplaced, c₃) =
        set_workload_status env "Pending" false "Unsatisfied"
          "no connected assignment satisfies all ranks" workload c₂ in
      let missed = record (with_hash unplaced) {
        status = record (with_hash unplaced).status {
          fabric_generation =
              workload_generation env.digest fabric workload.spec.topology
                workload.status.assignments;
        };
      } in
      let unsatisfied = update_workload_status env missed c₃ in
      let assigned = assign fabric solution.assignments workload c₂ in
      let blocked_update = update_workload_status env (with_hash blocked) c₁ in
      if not fabric.valid
      then blocked_update
      else elim solution.error as (λ _. Option String × Controller) [
        | some e ↦ report_status env "Pending" false "PlacementError" e workload c₂
        | none ↦ if not solution.ok then unsatisfied else assigned
      ]

  abbrev pub is_assigned : Workload → Bool
  is_assigned workload = not (length workload.status.assignments == 0)

  -- `reconcileWorkload`
  unfoldable pub reconcile_workload :
      FabricTopologyStatus → Reservations → Workload → M (Option String)
  reconcile_workload fabric used workload c =
      let unassigned = follow_unassigned fabric used workload c in
      let assigned = follow_assigned fabric used workload c in
      let ended = delete_children env workload (drop_pending (key_of workload) c) in
      elim (validate_workload env.is_dns_label workload) as (λ _. Option String × Controller) [
        | some e ↦
            let (marked, c₁) = set_workload_status env "Failed" false "InvalidSpec" e workload c in
            update_workload_status env (with_hash marked) c₁
        | none ↦
            if is_assigned workload
            then (if terminal_phase workload.status.phase then ended else assigned)
            else unassigned
      ]

  -- More workloads than the controller handles.
  unfoldable pub exceed_scale : Workload → M (Option String)
  exceed_scale workload =
      report_status env (if is_assigned workload then "Degraded" else "Pending") false
        "ClusterScaleExceeded" ("active workload count exceeds " <> show max_workloads) workload

  -- `reconcileWorkloadKey`
  unfoldable pub reconcile_workload_key : String → M (Option String)
  reconcile_workload_key key c =
      elim (lookup key c.cache.workloads) as (λ _. Option String × Controller) [
        | none ↦ (none, drop_pending key c)
        | some none ↦ (some "the workload does not decode", c)
        | some (some workload) ↦
            let many = exceed_scale workload c in
            let followed = reconcile_workload c.fabric (reservations key c) workload c in
            if ltb max_workloads (length c.cache.workloads) then many else followed
      ]
