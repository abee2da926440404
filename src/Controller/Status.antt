-- ===== src/Controller/Status.antt =====
-- internal/controller/controller.go: the phases of a workload, and the writes of its status.
pub mod Phases
pub mod Started
use tenstorrent_dra_framewor.Base.{
  ℕ, suc, ◌+◌, String, ◌<>◌, Bool, true, false, not, ◌&&◌, ◌||◌, List, [], ◌∷◌, Option, none, some,
  ◌==◌, contains, string_eq, nat_eq, if◌then◌else◌, length, any,
}
use tenstorrent_dra_framewor.Base.Dict.{Dict, lookup}
use tenstorrent_dra_framewor.Api.{
  Workload, WorkloadStatus, RankAssignment, AssignedDevice, Condition,
}
use tenstorrent_dra_framewor.Api.Pod.{Pod, PodCondition}
use tenstorrent_dra_framewor.Placement.Model.{Reservations, device_id_eq, id_of}
use tenstorrent_dra_framewor.Controller.World.{
  retry_on_conflict, Attempt, finished, conflicted, failed, Reply, found, unread, updated, conflict,
  not_updated, sent_status, sent_event, Env, Controller, M, tick, send,
}

-- What `observedPhase` answers.
pub record Observed : Type 0 where
  pub phase : String
  pub reason : String
  pub message : String
  pub started : Bool

-- The message of the first condition that says the pod cannot be scheduled.
unfoldable pub unschedulable : List PodCondition → Option String
unschedulable [] = none
unschedulable (condition ∷ conditions) =
    let rest = unschedulable conditions in
    if condition.kind == "PodScheduled"
      && (condition.status == "False" && condition.reason == "Unschedulable")
    then some condition.message
    else rest

abbrev pub has_started : Pod → Bool
has_started pod = (pod.status).started || (pod.status).phase == "Running"

-- The end of `observedPhase`, after the loop.
unfoldable pub settled_phase : ℕ → Bool → ℕ → Observed
settled_phase total started succeeded =
    if succeeded == total
    then record {
      phase = "Succeeded";
      reason = "RanksSucceeded";
      message = "all rank Pods succeeded";
      started = true;
    }
    else if started
    then record {
      phase = "Running";
      reason = "RanksRunning";
      message = "one or more rank Pods are running";
      started = true;
    }
    else record {
      phase = "Assigned";
      reason = "ChildrenPending";
      message = "rank Pods and claims are pending";
      started = false;
    }

-- The returns of the loop of `observedPhase` at a pod, before those of the pods after it.
unfoldable pub after_pod : Pod → Bool → Observed → Observed
unfolding unschedulable
after_pod pod started rest =
    if pod.status.phase == "Failed"
    then record {
      phase = "Failed";
      reason = "RankFailed";
      message = "a rank Pod failed";
      started = started;
    }
    else elim (unschedulable pod.status.conditions) as (λ _. Observed) [
      | none ↦ rest
      | some message ↦ record {
        phase = "Assigned";
        reason = "Unschedulable";
        message = message;
        started = started || has_started pod;
      }
    ]

module _ (pods : Dict String Pod) (namespace : String) (total : ℕ) where
  -- The loop of `observedPhase`.
  unfoldable pub observe_ranks : List RankAssignment → Bool → ℕ → Observed
  unfolding lookup after_pod settled_phase
  observe_ranks [] started succeeded = settled_phase total started succeeded
  observe_ranks (assignment ∷ assignments) started succeeded =
      elim (lookup (namespace <> ("/" <> assignment.pod_name)) pods) as (λ _. Observed) [
        | none ↦ observe_ranks assignments started succeeded
        | some pod ↦
            let started' = started || has_started pod in
            let succeeded' = if pod.status.phase == "Succeeded" then suc succeeded else succeeded in
            after_pod pod started (observe_ranks assignments started' succeeded')
      ]

-- `observedPhase`
unfoldable pub observed_phase : Dict String Pod → Workload → Observed
unfolding observe_ranks
observed_phase pods workload =
    let assignments = (workload.status).assignments in
    observe_ranks pods workload.namespace (length assignments) assignments false 0

-- `terminalPhase`
unfoldable pub terminal_phase : String → Bool
terminal_phase phase = phase == "Failed" || phase == "Succeeded"

-- `assignmentsReserved`
unfoldable pub assignments_reserved : List RankAssignment → Reservations → Bool
assignments_reserved assignments used =
    any
      (λ (a : RankAssignment).
        any (λ (item : AssignedDevice). contains used (id_of item)) a.devices)
      assignments

-- The loop of `setWorkloadStatus`: the time of the last condition that says the same.
unfoldable pub transition_of : Bool → String → List Condition → ℕ → ℕ
transition_of ready reason [] transition = transition
transition_of ready reason (existing ∷ conditions) transition =
    transition_of ready reason conditions (
      if existing.kind == "Ready"
        && ((if ready then existing.status else not existing.status) && existing.reason == reason)
      then existing.last_transition_time
      else transition)

module _ (env : Env) where
  -- `setWorkloadStatus`
  unfoldable pub set_workload_status : String → Bool → String → String → Workload → M Workload
  unfolding transition_of
  set_workload_status phase ready reason message workload c = (
    record workload {
      status = record workload.status {
        phase = phase;
        conditions =
            record {
              kind = "Ready";
              status = ready;
              reason = reason;
              message = message;
              observed_generation = workload.generation;
              last_transition_time =
                  transition_of ready reason (workload.status).conditions (env.now c.clock);
            }
            ∷ [];
      };
    },
    tick c,
  )

  -- The attempt after the read: a workload that has ended keeps its phase, and a status that is the
  -- same is not written.
  unfoldable pub write_status : Workload → Workload → M Attempt
  unfolding terminal_phase
  write_status latest workload c =
      let answer : Attempt = elim (env.update_status c.clock) [
        | updated ↦ finished true
        | conflict e ↦ conflicted e
        | not_updated e ↦ failed e
      ] in
      if terminal_phase latest.status.phase && not (latest.status.phase == workload.status.phase)
      then (finished false, c)
      else if env.same_status latest.status workload.status
      then (finished false, c)
      else (answer, send (sent_status latest workload.status) c)

  unfoldable pub attempt_update : Workload → M Attempt
  unfolding write_status
  attempt_update workload c = elim (env.get_workload c.clock) as (λ _. Attempt × Controller) [
    | unread e ↦ (failed e, tick c)
    | found latest ↦ write_status latest workload (tick c)
  ]

  abbrev pub event_of : Workload → String × String
  event_of workload = elim (workload.status).conditions [
    | [] ↦ ("StatusChanged", "workload status changed")
    | condition ∷ _ ↦ (condition.reason, condition.message)
  ]

  abbrev warns : Workload → String → Bool
  warns workload reason =
      (workload.status).phase == "Degraded"
      || ((workload.status).phase == "Failed"
          || (reason == "Unsatisfied" || (reason == "FabricInvalid" || reason == "PlacementError")))

  -- `emitWorkloadEvent`
  unfoldable pub emit_workload_event : Bool → String → String → Controller → Controller
  emit_workload_event warning reason message c =
      if c.has_recorder then send (sent_event warning reason message) c else c

  -- `workload.Status.ObservedGeneration = workload.Generation`
  abbrev pub with_observed : Workload → Workload
  with_observed workload = record workload {
    status = record workload.status { observed_generation = workload.generation };
  }

  -- `updateWorkloadStatus`
  unfoldable pub update_workload_status : Workload → M (Option String)
  unfolding retry_on_conflict attempt_update emit_workload_event
  update_workload_status workload c =
      let current = with_observed workload in
      let ((error, changed), c₁) =
        retry_on_conflict env.attempts "no attempt" (attempt_update current) c in
      let (reason, message) = event_of current in
      elim error as (λ _. Option String × Controller) [
        | some e ↦ (some e, c₁)
        | none ↦ (
          none,
          if changed then emit_workload_event (warns current reason) reason message c₁ else c₁,
        )
      ]

  -- `setWorkloadStatus`, then `updateWorkloadStatus`.
  unfoldable pub report_status : String → Bool → String → String → Workload → M (Option String)
  unfolding set_workload_status update_workload_status
  report_status phase ready reason message workload c =
      let (marked, c₁) = set_workload_status phase ready reason message workload c in
      update_workload_status marked c₁
