-- ===== src/Controller/Status/Phases.antt =====
-- What `observedPhase` says about the pods of the ranks.
use tenstorrent_dra_framewor.Base.{
  ℕ, suc, ◌+◌, ◌≤◌, ◌≡◌, refl, ap, inl, inr, ◌↔◌, String, ◌<>◌, Bool, false, ◌||◌, List, [], ◌∷◌,
  Option, none, some, ◌==◌, string_eq, nat_eq, All, length, arith, Option-cases, Bool-cases,
  if◌then◌else◌,
}
use tenstorrent_dra_framewor.Base.Dict.{Dict, lookup}
use tenstorrent_dra_framewor.Api.{Workload, RankAssignment, Condition}
use tenstorrent_dra_framewor.Api.Pod.{Pod}
use tenstorrent_dra_framewor.Controller.World.{Env, Controller}
use tenstorrent_dra_framewor.Controller.Status.{
  set_workload_status, transition_of, Observed, unschedulable, has_started, settled_phase,
  after_pod, observe_ranks, observed_phase,
}

pub differ : (s t : String) → (s == t) ≡ false → ¬ (s ≡ t)
differ s t h e = ground (arith, h, e)

failed-differs : ¬ ◌≡◌ {A = String} "Failed" "Succeeded"
unfolding string_eq
failed-differs = differ "Failed" "Succeeded" refl

assigned-differs : ¬ ◌≡◌ {A = String} "Assigned" "Succeeded"
unfolding string_eq
assigned-differs = differ "Assigned" "Succeeded" refl

running-differs : ¬ ◌≡◌ {A = String} "Running" "Succeeded"
unfolding string_eq
running-differs = differ "Running" "Succeeded" refl

settled-done :
    (total : ℕ) (started : Bool) (n : ℕ)
    → (settled_phase total started n).phase ≡ "Succeeded"
    → n ≡ total
unfolding settled_phase
settled-done total started n h = ground (arith, h, running-differs, assigned-differs)

module _ (pods : Dict String Pod) (namespace : String) where
  abbrev pub pod_of : RankAssignment → Option Pod
  pod_of a = lookup (namespace <> ("/" <> a.pod_name)) pods

  -- The pod of the rank is there, has succeeded, and is not waiting for a node.
  pub record IsDone (a : RankAssignment) : Type 0 where
    pub pod : Pod
    pub stored : pod_of a ≡ some pod
    pub succeeded : pod.status.phase ≡ "Succeeded"
    pub scheduled : unschedulable pod.status.conditions ≡ none

  after_done :
      (pod : Pod) (started : Bool) (rest : Observed)
      → pod.status.phase ≡ "Succeeded"
      → unschedulable pod.status.conditions ≡ none
      → after_pod pod started rest ≡ rest
  unfolding after_pod string_eq
  after_done pod started rest p q = rw (after_pod, p, q) refl

  done_after :
      (pod : Pod) (started : Bool) (rest : Observed)
      → (after_pod pod started rest).phase ≡ "Succeeded"
      → (unschedulable pod.status.conditions ≡ none) × (rest.phase ≡ "Succeeded")
  unfolding after_pod
  done_after pod started rest h = ground (arith, h, failed-differs, assigned-differs)

  IsDone-ends :
      (total : ℕ) (assignments : List RankAssignment) (started : Bool) (n : ℕ)
      → n + length assignments ≡ total
      → All IsDone assignments
      → (observe_ranks pods namespace total assignments started n).phase ≡ "Succeeded"
  unfolding observe_ranks settled_phase string_eq
  IsDone-ends total [] started n e h = ground (arith, e)
  IsDone-ends total (a ∷ assignments) started n e (d, h) =
      rw (observe_ranks, d.stored)
        (rw (after_done d.pod started _ d.succeeded d.scheduled, d.succeeded)
          (IsDone-ends total assignments _ (suc n) (omega (arith, e)) h))

  ends-IsDone :
      (total : ℕ) (assignments : List RankAssignment) (started : Bool) (n : ℕ)
      → n + length assignments ≤ total
      → (observe_ranks pods namespace total assignments started n).phase ≡ "Succeeded"
      → (n + length assignments ≡ total) × All IsDone assignments
  unfolding observe_ranks settled_phase
  ends-IsDone total [] started n e h = (omega (arith, settled-done total started n h), tt)
  ends-IsDone total (a ∷ assignments) started n e h = elim (Option-cases (pod_of a)) [
    | inl missing ↦
        let rest =
          ends-IsDone total assignments started n (omega (arith, e))
            (rw (observe_ranks, missing) at h) in
        absurd (omega (arith, rest.0, e))
    | inr (pod, stored) ↦
        let started' = started || has_started pod in
        let count = if pod.status.phase == "Succeeded" then suc n else n in
        let (scheduled, later) =
          done_after pod started (observe_ranks pods namespace total assignments started' count)
            (rw (observe_ranks, stored) at h) in
        elim (Bool-cases (pod.status.phase == "Succeeded")) [
          | inl done ↦
              let rest =
                ends-IsDone total assignments started' (suc n) (omega (arith, e))
                  (rw done at later) in
              (
                omega (arith, rest.0),
                (
                  record {
                    pod = pod;
                    stored = stored;
                    succeeded = ground (arith, done);
                    scheduled = scheduled;
                  },
                  rest.1,
                ),
              )
          | inr other ↦
              let rest =
                ends-IsDone total assignments started' n (omega (arith, e)) (rw other at later) in
              absurd (omega (arith, rest.0, e))
        ]
  ]

-- The workload is seen as succeeded exactly if the pod of every rank is there, has succeeded, and does
-- not wait for a node.
pub observed_phase-succeeds :
    (pods : Dict String Pod) (workload : Workload)
    → ((observed_phase pods workload).phase ≡ "Succeeded")
      ↔ All (IsDone pods workload.namespace) workload.status.assignments
unfolding observed_phase
observed_phase-succeeds pods workload =
    let assignments = workload.status.assignments in
    (
      λ h.
          (ends-IsDone pods workload.namespace (length assignments) assignments false 0
            (omega arith) h).1,
      λ h.
          IsDone-ends pods workload.namespace (length assignments) assignments false 0 (omega arith)
            h,
    )

abbrev ready_condition : Bool → String → String → ℕ → ℕ → Condition
ready_condition ready reason message generation time = record {
  kind = "Ready";
  status = ready;
  reason = reason;
  message = message;
  observed_generation = generation;
  last_transition_time = time;
}

transition_of-same :
    (ready : Bool) (reason message : String) (generation time now : ℕ)
    → transition_of ready reason (ready_condition ready reason message generation time ∷ []) now
      ≡ time
unfolding transition_of
transition_of-same ready reason message generation time now = ground arith

-- Setting the same status again, at any later time, changes nothing: the time of the transition stays.
pub set_workload_status-again :
    (env : Env) (phase : String) (ready : Bool) (reason message : String) (workload : Workload)
    (c d : Controller)
    → let once = (set_workload_status env phase ready reason message workload c).0 in
      (set_workload_status env phase ready reason message once d).0 ≡ once
unfolding set_workload_status
set_workload_status-again env phase ready reason message workload c d =
    let once = (set_workload_status env phase ready reason message workload c).0 in
    let time = transition_of ready reason workload.status.conditions (env.now c.clock) in
    ap
      (λ t. record once {
        status = record once.status {
          conditions = ready_condition ready reason message workload.generation t ∷ [];
        };
      })
      (transition_of-same ready reason message workload.generation time (env.now d.clock))
