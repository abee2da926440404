-- ===== src/Controller/Status/Started.antt =====
-- What `observedPhase` says of a rank that runs.
use tenstorrent_dra_framewor.Base.{
  ℕ, ◌≡◌, refl, inl, inr, ◌⊎◌, String, Bool, true, false, ◌||◌, List, [], ◌∷◌, ◌++◌, Option, none,
  some, ◌==◌, string_eq, nat_eq, All, arith, Option-cases, Bool-cases,
}
use tenstorrent_dra_framewor.Base.Dict.{Dict}
use tenstorrent_dra_framewor.Api.{Workload, RankAssignment}
use tenstorrent_dra_framewor.Api.Pod.{Pod}
use tenstorrent_dra_framewor.Controller.Status.{
  Observed, unschedulable, has_started, settled_phase, after_pod, observe_ranks, observed_phase,
}
use tenstorrent_dra_framewor.Controller.Status.Phases.{
  differ, pod_of, IsDone, observed_phase-succeeds,
}

abbrev pub has_failed : Option Pod → Bool
has_failed none = false
has_failed (some pod) = pod.status.phase == "Failed"

-- The pod cannot be scheduled.
abbrev pub waits : Option Pod → Bool
waits none = false
waits (some pod) = elim (unschedulable pod.status.conditions) [ none ↦ false | some _ ↦ true ]

-- The pod of a rank has a start time or runs, and has not ended; no pod of the workload has failed, and
-- no rank before this one waits for a node.
pub record IsRunning (pods : Dict String Pod) (workload : Workload) : Type 0 where
  pub before : List RankAssignment
  pub rank : RankAssignment
  pub after : List RankAssignment
  pub split : workload.status.assignments ≡ before ++ (rank ∷ after)
  pub pod : Pod
  pub stored : pod_of pods workload.namespace rank ≡ some pod
  pub begun : (pod.status.started ≡ true) ⊎ (pod.status.phase ≡ "Running")
  pub not_ended : (pod.status.phase == "Succeeded") ≡ false
  pub none_failed :
      All
        (λ (a : RankAssignment). has_failed (pod_of pods workload.namespace a) ≡ false)
        (before ++ (rank ∷ after))
  pub none_waits :
      All (λ (a : RankAssignment). waits (pod_of pods workload.namespace a) ≡ false) before

assigned-fails : ¬ ◌≡◌ {A = String} "Assigned" "Failed"
unfolding string_eq
assigned-fails = differ "Assigned" "Failed" refl

running-fails : ¬ ◌≡◌ {A = String} "Running" "Failed"
unfolding string_eq
running-fails = differ "Running" "Failed" refl

succeeded-fails : ¬ ◌≡◌ {A = String} "Succeeded" "Failed"
unfolding string_eq
succeeded-fails = differ "Succeeded" "Failed" refl

settled_phase-started : (total n : ℕ) → (settled_phase total true n).started ≡ true
unfolding settled_phase
settled_phase-started total n = ground arith

settled_phase-fails :
    (total : ℕ) (started : Bool) (n : ℕ)
    → ((settled_phase total started n).phase == "Failed") ≡ false
unfolding settled_phase
settled_phase-fails total started n = ground (arith, assigned-fails, running-fails, succeeded-fails)

-- A pod that has not failed ends the loop only where it waits for a node.
after_pod-started :
    (pod : Pod) (started : Bool) (rest : Observed)
    → (pod.status.phase == "Failed") ≡ false
    → (started || has_started pod) ≡ true
    → rest.started ≡ true
    → (after_pod pod started rest).started ≡ true
unfolding after_pod
after_pod-started pod started rest live begun h = ground (arith, live, begun, h)

after_pod-fails :
    (pod : Pod) (started : Bool) (rest : Observed)
    → (pod.status.phase == "Failed") ≡ false
    → (rest.phase == "Failed") ≡ false
    → ((after_pod pod started rest).phase == "Failed") ≡ false
unfolding after_pod
after_pod-fails pod started rest live h = ground (arith, live, h, assigned-fails)

after_pod-next :
    (pod : Pod) (started : Bool) (rest : Observed)
    → (pod.status.phase == "Failed") ≡ false
    → waits (some pod) ≡ false
    → after_pod pod started rest ≡ rest
unfolding after_pod
after_pod-next pod started rest live ready = ground (arith, live, ready)

module _ (pods : Dict String Pod) (namespace : String) (total : ℕ) where
  abbrev Lives : RankAssignment → Type 0
  Lives a = has_failed (pod_of pods namespace a) ≡ false

  abbrev Ready : RankAssignment → Type 0
  Ready a = waits (pod_of pods namespace a) ≡ false

  observe_ranks-fails :
      (assignments : List RankAssignment) (started : Bool) (n : ℕ)
      → All Lives assignments
      → ((observe_ranks pods namespace total assignments started n).phase == "Failed") ≡ false
  unfolding observe_ranks
  observe_ranks-fails [] started n h = settled_phase-fails total started n
  observe_ranks-fails (a ∷ assignments) started n (live, h) =
      elim (Option-cases (pod_of pods namespace a)) [
        | inl missing ↦ rw (observe_ranks, missing) (observe_ranks-fails assignments started n h)
        | inr (pod, stored) ↦
            let alive : (pod.status.phase == "Failed") ≡ false = rw stored at live in
            rw (observe_ranks, stored)
              (after_pod-fails pod started _ alive (observe_ranks-fails assignments _ _ h))
      ]

  -- A start that was seen stays seen.
  observe_ranks-started :
      (assignments : List RankAssignment) (started : Bool) (n : ℕ)
      → started ≡ true
      → All Lives assignments
      → (observe_ranks pods namespace total assignments started n).started ≡ true
  unfolding observe_ranks
  observe_ranks-started [] started n e h = rw e (settled_phase-started total n)
  observe_ranks-started (a ∷ assignments) started n e (live, h) =
      elim (Option-cases (pod_of pods namespace a)) [
        | inl missing ↦
            rw (observe_ranks, missing) (observe_ranks-started assignments started n e h)
        | inr (pod, stored) ↦
            let alive : (pod.status.phase == "Failed") ≡ false = rw stored at live in
            let seen : (started || has_started pod) ≡ true = ground (arith, e) in
            rw (observe_ranks, stored)
              (after_pod-started pod started _ alive seen
                (observe_ranks-started assignments _ _ seen h))
      ]

  observe_ranks-running :
      (before : List RankAssignment) (rank : RankAssignment) (after : List RankAssignment)
      (pod : Pod) (started : Bool) (n : ℕ)
      → pod_of pods namespace rank ≡ some pod
      → has_started pod ≡ true
      → All Lives (before ++ (rank ∷ after))
      → All Ready before
      → (observe_ranks pods namespace total (before ++ (rank ∷ after)) started n).started ≡ true
  unfolding observe_ranks
  observe_ranks-running [] rank after pod started n stored begun (live, h) r =
      let alive : (pod.status.phase == "Failed") ≡ false = rw stored at live in
      let seen : (started || has_started pod) ≡ true = ground (arith, begun) in
      rw (observe_ranks, stored)
        (after_pod-started pod started _ alive seen (observe_ranks-started after _ _ seen h))
  observe_ranks-running (a ∷ before) rank after pod started n stored begun (live, h) (ready, r) =
      elim (Option-cases (pod_of pods namespace a)) [
        | inl missing ↦
            rw (observe_ranks, missing)
              (observe_ranks-running before rank after pod started n stored begun h r)
        | inr (other, found) ↦
            let alive : (other.status.phase == "Failed") ≡ false = rw found at live in
            let free : waits (some other) ≡ false = rw found at ready in
            rw (observe_ranks, found)
              (rw (after_pod-next other started _ alive free)
                (observe_ranks-running before rank after pod _ _ stored begun h r))
      ]

begun_of :
    (pod : Pod)
    → (pod.status.started ≡ true) ⊎ (pod.status.phase ≡ "Running")
    → has_started pod ≡ true
begun_of pod h = ground (arith, h)

pub observed_phase-started :
    (pods : Dict String Pod) (workload : Workload)
    → IsRunning pods workload
    → (observed_phase pods workload).started ≡ true
unfolding observed_phase
observed_phase-started pods workload h = rw h.split (
    observe_ranks-running pods workload.namespace _ h.before h.rank h.after h.pod false 0 h.stored
      (begun_of h.pod h.begun) h.none_failed h.none_waits)

pub observed_phase-fails :
    (pods : Dict String Pod) (workload : Workload)
    → IsRunning pods workload
    → ((observed_phase pods workload).phase == "Failed") ≡ false
unfolding observed_phase
observed_phase-fails pods workload h =
    rw h.split (observe_ranks-fails pods workload.namespace _ _ false 0 h.none_failed)

All-middle :
    (P : RankAssignment → Type 0) (before : List RankAssignment) (rank : RankAssignment)
    (after : List RankAssignment)
    → All P (before ++ (rank ∷ after))
    → P rank
All-middle P [] rank after h = h.0
All-middle P (a ∷ before) rank after h = All-middle P before rank after h.1

pub observed_phase-lasts :
    (pods : Dict String Pod) (workload : Workload)
    → IsRunning pods workload
    → ((observed_phase pods workload).phase == "Succeeded") ≡ false
observed_phase-lasts pods workload h =
    elim (Bool-cases ((observed_phase pods workload).phase == "Succeeded")) [
      | inr other ↦ other
      | inl ended ↦
          let all_done = (observed_phase-succeeds pods workload).0 (ground (arith, ended)) in
          let done =
            All-middle (IsDone pods workload.namespace) h.before h.rank h.after
              (rw h.split at all_done) in
          absurd (ground (arith, done.stored, done.succeeded, h.stored, h.not_ended))
    ]
