-- ===== src/Controller/Reserve/Taken.antt =====
-- Which devices `reservations` holds.
use tenstorrent_dra_framewor.Base.{
  ◌≡◌, String, Bool, false, not, ◌&&◌, ◌||◌, List, [], ◌∷◌, Option, none, some, ◌==◌, contains,
  string_eq, any, arith, Option-cases, inl, inr,
}
use tenstorrent_dra_framewor.Base.Dict.{Dict}
use tenstorrent_dra_framewor.Api.{Workload, RankAssignment}
use tenstorrent_dra_framewor.Api.Pod.{Claim, AllocationResult}
use tenstorrent_dra_framewor.Placement.Model.{
  DeviceId, device_id_eq, Reservations, reserve, add_assignments, add_assignment,
}
use tenstorrent_dra_framewor.Placement.Model.Sets.{holds, contains-add_assignment, contains-reserve}
use tenstorrent_dra_framewor.Controller.World.{Controller}
use tenstorrent_dra_framewor.Controller.Reserve.{
  reserve_pending, reserve_results, claim_key, reserve_claim, reserve_claims, reserve_workload,
  reserve_workloads, reservations,
}

-- A rank of the assignment has the device.
abbrev pub takes : List RankAssignment → DeviceId → Bool
takes assignments id = any (λ (a : RankAssignment). holds a.devices id) assignments

-- The claim is allocated the device.
abbrev pub is_allocated : Claim → DeviceId → Bool
is_allocated claim id = elim claim.allocation [
  | none ↦ false
  | some results ↦
      any (λ (r : AllocationResult). id == record { pool = r.pool; name = r.device }) results
]

-- The workload is neither failed nor succeeded, and its assignment has the device.
abbrev pub is_in_use : Option Workload → DeviceId → Bool
is_in_use none id = false
is_in_use (some workload) id =
    not (workload.status.phase == "Failed" || workload.status.phase == "Succeeded")
    && takes workload.status.assignments id

-- Another workload has the device: it is pending for it, allocated to a claim of it, or published in
-- its status.
abbrev pub is_taken : String → Controller → DeviceId → Bool
is_taken exclude c id =
    any (λ (e : String × List RankAssignment). not (e.0 == exclude) && takes e.1 id) c.pending
    || (any (λ (claim : Claim). not (claim_key claim == exclude) && is_allocated claim id)
          c.cache.claims
        || any (λ (e : String × Option Workload). not (e.0 == exclude) && is_in_use e.1 id)
            c.cache.workloads)

contains-add_assignments :
    (assignments : List RankAssignment) (used : Reservations) (id : DeviceId)
    → contains (add_assignments assignments used) id ≡ (contains used id || takes assignments id)
unfolding add_assignments
contains-add_assignments [] used id = ground arith
contains-add_assignments (a ∷ assignments) used id = ground (
  arith,
  contains-add_assignments assignments (add_assignment a used) id,
  contains-add_assignment a used id,
)

module _ (exclude : String) (id : DeviceId) where
  contains-reserve_pending :
      (pending : Dict String (List RankAssignment)) (used : Reservations)
      → contains (reserve_pending exclude pending used) id ≡ (
          contains used id
          || any
              (λ (e : String × List RankAssignment). not (e.0 == exclude) && takes e.1 id)
              pending)
  unfolding reserve_pending
  contains-reserve_pending [] used = ground arith
  contains-reserve_pending ((key, assignments) ∷ pending) used = ground (
    arith,
    contains-reserve_pending pending used,
    contains-reserve_pending pending (add_assignments assignments used),
    contains-add_assignments assignments used id,
  )

  contains-reserve_results :
      (results : List AllocationResult) (used : Reservations)
      → contains (reserve_results results used) id ≡ (
          contains used id
          || any
              (λ (r : AllocationResult). id == record { pool = r.pool; name = r.device })
              results)
  unfolding reserve_results
  contains-reserve_results [] used = ground arith
  contains-reserve_results (r ∷ results) used =
      let device : DeviceId = record { pool = r.pool; name = r.device } in
      ground (
        arith,
        contains-reserve_results results (reserve device used),
        contains-reserve device id used,
      )

  contains-reserve_claim :
      (claim : Claim) (used : Reservations)
      → contains (reserve_claim exclude claim used) id
        ≡ (contains used id || (not (claim_key claim == exclude) && is_allocated claim id))
  unfolding reserve_claim
  contains-reserve_claim claim used = elim (Option-cases claim.allocation) [
    | inl e ↦ rw (reserve_claim, e) (ground arith)
    | inr (results, e) ↦
        rw (reserve_claim, e) (ground (arith, contains-reserve_results results used))
  ]

  contains-reserve_claims :
      (claims : List Claim) (used : Reservations)
      → contains (reserve_claims exclude claims used) id ≡ (
          contains used id
          || any
              (λ (claim : Claim). not (claim_key claim == exclude) && is_allocated claim id)
              claims)
  unfolding reserve_claims
  contains-reserve_claims [] used = ground arith
  contains-reserve_claims (claim ∷ claims) used = ground (
    arith,
    contains-reserve_claims claims (reserve_claim exclude claim used),
    contains-reserve_claim claim used,
  )

  contains-reserve_workload :
      (key : String) (workload : Option Workload) (used : Reservations)
      → contains (reserve_workload exclude key workload used) id
        ≡ (contains used id || (not (key == exclude) && is_in_use workload id))
  unfolding reserve_workload
  contains-reserve_workload key none used = ground arith
  contains-reserve_workload key (some workload) used =
      ground (arith, contains-add_assignments workload.status.assignments used id)

  contains-reserve_workloads :
      (workloads : Dict String (Option Workload)) (used : Reservations)
      → contains (reserve_workloads exclude workloads used) id ≡ (
          contains used id
          || any
              (λ (e : String × Option Workload). not (e.0 == exclude) && is_in_use e.1 id)
              workloads)
  unfolding reserve_workloads
  contains-reserve_workloads [] used = ground arith
  contains-reserve_workloads ((key, workload) ∷ workloads) used = ground (
    arith,
    contains-reserve_workloads workloads (reserve_workload exclude key workload used),
    contains-reserve_workload key workload used,
  )

  -- The reservations for a workload are exactly the devices that are pending for another workload,
  -- allocated to another's claim, or assigned in the status of another that has not ended.
  pub reservations-is_taken :
      (c : Controller) → contains (reservations exclude c) id ≡ is_taken exclude c id
  unfolding reservations
  reservations-is_taken c =
      let pending = reserve_pending exclude c.pending [] in
      let claims = reserve_claims exclude c.cache.claims pending in
      let p = contains-reserve_pending c.pending [] in
      let q = contains-reserve_claims c.cache.claims pending in
      let r = contains-reserve_workloads c.cache.workloads claims in rw (r, q, p) (ground arith)
