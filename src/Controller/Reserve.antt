-- ===== src/Controller/Reserve.antt =====
-- internal/controller/controller.go: the devices that are taken for a workload.
pub mod Taken
use tenstorrent_dra_framewor.Base.{
  String, ◌<>◌, not, ◌&&◌, List, [], ◌∷◌, Option, none, some, ◌==◌, string_eq, if◌then◌else◌,
}
use tenstorrent_dra_framewor.Base.Dict.{Dict, lookup}
use tenstorrent_dra_framewor.Api.{Workload, RankAssignment}
use tenstorrent_dra_framewor.Api.Pod.{Claim, AllocationResult}
use tenstorrent_dra_framewor.Placement.Model.{Reservations, reserve, add_assignments}
use tenstorrent_dra_framewor.Controller.World.{Controller}

-- The devices of a claim's allocation.
unfoldable pub reserve_results : List AllocationResult → Reservations → Reservations
unfolding reserve
reserve_results [] used = used
reserve_results (result ∷ results) used =
    reserve_results results (reserve (record { pool = result.pool; name = result.device }) used)

-- The key of the workload that a claim is labelled with.
abbrev pub claim_key : Claim → String
claim_key claim =
    claim.namespace
    <> ("/" <> (elim (lookup "tenstorrent.com/workload-name" claim.labels) [
      | none ↦ ""
      | some name ↦ name
    ]))

module _ (exclude : String) where
  -- The loops of `reservations`, over the pending assignments, the claims and the workloads.
  unfoldable pub reserve_pending : Dict String (List RankAssignment) → Reservations → Reservations
  unfolding add_assignments
  reserve_pending [] used = used
  reserve_pending ((key, assignments) ∷ pending) used =
      reserve_pending pending (if key == exclude then used else add_assignments assignments used)

  unfoldable pub reserve_claim : Claim → Reservations → Reservations
  unfolding reserve_results
  reserve_claim claim used =
      let taken : Reservations = elim claim.allocation [
        | none ↦ used
        | some results ↦ reserve_results results used
      ] in
      if claim_key claim == exclude then used else taken

  unfoldable pub reserve_claims : List Claim → Reservations → Reservations
  unfolding reserve_claim
  reserve_claims [] used = used
  reserve_claims (claim ∷ claims) used = reserve_claims claims (reserve_claim claim used)

  unfoldable pub reserve_workload : String → Option Workload → Reservations → Reservations
  unfolding add_assignments
  reserve_workload key none used = used
  reserve_workload key (some workload) used =
      if key == exclude
      then used
      else if not (workload.status.phase == "Failed") && not (workload.status.phase == "Succeeded")
      then add_assignments workload.status.assignments used
      else used

  unfoldable pub reserve_workloads : Dict String (Option Workload) → Reservations → Reservations
  unfolding reserve_workload
  reserve_workloads [] used = used
  reserve_workloads ((key, workload) ∷ workloads) used =
      reserve_workloads workloads (reserve_workload key workload used)

  -- `reservations`
  unfoldable pub reservations : Controller → Reservations
  unfolding reserve_pending reserve_claims reserve_workloads
  reservations c =
      reserve_workloads c.cache.workloads
        (reserve_claims c.cache.claims (reserve_pending c.pending []))
