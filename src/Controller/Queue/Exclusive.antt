-- ===== src/Controller/Queue/Exclusive.antt =====
-- No device is pending for two workloads.
use tenstorrent_dra_framewor.Base.{
  ◌≡◌, ◌∙◌, ap, sym, subst, ◌≢◌, String, true, false, not, ◌&&◌, List, [], ◌∷◌, some, ◌==◌,
  contains, string_eq, any, All, arith, inl, inr, Bool-cases,
}
use tenstorrent_dra_framewor.Base.Dict.{Dict, lookup, insert, erase, lookup-insert, lookup-erase}
use tenstorrent_dra_framewor.Api.{
  Workload, RankAssignment, AssignedDevice, FabricEndpoint, WorkloadRank, WorkloadTopology,
}
use tenstorrent_dra_framewor.Placement.Model.{
  DeviceId, device_id_eq, Reservations, add_assignment, endpoint_device, id_of,
}
use tenstorrent_dra_framewor.Placement.Model.Sets.{holds, is_candidate-fresh}
use tenstorrent_dra_framewor.Placement.Search.Placed.{IsEligible, Placed}
use tenstorrent_dra_framewor.Placement.Search.Sound.{IsPlacement}
use tenstorrent_dra_framewor.Controller.World.{Controller}
use tenstorrent_dra_framewor.Controller.Reserve.{reservations}
use tenstorrent_dra_framewor.Controller.Reserve.Taken.{takes, reservations-is_taken}
use tenstorrent_dra_framewor.Controller.Reconcile.Steps.{
  PendingStep, unchanged, dropped, taken, IsGranted,
}

-- No device is pending for two workloads.
abbrev pub IsExclusive : Dict String (List RankAssignment) → Type 0
IsExclusive pending =
    (j k : String) (as' bs : List RankAssignment) (id : DeviceId)
    → j ≢ k
    → lookup j pending ≡ some as'
    → lookup k pending ≡ some bs
    → takes as' id ≡ true
    → takes bs id ≡ false

module _ (topology : WorkloadTopology) (candidates : List FabricEndpoint) (reserved : Reservations)
    (id : DeviceId) where
  devices-free :
      (rank : WorkloadRank) (earlier : Reservations) (node : String) (items : List AssignedDevice)
      → All (IsEligible topology candidates reserved rank earlier node) items
      → holds items id ≡ true
      → contains reserved id ≡ false
  devices-free rank earlier node [] h t = cc
  devices-free rank earlier node (item ∷ items) ((e, same, _, _, fits), h) t =
      let fresh = (is_candidate-fresh topology rank reserved earlier e fits).0 in
      let at : id_of item ≡ endpoint_device e = ap id_of same in
      ground (arith, t, fresh, at, devices-free rank earlier node items h)

  Placed-free :
      (ranks : List WorkloadRank) (found : List RankAssignment) (earlier : Reservations)
      → Placed topology candidates reserved ranks found earlier
      → takes found id ≡ true
      → contains reserved id ≡ false
  Placed-free [] [] earlier h t = cc
  Placed-free [] (a ∷ found) earlier h t = elim h [ ]
  Placed-free (rank ∷ ranks) [] earlier h t = elim h [ ]
  Placed-free (rank ∷ ranks) (a ∷ found) earlier (h, rest) t =
      let here = devices-free rank earlier a.node_name a.devices h.eligible in
      ground (arith, t, here, Placed-free ranks found (add_assignment a earlier) rest)

pub IsPlacement-free :
    (workload : Workload) (endpoints : List FabricEndpoint) (reserved : Reservations)
    (found : List RankAssignment) (id : DeviceId)
    → IsPlacement workload endpoints reserved found
    → takes found id ≡ true
    → contains reserved id ≡ false
IsPlacement-free workload endpoints reserved found id h =
    Placed-free workload.spec.topology _ reserved id workload.spec.ranks found [] h.placed

any-lookup :
    (key j : String) (as' : List RankAssignment) (id : DeviceId)
    (pending : Dict String (List RankAssignment))
    → j ≢ key
    → lookup j pending ≡ some as'
    → takes as' id ≡ true
    → any (λ (e : String × List RankAssignment). not (e.0 == key) && takes e.1 id) pending ≡ true
unfolding lookup
any-lookup key j as' id [] n h t = cc
any-lookup key j as' id ((k, bs) ∷ pending) n h t =
    ground (arith, n, h, t, any-lookup key j as' id pending n)

-- A placement that avoids the reservations shares no device with another pending one.
IsPlacement-avoids :
    (c : Controller) (key j : String) (workload : Workload) (endpoints : List FabricEndpoint)
    (found as' : List RankAssignment) (id : DeviceId)
    → IsPlacement workload endpoints (reservations key c) found
    → j ≢ key
    → lookup j c.pending ≡ some as'
    → takes as' id ≡ true
    → takes found id ≡ false
IsPlacement-avoids c key j workload endpoints found as' id h n stored t =
    let free = IsPlacement-free workload endpoints (reservations key c) found id h in
    let reserved = reservations-is_taken key id c in
    let held = any-lookup key j as' id c.pending n stored t in ground (arith, free, reserved, held)

pub erase-IsExclusive :
    (key : String) (pending : Dict String (List RankAssignment))
    → IsExclusive pending
    → IsExclusive (erase key pending)
erase-IsExclusive key pending h j k as' bs id n p q t =
    let p' = lookup-erase j key pending in
    let q' = lookup-erase k key pending in ground (arith, p, q, p', q', h j k as' bs id n)

pub insert-IsExclusive :
    (c : Controller) (key : String) (found : List RankAssignment)
    → IsGranted key c found
    → IsExclusive c.pending
    → IsExclusive (insert key found c.pending)
insert-IsExclusive c key found (w, new) h j k as' bs id n p q t =
    let p' = lookup-insert j key found c.pending in
    let q' = lookup-insert k key found c.pending in
    let avoids = IsPlacement-avoids c key in
    let ends = c.fabric.endpoints in
    elim (string_eq.dec j key) [
      | yes same ↦
          let other : k ≢ key = λ e. n (same ∙ sym e) in
          let stored : lookup k c.pending ≡ some bs = ground (arith, q, q', other) in
          let is_new : found ≡ as' = ground (arith, p, p', same) in
          elim (Bool-cases (takes bs id)) [
            | inr free ↦ free
            | inl held ↦
                let clear = avoids k w ends found bs id new other stored held in
                absurd (ground (arith, clear, t, ap (λ items. takes items id) is_new))
          ]
      | no other ↦
          let stored : lookup j c.pending ≡ some as' = ground (arith, p, p', other) in
          elim (string_eq.dec k key) [
            | yes same ↦
                let is_new : found ≡ bs = ground (arith, q, q', same) in
                ap (λ items. takes items id) (sym is_new)
                ∙ avoids j w ends found as' id new other stored t
            | no elsewhere ↦ h j k as' bs id n stored (ground (arith, q, q', elsewhere)) t
          ]
    ]

-- A reconciliation keeps the pending assignments apart.
pub PendingStep-IsExclusive :
    (key : String) (a b : Controller)
    → PendingStep key (IsGranted key a) a.pending b.pending
    → IsExclusive a.pending
    → IsExclusive b.pending
PendingStep-IsExclusive key a b (unchanged e) h = subst IsExclusive (sym e) h
PendingStep-IsExclusive key a b (dropped e) h =
    subst IsExclusive (sym e) (erase-IsExclusive key a.pending h)
PendingStep-IsExclusive key a b (taken found new e) h =
    subst IsExclusive (sym e) (insert-IsExclusive a key found new h)
