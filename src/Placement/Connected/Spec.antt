-- ===== src/Placement/Connected/Spec.antt =====
-- What `connected` decides.
use tenstorrent_dra_framewor.Base.{
  ◌≡◌, refl, ◌≢◌, ◌↔◌, inl, inr, String, Bool, true, false, ◌&&◌, List, [], ◌∷◌, none, some, ◌==◌,
  contains, length, all, arith, if◌then◌else◌, Option-cases, string_eq, nat_eq,
}
use tenstorrent_dra_framewor.Base.Dict.{Dict, lookup}
use tenstorrent_dra_framewor.Base.Distinct.{Distinct}
use tenstorrent_dra_framewor.Api.{FabricEndpoint, AssignedDevice, RankAssignment}
use tenstorrent_dra_framewor.Placement.Connected.{
  Origin, select_devices, selected_ids, index_by_id, same_ring, walk, connected,
}
use tenstorrent_dra_framewor.Placement.Connected.Sound.{Reach, walk_counts}

select_devices-Distinct :
    (items : List AssignedDevice) (ids : List String)
    → Distinct ids
    → Distinct (select_devices items ids)
unfolding select_devices
select_devices-Distinct [] ids d = d
select_devices-Distinct (item ∷ items) ids d = select_devices-Distinct items _ (ground arith)

selected_ids-Distinct :
    (as' : List RankAssignment) (ids : List String) → Distinct ids → Distinct (selected_ids as' ids)
unfolding selected_ids
selected_ids-Distinct [] ids d = d
selected_ids-Distinct (a ∷ as') ids d =
    selected_ids-Distinct as' _ (select_devices-Distinct a.devices ids d)

-- The endpoint of an id is known and lies on the fabric and the ring.
abbrev pub on_ring : Dict String FabricEndpoint → String → String → String → Bool
on_ring by_id fabric ring id = elim (lookup id by_id) [
  | none ↦ false
  | some item ↦ item.fabric_id == fabric && item.ring_id == ring
]

same_ring_lem :
    (by_id : Dict String FabricEndpoint) (ids : List String) (o : Origin)
    → o.start ≢ ""
    → same_ring by_id ids o
      ≡ (if all (on_ring by_id o.fabric_id o.ring_id) ids then some o else none)
unfolding same_ring
same_ring_lem by_id [] o h = refl
same_ring_lem by_id (id ∷ ids) o h = ground (arith, same_ring_lem by_id ids o h)

-- The selected endpoints make one connected piece of a ring, seen from the first of them.
abbrev pub IsConnected : Dict String FabricEndpoint → List String → Type 0
IsConnected by_id [] = ⊥
IsConnected by_id (start ∷ ids) =
    (fabric : String) × (ring : String) × (all (on_ring by_id fabric ring) (start ∷ ids) ≡ true)
    × ((v : String) → contains (start ∷ ids) v ≡ true → Reach by_id (start ∷ ids) start v)

module _ (by_id : Dict String FabricEndpoint) where
  decides : List String → Bool
  decides selected =
      if length selected == 0
      then false
      else elim (same_ring by_id selected (record { start = ""; fabric_id = ""; ring_id = "" })) [
        | none ↦ false
        | some o ↦
            length
              (walk by_id selected (length selected)
                (record { seen = o.start ∷ []; queue = o.start ∷ [] })).seen
            == length selected
      ]

  decides_iff :
      (selected : List String)
      → Distinct selected
      → contains selected "" ≡ false
      → (decides selected ≡ true) ↔ IsConnected by_id selected
  unfolding decides same_ring
  decides_iff [] d h = ground arith
  decides_iff (start ∷ ids) d h =
      let named : start ≢ "" = λ e. ground arith in
      elim (Option-cases (lookup start by_id)) [
        | inl e ↦ (λ t. absurd (ground arith), λ (f, r, onto, reached). ground arith)
        | inr (item, e) ↦
            let o : Origin = record {
              start = start;
              fabric_id = item.fabric_id;
              ring_id = item.ring_id;
            } in
            let rest = same_ring_lem by_id ids o named in
            let counts = walk_counts by_id (start ∷ ids) start d (ground arith) in
            (
              λ t. (
                item.fabric_id,
                item.ring_id,
                ground (arith, rest),
                counts.0 (ground (arith, rest)),
              ),
              λ (f, r, onto, reached). (let full = counts.1 reached in ground (arith, rest, full)),
            )
      ]

-- Where no selected id is the empty text, `connected` answers true exactly if something is selected,
-- every selected id belongs to a known endpoint, all of these lie on one fabric and one ring, and up
-- links between selected endpoints lead from the first of them to each.
pub connected_iff :
    (assignments : List RankAssignment) (endpoints : List FabricEndpoint)
    → contains (selected_ids assignments []) "" ≡ false
    → (connected assignments endpoints ≡ true)
      ↔ IsConnected (index_by_id endpoints []) (selected_ids assignments [])
unfolding connected decides
connected_iff assignments endpoints h =
    decides_iff (index_by_id endpoints []) (selected_ids assignments [])
      (selected_ids-Distinct assignments [] tt) h
