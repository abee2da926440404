-- ===== src/Placement/Search/Placed.antt =====
-- What a placement is.
use mathlib.Core.List.{Mem, Sublist}
use tenstorrent_dra_framewor.Base.{◌≡◌, String, true, List, [], ◌∷◌, length, map, All}
use tenstorrent_dra_framewor.Api.{
  AssignedDevice, FabricEndpoint, RankAssignment, WorkloadRank, WorkloadTopology,
}
use tenstorrent_dra_framewor.Placement.Model.{Reservations, add_assignment, is_candidate}
use tenstorrent_dra_framewor.Placement.Search.{assigned_device, count_of}

module _ (topology : WorkloadTopology) (candidates : List FabricEndpoint)
    (reserved : Reservations) where
  -- The device is that of a candidate endpoint on the node, taken by no earlier rank.
  abbrev pub IsEligible : WorkloadRank → Reservations → String → AssignedDevice → Type 0
  IsEligible rank earlier node item =
      (e : FabricEndpoint) × (item ≡ assigned_device e)
      × Mem e candidates
      × (e.node_name ≡ node)
      × (is_candidate topology rank reserved earlier e ≡ true)

  -- The devices are those of endpoints that stand in this order among the candidates, each taken once.
  abbrev pub IsSpread : List AssignedDevice → Type 0
  IsSpread items =
      (picked : List FabricEndpoint) × (items ≡ map assigned_device picked)
      × Sublist picked candidates

  pub record IsAssigned (rank : WorkloadRank) (earlier : Reservations) (a : RankAssignment)
      : Type 0 where
    pub named : a.rank ≡ rank.name
    pub counted : length a.devices ≡ count_of rank
    pub spread : IsSpread a.devices
    pub eligible : All (IsEligible rank earlier a.node_name) a.devices

  -- Rank by rank; `earlier` holds the devices of the ranks before.
  abbrev pub Placed : List WorkloadRank → List RankAssignment → Reservations → Type 0
  Placed [] [] earlier = Unit {0}
  Placed [] (a ∷ as') earlier = ⊥
  Placed (r ∷ ranks) [] earlier = ⊥
  Placed (r ∷ ranks) (a ∷ as') earlier =
      IsAssigned r earlier a × Placed ranks as' (add_assignment a earlier)
