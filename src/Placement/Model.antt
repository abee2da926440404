-- ===== src/Placement/Model.antt =====
-- internal/placement/placement.go: reservations, and the filters on endpoints.
pub mod Sets
use tenstorrent_dra_framewor.Base.{
  String, Bool, false, true, not, ◌&&◌, ◌||◌, List, [], ◌∷◌, ◌++◌, Eq, ◌==◌, contains, string_eq,
  if◌then◌else◌, keep, none, some, text_lt,
}
use tenstorrent_dra_framewor.Base.Dict.{Dict, lookup, insert, keys}
use tenstorrent_dra_framewor.Base.Sort.{sort}
use tenstorrent_dra_framewor.Api.{
  FabricEndpoint, WorkloadRank, WorkloadTopology, AssignedDevice, RankAssignment,
}
use tenstorrent_dra_framewor.Dra.{matches_device_class}

pub record DeviceId : Type 0 where
  pub pool : String
  pub name : String

DeviceId-discrete : Discrete DeviceId
DeviceId-discrete = hlevel (string_eq.dec)

instance unfoldable pub device_id_eq : Eq DeviceId
unfolding DeviceId-discrete
device_id_eq = record { dec = DeviceId-discrete }

-- The keys of the map, each once.
abbrev pub Reservations : Type 0
Reservations = List DeviceId

abbrev pub id_of : AssignedDevice → DeviceId
id_of item = record { pool = item.pool; name = item.name }

-- `Reservations.Add`
unfoldable pub reserve : DeviceId → Reservations → Reservations
reserve id used = if contains used id then used else id ∷ used

-- `delete(selected, id)`
unfoldable pub release : DeviceId → Reservations → Reservations
release id = keep (λ other. not (other == id))

reserve_devices : List AssignedDevice → Reservations → Reservations
reserve_devices [] used = used
reserve_devices (item ∷ items) used = reserve_devices items (reserve (id_of item) used)

-- `Reservations.AddAssignment`
unfoldable pub add_assignment : RankAssignment → Reservations → Reservations
unfolding reserve_devices reserve
add_assignment assignment = reserve_devices assignment.devices

-- `Reservations.AddAssignments`
unfoldable pub add_assignments : List RankAssignment → Reservations → Reservations
unfolding add_assignment
add_assignments [] used = used
add_assignments (a ∷ as') used = add_assignments as' (add_assignment a used)

-- The loop that takes the devices of a failed choice out of `selected`.
unfoldable pub release_devices : List AssignedDevice → Reservations → Reservations
unfolding release keep
release_devices [] used = used
release_devices (item ∷ items) used = release_devices items (release (id_of item) used)

unfoldable pub matches : WorkloadRank → FabricEndpoint → Bool
unfolding matches_device_class
matches rank item =
    if not (rank.chip_series == "") && not (item.chip_series == rank.chip_series)
    then false
    else matches_device_class rank.device_class_name item.chip_series

unfoldable pub matches_topology : WorkloadTopology → FabricEndpoint → Bool
matches_topology topology item =
    if not (topology.fabric_id == "") && not (item.fabric_id == topology.fabric_id)
    then false
    else topology.ring_id == "" || item.ring_id == topology.ring_id

-- The device of an endpoint.
abbrev pub endpoint_device : FabricEndpoint → DeviceId
endpoint_device item = record { pool = item.pool; name = item.device_name }

-- The tests of `candidatesByNode` on one endpoint.
unfoldable pub is_candidate :
    WorkloadTopology → WorkloadRank → Reservations → Reservations → FabricEndpoint → Bool
unfolding matches matches_topology
is_candidate topology rank reserved selected item =
    if contains reserved (endpoint_device item)
    then false
    else if contains selected (endpoint_device item)
    then false
    else matches rank item && matches_topology topology item

abbrev pub choices_at : String → Dict String (List FabricEndpoint) → List FabricEndpoint
choices_at node by_node = elim (lookup node by_node) [ none ↦ [] | some items ↦ items ]

-- The loop of `candidatesByNode`, from the groups made so far.
unfoldable pub group_candidates :
    (FabricEndpoint → Bool)
    → List FabricEndpoint
    → Dict String (List FabricEndpoint)
    → Dict String (List FabricEndpoint)
unfolding lookup insert
group_candidates test [] by_node = by_node
group_candidates test (item ∷ items) by_node = group_candidates test items (
    if test item
    then insert item.node_name (choices_at item.node_name by_node ++ item ∷ []) by_node
    else by_node)

unfoldable pub candidates_by_node :
    WorkloadTopology
    → WorkloadRank
    → List FabricEndpoint
    → Reservations
    → Reservations
    → Dict String (List FabricEndpoint)
unfolding group_candidates is_candidate
candidates_by_node topology rank endpoints reserved selected =
    group_candidates (is_candidate topology rank reserved selected) endpoints []

unfoldable pub sorted_node_names : Dict String (List FabricEndpoint) → List String
unfolding sort
sorted_node_names by_node = sort text_lt (keys by_node)
