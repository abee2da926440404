-- ===== src/Placement/Connected.antt =====
-- internal/placement/placement.go: `connected`.
pub mod Follow
pub mod Sound
pub mod Spec
use tenstorrent_dra_framewor.Base.{
  ℕ, zero, suc, String, Bool, true, false, not, ◌&&◌, ◌||◌, List, [], ◌∷◌, ◌++◌, Option, none, some,
  ◌==◌, contains, string_eq, nat_eq, if◌then◌else◌, length,
}
use tenstorrent_dra_framewor.Base.Dict.{Dict, lookup, insert}
use tenstorrent_dra_framewor.Api.{FabricEndpoint, TopologyLink, AssignedDevice, RankAssignment}

-- A key set: a key is added once.
abbrev pub add_key : String → List String → List String
add_key k ks = if contains ks k then ks else k ∷ ks

select_devices : List AssignedDevice → List String → List String
select_devices [] ids = ids
select_devices (item ∷ items) ids = select_devices items (add_key item.endpoint_id ids)

-- The set `selected` of endpoint ids.
unfoldable pub selected_ids : List RankAssignment → List String → List String
unfolding select_devices
selected_ids [] ids = ids
selected_ids (a ∷ as') ids = selected_ids as' (select_devices a.devices ids)

-- The map `byID`: a later endpoint replaces an earlier one of its id.
unfoldable pub index_by_id :
    List FabricEndpoint → Dict String FabricEndpoint → Dict String FabricEndpoint
unfolding insert
index_by_id [] by_id = by_id
index_by_id (item ∷ items) by_id = index_by_id items (insert item.endpoint_id item by_id)

pub record Origin : Type 0 where
  pub start : String
  pub fabric_id : String
  pub ring_id : String

-- The loop over `selected`: every id is known and lies on the first one's fabric and ring.
unfoldable pub same_ring : Dict String FabricEndpoint → List String → Origin → Option Origin
unfolding lookup
same_ring by_id [] o = some o
same_ring by_id (id ∷ ids) o = elim (lookup id by_id) [
  | none ↦ none
  | some item ↦
      let o' : Origin =
        if o.start == ""
        then record { start = id; fabric_id = item.fabric_id; ring_id = item.ring_id }
        else o in
      let rest = same_ring by_id ids o' in
      if not (item.fabric_id == o'.fabric_id) || not (item.ring_id == o'.ring_id)
      then none
      else rest
]

pub record Walk : Type 0 where
  pub seen : List String
  pub queue : List String

module _ (selected : List String) where
  -- The body of the loop over `Links`.
  unfoldable pub visit_link : TopologyLink → Walk → Walk
  visit_link link w =
      if not (link.state == "up")
      then w
      else if not (contains selected link.remote_endpoint_id)
      then w
      else if contains w.seen link.remote_endpoint_id
      then w
      else record {
        seen = link.remote_endpoint_id ∷ w.seen;
        queue = w.queue ++ (link.remote_endpoint_id ∷ []);
      }

  unfoldable pub follow : List TopologyLink → Walk → Walk
  unfolding visit_link
  follow [] w = w
  follow (link ∷ links) w = follow links (visit_link link w)

module _ (by_id : Dict String FabricEndpoint) (selected : List String) where
  -- `byID[id].Links`, empty for an id that is not there.
  abbrev pub links_of : String → List TopologyLink
  links_of id = elim (lookup id by_id) [ none ↦ [] | some item ↦ item.links ]

  -- The `while` loop. Fuel: each id of `selected` is queued at most once.
  unfoldable pub walk : ℕ → Walk → Walk
  unfolding follow lookup
  walk zero w = w
  walk (suc fuel) w = elim w.queue [
    | [] ↦ w
    | id ∷ rest ↦ walk fuel (follow selected (links_of id) (record w { queue = rest }))
  ]

unfoldable pub connected : List RankAssignment → List FabricEndpoint → Bool
unfolding selected_ids index_by_id same_ring walk
connected assignments endpoints =
    let selected = selected_ids assignments [] in
    let by_id = index_by_id endpoints [] in
    if length selected == 0
    then false
    else elim (same_ring by_id selected (record { start = ""; fabric_id = ""; ring_id = "" })) [
      | none ↦ false
      | some o ↦
          let w =
            walk by_id selected (length selected)
              (record { seen = o.start ∷ []; queue = o.start ∷ [] }) in
          length w.seen == length selected
    ]
