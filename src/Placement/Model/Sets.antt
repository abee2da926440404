-- ===== src/Placement/Model/Sets.antt =====
-- Reservations as sets of devices.
use tenstorrent_dra_framewor.Base.{
  ◌≡◌, refl, sym, subst, ◌≢◌, Bool, true, false, not, ◌&&◌, ◌||◌, List, [], ◌∷◌, ◌++◌, ◌==◌,
  contains, any, arith, keep, Bool-cases, inl, inr, All, All-append, String, string_eq,
}
use mathlib.Core.List.{Sublist, append_assoc, sublist-append_left}
use mathlib.Core.List.Sublist
use tenstorrent_dra_framewor.Base.Dict.{Dict, insert, lookup-insert}
use tenstorrent_dra_framewor.Api.{
  AssignedDevice, FabricEndpoint, RankAssignment, WorkloadRank, WorkloadTopology,
}
use tenstorrent_dra_framewor.Placement.Model.{
  DeviceId, device_id_eq, Reservations, id_of, reserve, release, reserve_devices, add_assignment,
  release_devices, is_candidate, choices_at, group_candidates, endpoint_device,
}

-- The device is one of the assigned ones.
abbrev pub holds : List AssignedDevice → DeviceId → Bool
holds items id = any (λ item. id == id_of item) items

abbrev pub SameSet : Reservations → Reservations → Type 0
SameSet r s = (id : DeviceId) → contains r id ≡ contains s id

pub contains-reserve :
    (x id : DeviceId) (r : Reservations) → contains (reserve x r) id ≡ (id == x || contains r id)
unfolding reserve
contains-reserve x id r = ground arith

contains-release :
    (x id : DeviceId) (r : Reservations)
    → contains (release x r) id ≡ (not (id == x) && contains r id)
unfolding release keep
contains-release x id [] = ground arith
contains-release x id (y ∷ r) = ground (arith, contains-release x id r)

contains-reserve_devices :
    (items : List AssignedDevice) (r : Reservations) (id : DeviceId)
    → contains (reserve_devices items r) id ≡ (contains r id || holds items id)
unfolding reserve_devices
contains-reserve_devices [] r id = ground arith
contains-reserve_devices (item ∷ items) r id = ground (
  arith,
  contains-reserve_devices items (reserve (id_of item) r) id,
  contains-reserve (id_of item) id r,
)

pub contains-add_assignment :
    (a : RankAssignment) (r : Reservations) (id : DeviceId)
    → contains (add_assignment a r) id ≡ (contains r id || holds a.devices id)
unfolding add_assignment
contains-add_assignment a r id = contains-reserve_devices a.devices r id

pub contains-release_devices :
    (items : List AssignedDevice) (r : Reservations) (id : DeviceId)
    → contains (release_devices items r) id ≡ (contains r id && not (holds items id))
unfolding release_devices
contains-release_devices [] r id = ground arith
contains-release_devices (item ∷ items) r id = ground (
  arith,
  contains-release_devices items (release (id_of item) r) id,
  contains-release (id_of item) id r,
)

pub is_candidate-SameSet :
    (topology : WorkloadTopology) (rank : WorkloadRank) (reserved r s : Reservations)
    (item : FabricEndpoint)
    → SameSet r s
    → is_candidate topology rank reserved r item ≡ is_candidate topology rank reserved s item
unfolding is_candidate
is_candidate-SameSet topology rank reserved r s item h = rw (h (endpoint_device item))

-- A candidate is a device that no earlier rank took.
pub is_candidate-fresh :
    (topology : WorkloadTopology) (rank : WorkloadRank) (reserved selected : Reservations)
    (item : FabricEndpoint)
    → is_candidate topology rank reserved selected item ≡ true
    → (contains reserved (endpoint_device item) ≡ false)
      × (contains selected (endpoint_device item) ≡ false)
unfolding is_candidate
is_candidate-fresh topology rank reserved selected item h = ground arith

choices_at-insert_self :
    (node k : String) (items : List FabricEndpoint) (d : Dict String (List FabricEndpoint))
    → node ≡ k
    → choices_at node (insert k items d) ≡ items
choices_at-insert_self node k items d e = ground (arith, lookup-insert node k items d)

choices_at-insert_ne :
    (node k : String) (items : List FabricEndpoint) (d : Dict String (List FabricEndpoint))
    → node ≢ k
    → choices_at node (insert k items d) ≡ choices_at node d
choices_at-insert_ne node k items d n = ground (arith, lookup-insert node k items d)

longer-Sublist :
    (xs items total : List FabricEndpoint) (item : FabricEndpoint)
    → Sublist (xs ++ (item ∷ items)) total
    → Sublist (xs ++ items) total
longer-Sublist xs items total item h =
    Sublist.trans (Sublist.append (Sublist.refl xs) (Sublist.cons item (Sublist.refl items))) h

-- Each group, with the endpoints that are still to come, keeps the order of all endpoints.
insert-Sublist :
    (item : FabricEndpoint) (items total : List FabricEndpoint)
    (by_node : Dict String (List FabricEndpoint))
    → ((node : String) → Sublist (choices_at node by_node ++ (item ∷ items)) total)
    → (node : String)
    → Sublist
        (choices_at node
            (insert item.node_name (choices_at item.node_name by_node ++ (item ∷ [])) by_node)
          ++ items)
        total
insert-Sublist item items total by_node h node =
    let here = item.node_name in
    let before = choices_at here by_node in
    elim (string_eq.dec node here) [
      | yes e ↦
          subst (λ xs. Sublist (xs ++ items) total)
            (sym (choices_at-insert_self node here (before ++ (item ∷ [])) by_node e))
            (subst (λ xs. Sublist xs total) (sym (append_assoc before (item ∷ []) items)) (h here))
      | no n ↦
          subst (λ xs. Sublist (xs ++ items) total)
            (sym (choices_at-insert_ne node here (before ++ (item ∷ [])) by_node n))
            (longer-Sublist (choices_at node by_node) items total item (h node))
    ]

pub group_candidates-Sublist :
    (test : FabricEndpoint → Bool) (items : List FabricEndpoint)
    (by_node : Dict String (List FabricEndpoint)) (total : List FabricEndpoint)
    → ((node : String) → Sublist (choices_at node by_node ++ items) total)
    → (node : String) → Sublist (choices_at node (group_candidates test items by_node)) total
unfolding group_candidates
group_candidates-Sublist test [] by_node total h node =
    Sublist.trans (sublist-append_left (choices_at node by_node) []) (h node)
group_candidates-Sublist test (item ∷ items) by_node total h node = elim (Bool-cases (test item)) [
  | inl e ↦
      rw e (
        group_candidates-Sublist test items _ total (insert-Sublist item items total by_node h)
          node)
  | inr e ↦ rw e (
      group_candidates-Sublist test items by_node total
        (λ n. longer-Sublist (choices_at n by_node) items total item (h n)) node)
]

-- Each group holds endpoints of its node that pass the test.
module _ (Good : FabricEndpoint → Type 0) (test : FabricEndpoint → Bool) where
  abbrev pub Fits : String → FabricEndpoint → Type 0
  Fits node e = Good e × (e.node_name ≡ node) × (test e ≡ true)

  abbrev Grouped : Dict String (List FabricEndpoint) → Type 0
  Grouped by_node = (node : String) → All (Fits node) (choices_at node by_node)

  insert-Grouped :
      (item : FabricEndpoint) (by_node : Dict String (List FabricEndpoint))
      → Good item
      → test item ≡ true
      → Grouped by_node
      → Grouped (insert item.node_name (choices_at item.node_name by_node ++ (item ∷ [])) by_node)
  insert-Grouped item by_node good passes h node =
      let here = item.node_name in
      let longer = choices_at here by_node ++ (item ∷ []) in
      let grown : All (Fits here) longer =
        All-append (Fits here) (choices_at here by_node) (item ∷ []) (h here)
          ((good, refl, passes), tt) in
      elim (string_eq.dec node here) [
        | yes e ↦
            subst (All (Fits node)) (sym (choices_at-insert_self node here longer by_node e))
              (subst (λ n. All (Fits n) longer) (sym e) grown)
        | no n ↦
            subst (All (Fits node)) (sym (choices_at-insert_ne node here longer by_node n)) (h node)
      ]

  pub group_candidates-All :
      (items : List FabricEndpoint) (by_node : Dict String (List FabricEndpoint))
      → All Good items
      → ((node : String) → All (Fits node) (choices_at node by_node))
      → (node : String) → All (Fits node) (choices_at node (group_candidates test items by_node))
  unfolding group_candidates
  group_candidates-All [] by_node g h node = h node
  group_candidates-All (item ∷ items) by_node g h node = elim (Bool-cases (test item)) [
    | inl e ↦ rw e (group_candidates-All items _ g.1 (insert-Grouped item by_node g.0 e h) node)
    | inr e ↦ rw e (group_candidates-All items by_node g.1 h node)
  ]
