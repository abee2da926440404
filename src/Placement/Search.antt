-- ===== src/Placement/Search.antt =====
-- internal/placement/placement.go: `SolveContext`. The context is a function: whether it is done at
-- its n-th poll.
pub mod Placed
pub mod Rules
pub mod Taken
pub mod Sound
use tenstorrent_dra_framewor.Base.{
  ℕ, zero, suc, ◌+◌, String, ◌<>◌, Bool, true, false, not, ◌&&◌, ◌||◌, List, [], ◌∷◌, ◌++◌, Option,
  none, some, ◌==◌, contains, string_eq, nat_eq, if◌then◌else◌, length, set, replicate, map, ltb,
  text_lt,
}
use tenstorrent_dra_framewor.Base.Int.{ℤ, pos, negsuc, pos_part, ltb_ℤ, leb_ℤ, add_int64}
use tenstorrent_dra_framewor.Base.Dict.{Dict}
use tenstorrent_dra_framewor.Base.Sort.{sort}
use tenstorrent_dra_framewor.Api.{
  FabricEndpoint, WorkloadRank, AssignedDevice, RankAssignment, Workload,
}
use tenstorrent_dra_framewor.Placement.Model.{
  Reservations, add_assignment, release_devices, candidates_by_node, choices_at, sorted_node_names,
}
use tenstorrent_dra_framewor.Placement.Connected.{connected}

pub record Limits : Type 0 where
  pub max_ranks : ℕ
  pub max_endpoints : ℕ
  pub max_devices : ℤ

abbrev pub default_limits : Limits
default_limits = record { max_ranks = 64; max_endpoints = 2048; max_devices = pos 128 }

-- The variables that the closures of `SolveContext` share.
pub record Search : Type 0 where
  pub polls : ℕ
  pub selected : Reservations
  pub assignments : List RankAssignment

abbrev pub Choice : Type 0
Choice = Search → Bool × Search

-- `sum(rank.Count)` in int64
unfoldable pub total_count : ℤ → List WorkloadRank → ℤ
unfolding add_int64
total_count total [] = total
total_count total (rank ∷ ranks) = total_count (add_int64 total rank.count) ranks

-- The order of the candidates.
unfoldable pub candidate_before : FabricEndpoint → FabricEndpoint → Bool
candidate_before a b =
    if a.node_name == b.node_name
    then text_lt a.device_name b.device_name
    else text_lt a.node_name b.node_name

abbrev pub count_of : WorkloadRank → ℕ
count_of rank = if leb_ℤ rank.count (pos 0) then 1 else pos_part rank.count

abbrev pub assigned_device : FabricEndpoint → AssignedDevice
assigned_device item = record {
  pool = item.pool;
  name = item.device_name;
  stable_id = item.stable_id;
  endpoint_id = item.endpoint_id;
}

module _ (ctx : ℕ → Bool) where
  -- The entry of `choose`: poll, then visit a full choice or go on to the loop.
  unfoldable pub enter : (List FabricEndpoint → Choice) → ℕ → List FabricEndpoint → Choice → Choice
  enter visit remaining picked loop s =
      let s' = record s { polls = suc s.polls } in
      if ctx s.polls then (false, s') else if remaining == 0 then visit picked s' else loop s'

  -- The loop of `choose` from an item on; `remaining` is positive there.
  unfoldable pub choose_from :
      (List FabricEndpoint → Choice) → ℕ → List FabricEndpoint → List FabricEndpoint → Choice
  unfolding enter
  choose_from visit zero items picked s = (false, s)
  choose_from visit (suc n) [] picked s = (false, s)
  choose_from visit (suc n) (item ∷ items) picked s =
      let with_item = picked ++ (item ∷ []) in
      let inner = enter visit n with_item (choose_from visit n items with_item) s in
      let skip = choose_from visit (suc n) items picked inner.1 in
      if ltb (length items) n then (false, s) else if inner.0 then inner else skip

  unfoldable pub choose_combinations :
      List FabricEndpoint → ℕ → (List FabricEndpoint → Choice) → Choice
  unfolding choose_from
  choose_combinations items count visit = enter visit count [] (choose_from visit count items [])

  -- The loop over the node names.
  unfoldable pub try_nodes :
      Dict String (List FabricEndpoint)
      → ℕ
      → (String → List FabricEndpoint → Choice)
      → List String
      → Choice
  unfolding choose_combinations
  try_nodes by_node count visit [] s = (false, s)
  try_nodes by_node count visit (node ∷ nodes) s =
      let choices = choices_at node by_node in
      let tried : Bool × Search =
        if ltb (length choices) count
        then (false, s)
        else choose_combinations choices count (visit node) s in
      let rest = try_nodes by_node count visit nodes tried.1 in if tried.0 then tried else rest

module _ (child_name : String → String → String → String) where
  unfoldable pub make_assignment : Workload → String → String → List FabricEndpoint → RankAssignment
  make_assignment workload rank_name node_name devices =
      let name = child_name workload.name workload.uid rank_name in
      record {
        rank = rank_name;
        node_name = node_name;
        claim_name = name;
        pod_name = name;
        devices = map assigned_device devices;
      }

module _ (ctx : ℕ → Bool) (child_name : String → String → String → String) (workload : Workload)
    (candidates : List FabricEndpoint) (reserved : Reservations) where
  -- The callback of `chooseRank`: take the choice, go on, and give it back on failure.
  unfoldable pub take_choice : WorkloadRank → ℕ → Choice → String → List FabricEndpoint → Choice
  unfolding make_assignment add_assignment release_devices
  take_choice rank index go_on node picked s =
      let assignment = make_assignment child_name workload rank.name node picked in
      let tried = go_on (record s {
        assignments = set s.assignments index assignment;
        selected = add_assignment assignment s.selected;
      }) in
      if tried.0 then tried else (
        false,
        record tried.1 { selected = release_devices assignment.devices (tried.1).selected },
      )

  unfoldable pub choose_rank : List WorkloadRank → ℕ → Choice
  unfolding try_nodes take_choice candidates_by_node sorted_node_names connected
  choose_rank [] index s =
      if ctx s.polls
      then (false, record s { polls = suc s.polls })
      else (connected s.assignments candidates, record s { polls = suc s.polls })
  choose_rank (rank ∷ ranks) index s =
      let by_node = candidates_by_node workload.spec.topology rank candidates reserved s.selected in
      let visit = take_choice rank index (choose_rank ranks (suc index)) in
      if ctx s.polls
      then (false, record s { polls = suc s.polls })
      else try_nodes ctx by_node (count_of rank) visit (sorted_node_names by_node)
          (record s { polls = suc s.polls })

pub record Solution : Type 0 where
  pub assignments : List RankAssignment
  pub ok : Bool
  pub error : Option String

-- The test against the limits.
unfoldable pub exceeds : Limits → Workload → List FabricEndpoint → Bool
unfolding total_count
exceeds limits workload endpoints =
    ltb limits.max_ranks (length workload.spec.ranks)
    || ltb limits.max_endpoints (length endpoints)
    || ltb_ℤ limits.max_devices (total_count (pos 0) workload.spec.ranks)

abbrev pub blank_assignment : RankAssignment
blank_assignment = record {
  rank = "";
  node_name = "";
  claim_name = "";
  pod_name = "";
  devices = [];
}

abbrev pub failed : String → Solution
failed message = record { assignments = []; ok = false; error = some message }

module _ (ctx : ℕ → Bool) (child_name : String → String → String → String) where
  -- The search after the limits have been checked.
  unfoldable pub search_from : Workload → List FabricEndpoint → Reservations → Solution
  unfolding choose_rank sort candidate_before
  search_from workload endpoints reserved =
      let candidates = sort candidate_before endpoints in
      let ranks = workload.spec.ranks in
      let found = choose_rank ctx child_name workload candidates reserved ranks 0 (record {
        polls = 0;
        selected = [];
        assignments = replicate (length ranks) blank_assignment;
      }) in
      record {
        assignments = (found.1).assignments;
        ok = found.0;
        error = if ctx (found.1).polls then some "context is done" else none;
      }

  unfoldable pub solve_context :
      Option Workload → List FabricEndpoint → Reservations → Limits → Solution
  unfolding search_from exceeds
  solve_context none endpoints reserved limits = failed "workload is nil"
  solve_context (some workload) endpoints reserved limits =
      if exceeds limits workload endpoints
      then failed "placement request exceeds configured limits"
      else search_from workload endpoints reserved

-- `Solve`: a context that is never done, and the default limits.
unfoldable pub solve :
    (String → String → String → String)
    → Workload
    → List FabricEndpoint
    → Reservations
    → List RankAssignment × Bool
unfolding solve_context
solve child_name workload endpoints reserved =
    let found =
      solve_context (λ _. false) child_name (some workload) endpoints reserved default_limits in
    (found.assignments, found.ok)
