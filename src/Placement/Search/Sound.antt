-- ===== src/Placement/Search/Sound.antt =====
-- The search returns placements only.
use mathlib.Core.List.{Mem, Sublist}
use mathlib.Core.List.Sublist
use tenstorrent_dra_framewor.Base.{
  ℕ, zero, suc, ◌≡◌, refl, sym, ap, ◌∙◌, inl, inr, String, Bool, true, false, List, [], ◌∷◌, ◌++◌,
  length, length-append, arith, All, List-cases, subst, replicate, some, if◌then◌else◌,
}
use tenstorrent_dra_framewor.Base.Sort.{sort}
use mathlib.Core.Path.{fun_ext}
use tenstorrent_dra_framewor.Api.{FabricEndpoint, RankAssignment, WorkloadRank, Workload}
use tenstorrent_dra_framewor.Placement.Model.{
  device_id_eq, Reservations, add_assignment, is_candidate, choices_at, candidates_by_node,
}
use tenstorrent_dra_framewor.Placement.Model.Sets.{
  SameSet, is_candidate-SameSet, group_candidates-All, group_candidates-Sublist, Fits,
}
use tenstorrent_dra_framewor.Placement.Connected.{connected}
use tenstorrent_dra_framewor.Placement.Search.{
  Search, Limits, Solution, failed, exceeds, blank_assignment, candidate_before, search_from,
  solve_context, count_of, take_choice, choose_rank,
}
use tenstorrent_dra_framewor.Placement.Search.Rules.{Ends, poll-Ends, try_nodes-Ends}
use tenstorrent_dra_framewor.Placement.Search.Placed.{Placed}
use tenstorrent_dra_framewor.Placement.Search.Taken.{
  All-Mem, Inv, Goal, polled, IsChoice, take_choice-Ends,
}

module _ (ctx : ℕ → Bool) (child_name : String → String → String → String) (workload : Workload)
    (candidates : List FabricEndpoint) (reserved : Reservations) where
  grouped :
      (rank : WorkloadRank) (earlier : Reservations) (s : Search)
      → SameSet s.selected earlier
      → (node : String)
      → All (IsChoice ctx child_name workload candidates reserved rank [] [] earlier node) (
          choices_at node
            (candidates_by_node workload.spec.topology rank candidates reserved s.selected))
  unfolding candidates_by_node
  grouped rank earlier s same node =
      let test = is_candidate workload.spec.topology rank reserved s.selected in
      subst
        (λ t. All (Fits (λ e. Mem e candidates) t node) (
          choices_at node
            (candidates_by_node workload.spec.topology rank candidates reserved s.selected)))
        (fun_ext
          λ e. is_candidate-SameSet workload.spec.topology rank reserved s.selected earlier e same)
        (group_candidates-All (λ e. Mem e candidates) test candidates []
          (All-Mem candidates candidates (λ e m. m)) (λ n. tt) node)

  spread :
      (rank : WorkloadRank) (s : Search) (node : String)
      → Sublist
          (choices_at node
            (candidates_by_node workload.spec.topology rank candidates reserved s.selected))
          candidates
  unfolding candidates_by_node
  spread rank s node =
      group_candidates-Sublist (is_candidate workload.spec.topology rank reserved s.selected)
        candidates [] candidates (λ n. Sublist.refl candidates) node

  no_slots :
      (pre : List RankAssignment) (earlier : Reservations) (s : Search)
      → Inv ctx child_name workload candidates reserved pre 0 earlier s
      → s.assignments ≡ pre ++ []
  no_slots pre earlier s h = elim (List-cases h.tail) [
    | inl e ↦ h.layout ∙ ap (λ t. pre ++ t) e
    | inr (x, tail, e) ↦ absurd (omega (arith, ap length e, h.slots))
  ]

  choose_rank-Ends :
      (ranks : List WorkloadRank) (pre : List RankAssignment) (earlier : Reservations) (s : Search)
      → Inv ctx child_name workload candidates reserved pre (length ranks) earlier s
      → Ends
          (Inv ctx child_name workload candidates reserved pre (length ranks) earlier)
          (Goal ctx child_name workload candidates reserved pre ranks earlier)
          (choose_rank ctx child_name workload candidates reserved ranks (length pre) s)
  unfolding choose_rank
  choose_rank-Ends [] pre earlier s h =
      poll-Ends ctx (Inv ctx child_name workload candidates reserved pre 0 earlier)
        (Goal ctx child_name workload candidates reserved pre [] earlier)
        (polled ctx child_name workload candidates reserved pre 0 earlier) candidates s _ h
        λ h'. (
          λ e. record {
            found = [];
            layout = no_slots pre earlier _ h';
            placed = tt;
            joined =
                subst (λ all_of. connected all_of candidates ≡ true) (no_slots pre earlier _ h') e;
          },
          λ _. h',
        )
  choose_rank-Ends (rank ∷ ranks) pre earlier s h =
      poll-Ends ctx
        (Inv ctx child_name workload candidates reserved pre (suc (length ranks)) earlier)
        (Goal ctx child_name workload candidates reserved pre (rank ∷ ranks) earlier)
        (polled ctx child_name workload candidates reserved pre (suc (length ranks)) earlier)
        candidates s _ h
        λ h'.
          try_nodes-Ends ctx
            (Inv ctx child_name workload candidates reserved pre (suc (length ranks)) earlier)
            (Goal ctx child_name workload candidates reserved pre (rank ∷ ranks) earlier)
            (polled ctx child_name workload candidates reserved pre (suc (length ranks)) earlier)
            candidates (IsChoice ctx child_name workload candidates reserved rank ranks pre earlier)
            _ (count_of rank)
            (take_choice ctx child_name workload candidates reserved rank (length pre)
              (choose_rank ctx child_name workload candidates reserved ranks (suc (length pre))))
            (grouped rank earlier s h.same) (spread rank s)
            (take_choice-Ends ctx child_name workload candidates reserved rank ranks pre earlier
              (choose_rank ctx child_name workload candidates reserved ranks (suc (length pre)))
              (λ a t ht.
                subst
                  (λ i.
                    Ends
                      (Inv ctx child_name workload candidates reserved (pre ++ (a ∷ []))
                        (length ranks) (add_assignment a earlier))
                      (Goal ctx child_name workload candidates reserved (pre ++ (a ∷ [])) ranks
                        (add_assignment a earlier))
                      (choose_rank ctx child_name workload candidates reserved ranks i t))
                  (omega (arith, length-append pre (a ∷ [])))
                  (choose_rank-Ends ranks (pre ++ (a ∷ [])) (add_assignment a earlier) t ht)))
            _ _ h'

length-replicate : {A : Type 0} (n : ℕ) (x : A) → length (replicate n x) ≡ n
length-replicate zero x = refl
length-replicate (suc n) x = ap suc (length-replicate n x)

-- Each rank has its devices on one node, those of endpoints that are free and fit, each endpoint taken
-- once and none whose device an earlier rank has; and the devices of all ranks are connected.
pub record IsPlacement (workload : Workload) (endpoints : List FabricEndpoint)
    (reserved : Reservations) (assignments : List RankAssignment) : Type 0 where
  pub placed :
      Placed workload.spec.topology
        (sort candidate_before endpoints)
        reserved
        workload.spec.ranks
        assignments
        []
  pub joined : connected assignments (sort candidate_before endpoints) ≡ true

module _ (ctx : ℕ → Bool) (child_name : String → String → String → String) where
  search_from-IsPlacement :
      (workload : Workload) (endpoints : List FabricEndpoint) (reserved : Reservations)
      → (search_from ctx child_name workload endpoints reserved).ok ≡ true
      → IsPlacement workload endpoints reserved
          (search_from ctx child_name workload endpoints reserved).assignments
  unfolding search_from
  search_from-IsPlacement workload endpoints reserved won =
      let candidates = sort candidate_before endpoints in
      let ranks = workload.spec.ranks in
      let blank = replicate (length ranks) blank_assignment in
      let ends =
        choose_rank-Ends ctx child_name workload candidates reserved ranks [] []
          (record { polls = 0; selected = []; assignments = blank })
          (record {
            tail = blank;
            slots = length-replicate (length ranks) blank_assignment;
            layout = refl;
            same = λ id. refl;
          }) in
      let goal = ends.0 won in
      record {
        placed =
            subst (λ found. Placed workload.spec.topology candidates reserved ranks found [])
              (sym goal.layout) goal.placed;
        joined = subst (λ found. connected found candidates ≡ true) (sym goal.layout) goal.joined;
      }

  -- Whatever the limits and however the context ends, assignments reported as found are a placement:
  -- each rank has its number of devices on one node, those of free endpoints that fit the rank and the
  -- topology, which stand in their order among the sorted endpoints, each taken once; no rank takes a
  -- device of an earlier one; and the devices are connected.
  pub solve_context-IsPlacement :
      (workload : Workload) (endpoints : List FabricEndpoint) (reserved : Reservations)
      (limits : Limits)
      → (solve_context ctx child_name (some workload) endpoints reserved limits).ok ≡ true
      → IsPlacement workload endpoints reserved
          (solve_context ctx child_name (some workload) endpoints reserved limits).assignments
  unfolding solve_context
  solve_context-IsPlacement workload endpoints reserved limits won =
      checked (exceeds limits workload endpoints) won
    where
      found : Solution
      found = search_from ctx child_name workload endpoints reserved

      checked :
          (b : Bool)
          → (if b then failed "placement request exceeds configured limits" else found).ok ≡ true
          → IsPlacement workload endpoints reserved
              (if b
                then failed "placement request exceeds configured limits"
                else found).assignments
      checked true e = cc
      checked false e = search_from-IsPlacement workload endpoints reserved e
