-- ===== src/Placement/Search/Rules.antt =====
-- A rule for each loop of the search: a failing visit keeps the invariant, a successful one leaves the
-- goal.
use tenstorrent_dra_framewor.Base.{
  ℕ, zero, suc, ◌+◌, ◌≡◌, refl, sym, subst, String, Bool, true, false, List, [], ◌∷◌, ◌++◌, ◌==◌,
  length, length-append, ltb, arith, if◌then◌else◌, All, All-append, nat_eq,
}
use mathlib.Core.List.{Sublist, append_assoc, sublist-append_left}
use mathlib.Core.List.Sublist
use tenstorrent_dra_framewor.Base.Dict.{Dict}
use tenstorrent_dra_framewor.Api.{FabricEndpoint}
use tenstorrent_dra_framewor.Placement.Model.{choices_at}
use tenstorrent_dra_framewor.Placement.Search.{
  Search, Choice, enter, choose_from, choose_combinations, try_nodes,
}

-- The first part of a sublist is one.
pub first_part : (xs ys total : List FabricEndpoint) → Sublist (xs ++ ys) total → Sublist xs total
first_part xs ys total h = Sublist.trans (sublist-append_left xs ys) h

-- What a choice leaves behind: the goal on success, the invariant on failure.
abbrev pub Ends : (Search → Type 0) → (Search → Type 0) → Bool × Search → Type 0
Ends Inv Goal r = (r.0 ≡ true → Goal r.1) × (r.0 ≡ false → Inv r.1)

module _ (Inv Goal : Search → Type 0) where
  Ends-if :
      (b : Bool) (x y : Bool × Search)
      → (b ≡ true → Ends Inv Goal x)
      → (b ≡ false → Ends Inv Goal y)
      → Ends Inv Goal (if b then x else y)
  Ends-if true x y hx hy = hx refl
  Ends-if false x y hx hy = hy refl

  -- A failed choice is followed by another one, from the state that it leaves.
  Ends-or :
      (r : Bool × Search) (next : Choice)
      → Ends Inv Goal r
      → ((s : Search) → Inv s → Ends Inv Goal (next s))
      → Ends Inv Goal (if r.0 then r else next r.1)
  Ends-or (true, s) next h k = h
  Ends-or (false, s) next h k = k s (h.1 refl)

  pub Ends-failed : (s : Search) → Inv s → Ends Inv Goal (false, s)
  Ends-failed s h = ((λ t. cc), (λ _. h))

module _ (ctx : ℕ → Bool) (Inv Goal : Search → Type 0)
    (polled : (s : Search) → Inv s → Inv (record s { polls = suc s.polls }))
    (total : List FabricEndpoint) where
  pub poll-Ends :
      (s : Search) (r : Bool × Search)
      → Inv s
      → (Inv (record s { polls = suc s.polls }) → Ends Inv Goal r)
      → Ends Inv Goal (if ctx s.polls then (false, record s { polls = suc s.polls }) else r)
  poll-Ends s r h k =
      Ends-if Inv Goal (ctx s.polls) (false, record s { polls = suc s.polls }) r
        (λ _. Ends-failed Inv Goal _ (polled s h)) (λ _. k (polled s h))

  enter-Ends :
      (visit : List FabricEndpoint → Choice) (n : ℕ) (picked : List FabricEndpoint) (loop : Choice)
      (s : Search)
      → (n ≡ 0 → (s : Search) → Inv s → Ends Inv Goal (visit picked s))
      → ((s : Search) → Inv s → Ends Inv Goal (loop s))
      → Inv s
      → Ends Inv Goal (enter ctx visit n picked loop s)
  unfolding enter
  enter-Ends visit n picked loop s full more h =
      let s' = record s { polls = suc s.polls } in
      poll-Ends s (if n == 0 then visit picked s' else loop s') h λ h'.
        Ends-if Inv Goal (n == 0) (visit picked s') (loop s') (λ z. full (ground arith) s' h')
          (λ _. more s' h')

  module _ (Good : FabricEndpoint → Type 0) (count : ℕ) (visit : List FabricEndpoint → Choice)
      (visits : (picked : List FabricEndpoint) (s : Search)
        → All Good picked
        → Sublist picked total
        → length picked ≡ count
        → Inv s
        → Ends Inv Goal (visit picked s)) where
    choose_from-Ends :
        (n : ℕ) (items picked : List FabricEndpoint) (s : Search)
        → All Good items
        → All Good picked
        → Sublist (picked ++ items) total
        → length picked + n ≡ count
        → Inv s
        → Ends Inv Goal (choose_from ctx visit n items picked s)
    unfolding choose_from
    choose_from-Ends zero [] picked s gi gp sub e h = Ends-failed Inv Goal s h
    choose_from-Ends zero (_ ∷ _) picked s gi gp sub e h = Ends-failed Inv Goal s h
    choose_from-Ends (suc n) [] picked s gi gp sub e h = Ends-failed Inv Goal s h
    choose_from-Ends (suc n) (item ∷ items) picked s gi gp sub e h =
        let longer = picked ++ (item ∷ []) in
        let good : All Good longer = All-append Good picked (item ∷ []) gp (gi.0, tt) in
        let size : length longer + n ≡ count = omega (arith, length-append picked (item ∷ [])) in
        let taken : Sublist (longer ++ items) total =
          subst (λ t. Sublist t total) (sym (append_assoc picked (item ∷ []) items)) sub in
        let left : Sublist (picked ++ items) total =
          Sublist.trans
            (Sublist.append (Sublist.refl picked) (Sublist.cons item (Sublist.refl items))) sub in
        let inner = enter ctx visit n longer (choose_from ctx visit n items longer) s in
        Ends-if Inv Goal (ltb (length items) n) (false, s)
          (if inner.0 then inner else choose_from ctx visit (suc n) items picked inner.1)
          (λ _. Ends-failed Inv Goal s h)
          λ _.
            Ends-or Inv Goal inner (choose_from ctx visit (suc n) items picked)
              (enter-Ends visit n longer (choose_from ctx visit n items longer) s
                (λ z t ht.
                  visits longer t good (first_part longer items total taken) (omega arith) ht)
                (λ t ht. choose_from-Ends n items longer t gi.1 good taken size ht) h)
              (λ t ht. choose_from-Ends (suc n) items picked t gi.1 gp left e ht)

    pub choose_combinations-Ends :
        (items : List FabricEndpoint) (s : Search)
        → All Good items
        → Sublist items total
        → Inv s
        → Ends Inv Goal (choose_combinations ctx items count visit s)
    unfolding choose_combinations
    choose_combinations-Ends items s gi sub h =
        enter-Ends visit count [] (choose_from ctx visit count items []) s
          (λ z t ht. visits [] t tt (first_part [] items total sub) (omega arith) ht)
          (λ t ht. choose_from-Ends count items [] t gi tt sub (omega arith) ht) h

  pub try_nodes-Ends :
      (Good : String → FabricEndpoint → Type 0) (by_node : Dict String (List FabricEndpoint))
      (count : ℕ) (visit : String → List FabricEndpoint → Choice)
      → ((node : String) → All (Good node) (choices_at node by_node))
      → ((node : String) → Sublist (choices_at node by_node) total)
      → ((node : String) (picked : List FabricEndpoint) (s : Search)
          → All (Good node) picked
          → Sublist picked total
          → length picked ≡ count
          → Inv s
          → Ends Inv Goal (visit node picked s))
      → (nodes : List String) (s : Search) → Inv s
      → Ends Inv Goal (try_nodes ctx by_node count visit nodes s)
  unfolding try_nodes
  try_nodes-Ends Good by_node count visit good subs visits [] s h = Ends-failed Inv Goal s h
  try_nodes-Ends Good by_node count visit good subs visits (node ∷ nodes) s h =
      let choices = choices_at node by_node in
      let found = choose_combinations ctx choices count (visit node) s in
      Ends-or Inv Goal (if ltb (length choices) count then (false, s) else found)
        (try_nodes ctx by_node count visit nodes)
        (Ends-if Inv Goal (ltb (length choices) count) (false, s) found
          (λ _. Ends-failed Inv Goal s h)
          (λ _.
            choose_combinations-Ends (Good node) count (visit node) (visits node) choices s
              (good node) (subs node) h))
        (try_nodes-Ends Good by_node count visit good subs visits nodes)
