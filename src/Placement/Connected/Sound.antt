-- ===== src/Placement/Connected/Sound.antt =====
-- The walk sees what can be reached, within the fuel that `connected` gives.
use tenstorrent_dra_framewor.Base.{
  ℕ, zero, suc, ◌+◌, ◌≤◌, ◌≡◌, ap, ◌⊎◌, inl, inr, ◌↔◌, String, true, List, [], ◌∷◌, contains,
  length, any, arith, List-cases, Bool-cases, string_eq,
}
use tenstorrent_dra_framewor.Base.Dict.{Dict}
use tenstorrent_dra_framewor.Base.Distinct.{Distinct, IsSubset, length-le_of_subset, pigeonhole}
use tenstorrent_dra_framewor.Api.{FabricEndpoint}
use tenstorrent_dra_framewor.Placement.Connected.{Walk, links_of, follow, walk}
use tenstorrent_dra_framewor.Placement.Connected.Follow.{
  leads_to, contains-follow_seen, contains-follow_queue, follow-Distinct, length-follow,
}

module _ (by_id : Dict String FabricEndpoint) (selected : List String) where
  -- An up link between selected endpoints.
  abbrev pub Edge : String → String → Type 0
  Edge u v = (contains selected v ≡ true) × (any (leads_to v) (links_of by_id selected u) ≡ true)

  pub data Reach (start : String) : String → Type 0 where
    here : Reach start start
    step : {u v : String} → Reach start u → Edge u v → Reach start v

  module _ (start : String) where
    record Inv (w : Walk) : Type 0 where
      distinct : Distinct w.seen
      inside : IsSubset w.seen selected
      queued : IsSubset w.queue w.seen
      source : contains w.seen start ≡ true
      sound : (v : String) → contains w.seen v ≡ true → Reach start v
      closed :
          (u v : String)
          → contains w.seen u ≡ true
          → Edge u v
          → (contains w.queue u ≡ true) ⊎ (contains w.seen v ≡ true)

    expand : Walk → String → List String → Walk
    expand w id rest = follow selected (links_of by_id selected id) (record w { queue = rest })

    Inv-expand :
        (w : Walk) (id : String) (rest : List String)
        → w.queue ≡ id ∷ rest
        → Inv w
        → Inv (expand w id rest)
    unfolding expand
    Inv-expand w id rest e h =
        let w' = record w { queue = rest } in
        let links = links_of by_id selected id in
        let seen = λ (v : String). contains-follow_seen selected links w' v in
        let queue = λ (v : String). contains-follow_queue selected links w' v in
        let popped : contains w.seen id ≡ true = h.queued id (ground arith) in
        record {
          distinct = follow-Distinct selected links w' h.distinct;
          inside = λ v m. ground (arith, seen v, h.inside v);
          queued = λ v m. ground (arith, seen v, queue v, h.queued v);
          source = ground (arith, seen start, h.source);
          sound = λ v m. elim (Bool-cases (contains w.seen v)) [
            | inl old ↦ h.sound v old
            | inr new ↦ step (h.sound id popped) (ground (arith, seen v), ground (arith, seen v))
          ];
          closed = λ u v m edge. ground (arith, seen u, seen v, queue u, h.closed u v);
        }

    walk-nil : (fuel : ℕ) (w : Walk) → w.queue ≡ [] → walk by_id selected (suc fuel) w ≡ w
    unfolding walk
    walk-nil fuel w e = ground arith

    loop_ends :
        (fuel : ℕ) (w : Walk)
        → Inv w
        → length selected + length w.queue ≤ fuel + length w.seen
        → Inv (walk by_id selected fuel w) × ((walk by_id selected fuel w).queue ≡ [])
    unfolding walk expand
    loop_ends zero w h bound = elim (List-cases w.queue) [
      | inl e ↦ (h, e)
      | inr (id, rest, e) ↦
          absurd
            (omega (arith, ap length e, length-le_of_subset w.seen selected h.distinct h.inside))
    ]
    loop_ends (suc fuel) w h bound = elim (List-cases w.queue) [
      | inl e ↦ rw (walk-nil fuel w e) (h, e)
      | inr (id, rest, e) ↦
          rw (e, walk)
            (loop_ends fuel (expand w id rest) (Inv-expand w id rest e h) (
              omega (
                arith,
                ap length e,
                length-follow selected (links_of by_id selected id) (record w { queue = rest }),
              )))
    ]

    abbrev from_start : Walk
    from_start = record { seen = start ∷ []; queue = start ∷ [] }

    Inv-start : contains selected start ≡ true → Inv from_start
    Inv-start h = record {
      distinct = ground arith;
      inside = λ v m. ground arith;
      queued = λ v m. m;
      source = ground arith;
      sound = λ v m. (let e : v ≡ start = ground arith in rw e here);
      closed = λ u v m edge. inl m;
    }

    ends : Walk
    ends = walk by_id selected (length selected) from_start

    ends-Inv : contains selected start ≡ true → Inv ends × (ends.queue ≡ [])
    unfolding ends
    ends-Inv h = loop_ends (length selected) from_start (Inv-start h) (omega arith)

    complete :
        Inv ends → ends.queue ≡ [] → {v : String} → Reach start v → contains ends.seen v ≡ true
    complete h e here = h.source
    complete h e (step {u} {v} p edge) = elim (h.closed u v (complete h e p) edge) [
      | inl waiting ↦ ground arith
      | inr m ↦ m
    ]

    -- The walk has seen as many ids as are selected exactly if it can reach each of them.
    pub walk_counts :
        Distinct selected
        → contains selected start ≡ true
        → (length (walk by_id selected (length selected) from_start).seen ≡ length selected)
          ↔ ((v : String) → contains selected v ≡ true → Reach start v)
    unfolding ends
    walk_counts d h =
        let (inv, empty) = ends-Inv h in
        (
          λ e v m.
              inv.sound v (pigeonhole ends.seen selected inv.distinct inv.inside (omega arith) v m),
          λ all.
              let below =
                length-le_of_subset selected ends.seen d (λ v m. complete inv empty (all v m)) in
              let above = length-le_of_subset ends.seen selected inv.distinct inv.inside in
              omega arith,
        )
