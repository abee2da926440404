-- ===== src/Placement/Search/Taken.antt =====
-- One choice of the search: a rank is assigned, and given back where the later ranks fail.
use mathlib.Core.List.{Mem, Sublist, append_assoc, mem-cons_self, mem-cons_of_mem}
use tenstorrent_dra_framewor.Base.{
  ℕ, suc, ◌≡◌, refl, sym, ap, ◌∙◌, inl, inr, String, Bool, true, false, List, [], ◌∷◌, ◌++◌, length,
  length-map, set, map, contains, arith, All, List-cases, subst, if◌then◌else◌,
}
use tenstorrent_dra_framewor.Api.{FabricEndpoint, RankAssignment, WorkloadRank, Workload}
use tenstorrent_dra_framewor.Placement.Model.{
  DeviceId, device_id_eq, Reservations, add_assignment, is_candidate, release_devices,
}
use tenstorrent_dra_framewor.Placement.Model.Sets.{
  SameSet, holds, contains-add_assignment, contains-release_devices, is_candidate-fresh, Fits,
}
use tenstorrent_dra_framewor.Placement.Connected.{connected}
use tenstorrent_dra_framewor.Placement.Search.{
  Search, Choice, assigned_device, count_of, make_assignment, take_choice,
}
use tenstorrent_dra_framewor.Placement.Search.Rules.{Ends}
use tenstorrent_dra_framewor.Placement.Search.Placed.{IsEligible, IsAssigned, Placed}

set-append :
    {A : Type 0} (pre : List A) (x y : A) (tail : List A)
    → set (pre ++ (x ∷ tail)) (length pre) y ≡ pre ++ (y ∷ tail)
set-append [] x y tail = refl
set-append (p ∷ pre) x y tail = ap (◌∷◌ p) (set-append pre x y tail)

pub All-Mem :
    (xs ys : List FabricEndpoint)
    → ((e : FabricEndpoint) → Mem e xs → Mem e ys)
    → All (λ e. Mem e ys) xs
All-Mem [] ys h = tt
All-Mem (x ∷ xs) ys h = (h x mem-cons_self, All-Mem xs ys (λ e m. h e (mem-cons_of_mem x m)))

module _ (ctx : ℕ → Bool) (child_name : String → String → String → String) (workload : Workload)
    (candidates : List FabricEndpoint) (reserved : Reservations) where
  -- Before the search for the later ranks: `pre` is assigned, and `n` slots are left.
  pub record Inv (pre : List RankAssignment) (n : ℕ) (earlier : Reservations) (s : Search)
      : Type 0 where
    pub tail : List RankAssignment
    pub slots : length tail ≡ n
    pub layout : s.assignments ≡ pre ++ tail
    pub same : SameSet s.selected earlier

  pub record Goal (pre : List RankAssignment) (ranks : List WorkloadRank) (earlier : Reservations)
      (s : Search) : Type 0 where
    pub found : List RankAssignment
    pub layout : s.assignments ≡ pre ++ found
    pub placed : Placed workload.spec.topology candidates reserved ranks found earlier
    pub joined : connected (pre ++ found) candidates ≡ true

  pub polled :
      (pre : List RankAssignment) (n : ℕ) (earlier : Reservations) (s : Search)
      → Inv pre n earlier s
      → Inv pre n earlier (record s { polls = suc s.polls })
  polled pre n earlier s h = record {
    tail = h.tail;
    slots = h.slots;
    layout = h.layout;
    same = h.same;
  }

  module _ (rank : WorkloadRank) (ranks : List WorkloadRank) (pre : List RankAssignment)
      (earlier : Reservations) where
    abbrev pub IsChoice : String → FabricEndpoint → Type 0
    IsChoice =
        Fits (λ e. Mem e candidates) (is_candidate workload.spec.topology rank reserved earlier)

    IsChoice-IsEligible :
        (node : String) (picked : List FabricEndpoint)
        → All (IsChoice node) picked
        → All
            (IsEligible workload.spec.topology candidates reserved rank earlier node)
            (map assigned_device picked)
    IsChoice-IsEligible node [] g = tt
    IsChoice-IsEligible node (e ∷ picked) g =
        ((e, refl, (g.0).0, (g.0).1, (g.0).2), IsChoice-IsEligible node picked g.1)

    -- The devices of a choice were not reserved before it.
    holds-fresh :
        (node : String) (picked : List FabricEndpoint) (id : DeviceId)
        → All (IsChoice node) picked
        → holds (map assigned_device picked) id ≡ true
        → contains earlier id ≡ false
    holds-fresh node [] id g h = cc
    holds-fresh node (e ∷ picked) id g h =
        let fresh = is_candidate-fresh workload.spec.topology rank reserved earlier e (g.0).2 in
        ground (arith, holds-fresh node picked id g.1)

    restore :
        (a : RankAssignment) (r : Reservations) (node : String) (picked : List FabricEndpoint)
        → a.devices ≡ map assigned_device picked
        → All (IsChoice node) picked
        → SameSet r (add_assignment a earlier)
        → SameSet (release_devices a.devices r) earlier
    restore a r node picked e g same id =
        let fresh = holds-fresh node picked id g in
        let held : holds a.devices id ≡ holds (map assigned_device picked) id =
          ap (λ items. holds items id) e in
        ground (
          arith,
          contains-release_devices a.devices r id,
          contains-add_assignment a earlier id,
          same id,
        )

    module _ (a : RankAssignment) (node : String) (picked : List FabricEndpoint)
        (named : a.rank ≡ rank.name) (on_node : a.node_name ≡ node)
        (devices : a.devices ≡ map assigned_device picked) (g : All (IsChoice node) picked)
        (spread : Sublist picked candidates) (size : length picked ≡ count_of rank) where
      abbrev pre' : List RankAssignment
      pre' = pre ++ (a ∷ [])

      abbrev earlier' : Reservations
      earlier' = add_assignment a earlier

      assigned : IsAssigned workload.spec.topology candidates reserved rank earlier a
      assigned = record {
        named = named;
        counted = ap length devices ∙ length-map assigned_device picked ∙ size;
        spread = (picked, devices, spread);
        eligible = rw (devices, on_node) (IsChoice-IsEligible node picked g);
      }

      -- The state after the later ranks have been tried.
      finish :
          (tried : Bool × Search)
          → Ends (Inv pre' (length ranks) earlier') (Goal pre' ranks earlier') tried
          → Ends (Inv pre (suc (length ranks)) earlier) (Goal pre (rank ∷ ranks) earlier) (
              if tried.0 then tried else (
                false,
                record tried.1 { selected = release_devices a.devices (tried.1).selected },
              ))
      finish (true, t) (won, lost) =
          let goal = won refl in
          let regroup = append_assoc pre (a ∷ []) goal.found in
          (
            λ _. record {
              found = a ∷ goal.found;
              layout = goal.layout ∙ regroup;
              placed = (assigned, goal.placed);
              joined = subst (λ all_of. connected all_of candidates ≡ true) regroup goal.joined;
            },
            λ e. cc,
          )
      finish (false, t) (won, lost) =
          let inv = lost refl in
          (
            λ e. cc,
            λ _. record {
              tail = a ∷ inv.tail;
              slots = ap suc inv.slots;
              layout = inv.layout ∙ append_assoc pre (a ∷ []) inv.tail;
              same = restore a t.selected node picked devices g inv.same;
            },
          )

      start :
          (s : Search)
          → Inv pre (suc (length ranks)) earlier s
          → Inv pre' (length ranks) earlier' (record s {
            assignments = set s.assignments (length pre) a;
            selected = add_assignment a s.selected;
          })
      start s h = elim (List-cases h.tail) [
        | inl e ↦ absurd (omega (arith, ap length e, h.slots))
        | inr (x, tail, e) ↦ record {
          tail = tail;
          slots = omega (arith, ap length e, h.slots);
          layout =
              ap (λ slots. set slots (length pre) a) (h.layout ∙ ap (λ t. pre ++ t) e)
              ∙ set-append pre x a tail
              ∙ sym (append_assoc pre (a ∷ []) tail);
          same = λ id. ground (
            arith,
            contains-add_assignment a s.selected id,
            contains-add_assignment a earlier id,
            h.same id,
          );
        }
      ]

    pub take_choice-Ends :
        (go_on : Choice)
        → ((a : RankAssignment) (s : Search)
            → Inv (pre ++ (a ∷ [])) (length ranks) (add_assignment a earlier) s
            → Ends
                (Inv (pre ++ (a ∷ [])) (length ranks) (add_assignment a earlier))
                (Goal (pre ++ (a ∷ [])) ranks (add_assignment a earlier))
                (go_on s))
        → (node : String) (picked : List FabricEndpoint) (s : Search) → All (IsChoice node) picked
        → Sublist picked candidates
        → length picked ≡ count_of rank
        → Inv pre (suc (length ranks)) earlier s
        → Ends (Inv pre (suc (length ranks)) earlier) (Goal pre (rank ∷ ranks) earlier) (
            take_choice ctx child_name workload candidates reserved rank
              (length pre)
              go_on
              node
              picked
              s)
    unfolding take_choice make_assignment
    take_choice-Ends go_on next node picked s g spread size h =
        let a = make_assignment child_name workload rank.name node picked in
        finish a node picked refl refl refl g spread size _
          (next a _ (start a node picked refl refl refl g spread size s h))
