-- ===== src/Lifecycle/Recovery/Vetted.antt =====
-- Every claim after the start, from the listing of the allocations to the last write.
use tenstorrent_dra_framewor.Base.{
  ◌≡◌, refl, inl, inr, String, not, ◌||◌, List, [], ◌∷◌, Option, none, contains, string_eq, All,
  Option-cases, Bool-cases, ◌⊎◌,
}
use tenstorrent_dra_framewor.Base.Dict.{Dict, keys, erase}
use tenstorrent_dra_framewor.Device.{InventoryDevice, InventorySnapshot}
use tenstorrent_dra_framewor.Lifecycle.State.{
  PreparedClaim, Env, Config, Manager, tick, persist, set_claims,
}
use tenstorrent_dra_framewor.Lifecycle.Observe.{by_name}
use tenstorrent_dra_framewor.Lifecycle.Observe.Grows.{Grows, stays, joined}
use tenstorrent_dra_framewor.Lifecycle.Startup.{
  Start, Directory, present, absent, unreadable, local_allocations, adopt_claims, revise_claim,
  repair_claims,
}
use tenstorrent_dra_framewor.Lifecycle.Recovery.{
  is_claim_file, expected_files, remove_orphans, remove_orphan_cdi, finish_startup,
  reconcile_claims,
}
use tenstorrent_dra_framewor.Lifecycle.Recovery.Checked.{
  IsVetted-Grows, IsClaimVetted, repair_claims-IsVetted,
}

Directory-cases :
    (d : Directory) → ((d ≡ present) ⊎ (d ≡ absent)) ⊎ ((e : String) × (d ≡ unreadable e))
Directory-cases present = inl (inl refl)
Directory-cases absent = inl (inr refl)
Directory-cases (unreadable e) = inr (e, refl)

remove_orphans-Grows :
    (env : Env) (expected names : List String) (m : Manager)
    → Grows m (remove_orphans env expected names m).1
unfolding remove_orphans
remove_orphans-Grows env expected [] m = stays
remove_orphans-Grows env expected (name ∷ names) m =
    let removed : Manager = record (tick m) { cdi = erase name m.cdi } in
    let first : Grows m removed = record { kept = λ other f. f } in
    elim (Bool-cases (not (is_claim_file name) || contains expected name)) [
      | inl kept ↦ rw (remove_orphans, kept) (remove_orphans-Grows env expected names m)
      | inr orphan ↦ elim (Option-cases (env.remove_cdi m.clock)) [
        | inr (e, fault) ↦ rw (remove_orphans, orphan, fault) (record { kept = λ other f. f })
        | inl fine ↦
            rw (remove_orphans, orphan, fine)
              (joined first (remove_orphans-Grows env expected names removed))
      ]
    ]

module _ (cfg : Config) (env : Env) (start : Start) where
  remove_orphan_cdi-Grows : (m : Manager) → Grows m (remove_orphan_cdi cfg env start m).1
  unfolding remove_orphan_cdi
  remove_orphan_cdi-Grows m =
      let ticked : Grows m (tick m) = record { kept = λ name f. f } in
      elim (Directory-cases (start.directory m.clock)) [
        | inl (inl e) ↦
            rw (remove_orphan_cdi, e)
              (joined ticked
                (remove_orphans-Grows env (expected_files m.claims) (keys m.cdi) (tick m)))
        | inl (inr e) ↦ rw (remove_orphan_cdi, e) ticked
        | inr (fault, e) ↦ rw (remove_orphan_cdi, e) ticked
      ]

  finish_startup-Grows :
      (s : InventorySnapshot) (error : Option String) (m : Manager)
      → Grows m (finish_startup cfg env start s error m).1
  unfolding finish_startup persist
  finish_startup-Grows s error m =
      let cleaned = remove_orphan_cdi-Grows m in
      elim (Option-cases (remove_orphan_cdi cfg env start m).0) [
        | inr (e, fault) ↦ rw (finish_startup, fault) cleaned
        | inl fine ↦ rw (finish_startup, fine) (record { kept = λ name f. cleaned.kept name f })
      ]

  All-IsClaimVetted :
      (a b : Manager) (inventory : Dict String InventoryDevice)
      (allocated claims : Dict String PreparedClaim)
      → Grows a b
      → All (IsClaimVetted cfg env start inventory allocated a) claims
      → All (IsClaimVetted cfg env start inventory allocated b) claims
  All-IsClaimVetted a b inventory allocated [] g h = tt
  All-IsClaimVetted a b inventory allocated ((uid, claim) ∷ claims) g (here, h) =
      let revised = revise_claim cfg env start allocated uid claim in
      (
        IsVetted-Grows a b cfg inventory revised.phase revised.devices g here,
        All-IsClaimVetted a b inventory allocated claims g h,
      )

  -- The claims of the start: those of the file, and the live ones that it lacks.
  abbrev pub started_claims : InventorySnapshot → Manager → Dict String PreparedClaim
  started_claims s m =
      let listing = local_allocations cfg env start (by_name cfg env s.devices []) m in
      adopt_claims cfg env start listing.0.0 listing.1.claims

  -- Where the allocations could be listed, after the start every claim of `started_claims`, as
  -- `revise_claim` makes it, has its devices in quarantine, or intact and the claim prepared.
  pub reconcile_claims-IsVetted :
      (s : InventorySnapshot) (m : Manager)
      → (local_allocations cfg env start (by_name cfg env s.devices []) m).0.1 ≡ none
      → All
          (IsClaimVetted cfg env start
            (by_name cfg env s.devices [])
            (local_allocations cfg env start (by_name cfg env s.devices []) m).0.0
            (reconcile_claims cfg env start s m).1)
          (started_claims s m)
  unfolding reconcile_claims
  reconcile_claims-IsVetted s m listed =
      let inventory = by_name cfg env s.devices [] in
      let listing = local_allocations cfg env start inventory m in
      let claims = started_claims s m in
      let begun = set_claims claims listing.1 in
      let repaired = repair_claims cfg env start inventory listing.0.0 claims begun in
      rw (reconcile_claims, listed)
        (All-IsClaimVetted repaired.1 (finish_startup cfg env start s repaired.0 repaired.1).1
          inventory listing.0.0 claims (finish_startup-Grows s repaired.0 repaired.1)
          (repair_claims-IsVetted cfg env start inventory listing.0.0 claims begun))
