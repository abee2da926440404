-- ===== src/Lifecycle/State/Reloaded.antt =====
-- What `load` makes of the file that `persist` wrote.
use tenstorrent_dra_framewor.Base.{
  String, false, [], ◌∷◌, Option, none, some, string_eq, nat_eq, ◌≡◌, refl, ◌∙◌, arith, ◌==◌, any,
}
use tenstorrent_dra_framewor.Base.Dict.{Dict, lookup, insert, lookup-insert}
use tenstorrent_dra_framewor.Base.Distinct.{Unique}
use tenstorrent_dra_framewor.Lifecycle.State.{
  PersistedState, stored, Manager, merge, migrate, load, state_version,
}

-- The first of two answers.
abbrev pub or_else {ℓ} : {A : Type ℓ} → Option A → Option A → Option A
or_else none other = other
or_else (some a) other = some a

-- The keys of a map are different.
abbrev pub IsMap {ℓ} : {V : Type ℓ} → Dict String V → Type 0
IsMap = Unique (λ e. e.0)

lookup-out {ℓ} :
    {V : Type ℓ} (k : String) (d : Dict String V)
    → any (λ e. e.0 == k) d ≡ false
    → lookup k d ≡ none
unfolding lookup
lookup-out k [] h = refl
lookup-out k ((j, v) ∷ d) h = ground (arith, lookup-out k d)

lookup-merge {ℓ} :
    {V : Type ℓ} (k : String) (file memory : Dict String V)
    → IsMap file
    → lookup k (merge file memory) ≡ or_else (lookup k file) (lookup k memory)
unfolding merge lookup
lookup-merge k [] memory u = refl
lookup-merge k ((j, v) ∷ file) memory (out, u) =
    lookup-merge k file (insert j v memory) u ∙ elim (string_eq.dec k j) [
      | yes same ↦ ground (arith, lookup-insert k j v memory, lookup-out j file out, same)
      | no differ ↦ ground (arith, lookup-insert k j v memory)
    ]

-- The three maps are maps, and the version is the one that `load` reads as it is.
pub record IsWellFormed (s : PersistedState) : Type 0 where
  pub version_same : s.version ≡ state_version
  pub claims_map : IsMap s.claims
  pub quarantined_map : IsMap s.quarantined
  pub known_map : IsMap s.known

-- Each entry comes from the file, and where the file has none, from the state before.
pub record IsMerged (file before after : PersistedState) : Type 0 where
  pub claims_merged :
      (k : String) → lookup k after.claims ≡ or_else (lookup k file.claims) (lookup k before.claims)
  pub quarantined_merged :
      (k : String)
      → lookup k after.quarantined
        ≡ or_else (lookup k file.quarantined) (lookup k before.quarantined)
  pub known_merged :
      (k : String) → lookup k after.known ≡ or_else (lookup k file.known) (lookup k before.known)

-- Loading a well-formed file answers no error, and gives the entries of the file, and for every key
-- that the file lacks the entry that was in memory before.
pub load-IsMerged :
    (file : PersistedState) (m : Manager)
    → m.disk ≡ stored file
    → IsWellFormed file
    → ((load m).0 ≡ none) × IsMerged file m.state (load m).1.state
unfolding load migrate nat_eq
load-IsMerged file m on_disk w =
    rw (on_disk, load)
      (rw (w.version_same) (
        refl,
        record {
          claims_merged = λ k. lookup-merge k file.claims m.claims w.claims_map;
          quarantined_merged = λ k. lookup-merge k file.quarantined m.quarantined w.quarantined_map;
          known_merged = λ k. lookup-merge k file.known m.known w.known_map;
        },
      ))

abbrev pub empty_state : PersistedState
empty_state = record { version = state_version; claims = []; quarantined = []; known = [] }
