-- ===== src/Lifecycle/Recovery/Cleaned.antt =====
-- The CDI files after the start.
use tenstorrent_dra_framewor.Base.{
  ◌≡◌, refl, subst, sym, ◌∙◌, ap, inl, inr, String, Bool, true, false, not, ◌&&◌, ◌||◌, List, [],
  ◌∷◌, none, ◌==◌, contains, string_eq, Option-cases, Bool-cases, arith,
}
use tenstorrent_dra_framewor.Base.Dict.{Dict, keys, erase}
use tenstorrent_dra_framewor.Lifecycle.State.{Env, Config, Manager, tick}
use tenstorrent_dra_framewor.Lifecycle.Frame.{SameClaims, here, after}
use tenstorrent_dra_framewor.Lifecycle.Startup.{Start, present}
use tenstorrent_dra_framewor.Lifecycle.Recovery.{
  is_claim_file, expected_files, remove_orphans, remove_orphan_cdi,
}

contains-keys-erase :
    {V : Type 0} (k name : String) (d : Dict String V)
    → contains (keys (erase k d)) name ≡ (contains (keys d) name && not (name == k))
unfolding erase
contains-keys-erase k name [] = ground arith
contains-keys-erase k name ((j, w) ∷ d) = ground (arith, contains-keys-erase k name d)

-- The file is one that a claim has, or not of the driver.
abbrev is_kept : List String → String → Bool
is_kept expected name = not (is_claim_file name) || contains expected name

-- From `a` to `b`, only files that no claim has are removed, and the claims stay.
pub record Removes (expected : List String) (a b : Manager) : Type 0 where
  pub same_claims : SameClaims a b
  pub fewer :
      (name : String) → contains (keys b.cdi) name ≡ true → contains (keys a.cdi) name ≡ true
  pub keeps :
      (name : String)
      → contains (keys a.cdi) name ≡ true
      → is_kept expected name ≡ true
      → contains (keys b.cdi) name ≡ true

module _ (env : Env) (expected : List String) where
  remove-Removes :
      (name : String) (m : Manager)
      → is_kept expected name ≡ false
      → Removes expected m (record (tick m) { cdi = erase name m.cdi })
  remove-Removes name m orphan = record {
    same_claims = record { same = refl };
    fewer = λ other h. ground (arith, h, contains-keys-erase name other m.cdi);
    keeps = λ other h kept. elim (string_eq.dec other name) [
      | yes same ↦ absurd (ground (arith, kept, orphan, ap (is_kept expected) same))
      | no differ ↦ ground (arith, h, differ, contains-keys-erase name other m.cdi)
    ];
  }

  then-Removes :
      {a b c : Manager} → Removes expected a b → Removes expected b c → Removes expected a c
  then-Removes p q = record {
    same_claims = after p.same_claims q.same_claims;
    fewer = λ name h. p.fewer name (q.fewer name h);
    keeps = λ name h kept. q.keeps name (p.keeps name h kept) kept;
  }

  remove_orphans-Removes :
      (names : List String) (m : Manager)
      → Removes expected m (remove_orphans env expected names m).1
  unfolding remove_orphans
  remove_orphans-Removes [] m = record {
    same_claims = here;
    fewer = λ name h. h;
    keeps = λ name h kept. h;
  }
  remove_orphans-Removes (name ∷ names) m = elim (Bool-cases (is_kept expected name)) [
    | inl kept ↦ rw (remove_orphans, kept) (remove_orphans-Removes names m)
    | inr orphan ↦ elim (Option-cases (env.remove_cdi m.clock)) [
      | inr (e, fault) ↦
          rw (remove_orphans, orphan, fault)
            (record {
              same_claims = record { same = refl };
              fewer = λ name h. h;
              keeps = λ name h kept. h;
            })
      | inl fine ↦
          rw (remove_orphans, orphan, fine)
            (then-Removes (remove-Removes name m orphan) (remove_orphans-Removes names _))
    ]
  ]

  -- Where no error is answered, the names that no claim has are gone.
  remove_orphans-gone :
      (names : List String) (m : Manager) (name : String)
      → (remove_orphans env expected names m).0 ≡ none
      → contains names name ≡ true
      → contains (keys (remove_orphans env expected names m).1.cdi) name ≡ true
      → is_kept expected name ≡ true
  unfolding remove_orphans
  remove_orphans-gone [] m name ok listed left = cc
  remove_orphans-gone (first ∷ names) m name ok listed left =
      elim (Bool-cases (is_kept expected first)) [
        | inl kept ↦ elim (string_eq.dec name first) [
          | yes same ↦ ap (is_kept expected) same ∙ kept
          | no differ ↦
              remove_orphans-gone names m name (rw (remove_orphans, kept) at ok)
                (ground (arith, listed, differ)) (rw (remove_orphans, kept) at left)
        ]
        | inr orphan ↦ elim (Option-cases (env.remove_cdi m.clock)) [
          | inr (e, fault) ↦ absurd (ground (arith, rw (remove_orphans, orphan, fault) at ok))
          | inl fine ↦
              let m' : Manager = record (tick m) { cdi = erase first m.cdi } in
              let left' = rw (remove_orphans, orphan, fine) at left in
              elim (Bool-cases (contains names name)) [
                | inl later ↦
                    remove_orphans-gone names m' name (rw (remove_orphans, orphan, fine) at ok)
                      later left'
                | inr only ↦
                    let there = (remove_orphans-Removes names m').fewer name left' in
                    absurd
                      (ground (arith, there, only, listed, contains-keys-erase first name m.cdi))
              ]
        ]
      ]

-- The CDI files are cleaned from `a` to `b`.
pub record IsClean (a b : Manager) : Type 0 where
  pub same_claims : b.claims ≡ a.claims
  pub claimed :
      (name : String)
      → contains (keys b.cdi) name ≡ true
      → is_claim_file name ≡ true
      → contains (expected_files b.claims) name ≡ true
  pub kept :
      (name : String)
      → contains (keys a.cdi) name ≡ true
      → is_kept (expected_files a.claims) name ≡ true
      → contains (keys b.cdi) name ≡ true

-- Where `removeOrphanCDI` answers no error and the directory is there, every file of the driver that is
-- left is a claim's, the files of claims and of others are kept, and no claim has changed.
pub remove_orphan_cdi-IsClean :
    (cfg : Config) (env : Env) (start : Start) (m : Manager)
    → start.directory m.clock ≡ present
    → (remove_orphan_cdi cfg env start m).0 ≡ none
    → IsClean m (remove_orphan_cdi cfg env start m).1
unfolding remove_orphan_cdi
remove_orphan_cdi-IsClean cfg env start m there ok =
    let expected = expected_files m.claims in
    let steps = remove_orphans-Removes env expected (keys m.cdi) (tick m) in
    let done = remove_orphans env expected (keys m.cdi) (tick m) in
    let ok' : done.0 ≡ none = rw (remove_orphan_cdi, there) at ok in
    rw (remove_orphan_cdi, there)
      (record {
        same_claims = steps.same_claims.same;
        claimed = λ name left owned.
            let kept =
              remove_orphans-gone env expected (keys m.cdi) (tick m) name ok'
                (steps.fewer name left) left in
            subst (λ claims. contains (expected_files claims) name ≡ true)
              (sym steps.same_claims.same) (ground (arith, kept, owned));
        kept = λ name h kept. steps.keeps name h kept;
      })
