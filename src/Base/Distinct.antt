-- ===== src/Base/Distinct.antt =====
-- Key sets as lists: each key once, and the pigeonhole principle.
use Prim.Native.Nat.{suc, ◌≤◌}
use mathlib.Core.Path.{◌≡◌, refl}
use mathlib.Core.Logic.{◌≢◌, inl, inr}
use mathlib.Core.Bool.{Bool, true, false, ◌||◌}
use mathlib.Core.List.{List, [], ◌∷◌, ◌++◌}
use native.Mathlib.Omega.{arith}
use tenstorrent_dra_framewor.Base.Equality.{Eq, ◌==◌, contains, if◌then◌else◌, Bool-cases}
use tenstorrent_dra_framewor.Base.Lists.{length, any}

module _ {ℓ} {A : Type ℓ} ⦃e : Eq A⦄ where
  abbrev pub Distinct : List A → Type 0
  Distinct [] = Unit
  Distinct (x ∷ xs) = (contains xs x ≡ false) × Distinct xs

  abbrev pub IsSubset : List A → List A → Type ℓ
  IsSubset xs ys = (a : A) → contains xs a ≡ true → contains ys a ≡ true

  drop_one : A → List A → List A
  drop_one a [] = []
  drop_one a (x ∷ xs) = if a == x then xs else x ∷ drop_one a xs

  length-drop_one :
      (a : A) (xs : List A) → contains xs a ≡ true → length xs ≡ suc (length (drop_one a xs))
  unfolding drop_one
  length-drop_one a [] h = cc
  length-drop_one a (x ∷ xs) h = ground (arith, length-drop_one a xs)

  contains-drop_one :
      (a b : A) (xs : List A) → b ≢ a → contains xs b ≡ true → contains (drop_one a xs) b ≡ true
  unfolding drop_one
  contains-drop_one a b [] n h = cc
  contains-drop_one a b (x ∷ xs) n h = ground (arith, contains-drop_one a b xs)

  ne_of_contains : (a b : A) (xs : List A) → contains xs a ≡ false → contains xs b ≡ true → b ≢ a
  ne_of_contains a b xs out inside same = ground arith

  pub length-le_of_subset : (xs ys : List A) → Distinct xs → IsSubset xs ys → length xs ≤ length ys
  length-le_of_subset [] ys d s = omega arith
  length-le_of_subset (x ∷ xs) ys d s =
      let here : contains ys x ≡ true = s x (ground arith) in
      let rest =
        length-le_of_subset xs (drop_one x ys) d.1
          (λ b h. contains-drop_one x b ys (ne_of_contains x b xs d.0 h) (s b (ground arith))) in
      omega (arith, length-drop_one x ys here)

  -- A set that fits into another of no greater size is all of it.
  pub pigeonhole :
      (xs ys : List A) → Distinct xs → IsSubset xs ys → length ys ≤ length xs → IsSubset ys xs
  pigeonhole xs ys d s h a inside = elim (Bool-cases (contains xs a)) [
    | inl there ↦ there
    | inr out ↦
        absurd
          (omega (arith, length-le_of_subset (a ∷ xs) ys (out, d) (λ b m. ground (arith, s b))))
  ]

-- No two items have one key.
module _ {ℓ κ} {A : Type ℓ} {K : Type κ} ⦃e : Eq K⦄ (key : A → K) where
  abbrev pub Unique : List A → Type 0
  Unique [] = Unit
  Unique (x ∷ xs) = (any (λ y. key y == key x) xs ≡ false) × Unique xs

  pub any-append : (p : A → Bool) (xs ys : List A) → any p (xs ++ ys) ≡ (any p xs || any p ys)
  any-append p [] ys = refl
  any-append p (x ∷ xs) ys = ground (arith, any-append p xs ys)

  pub Unique-concat :
      (xs : List A) (x : A)
      → any (λ y. key y == key x) xs ≡ false
      → Unique xs
      → Unique (xs ++ (x ∷ []))
  Unique-concat [] x h u = (refl, tt)
  Unique-concat (y ∷ xs) x h u =
      ground (arith, Unique-concat xs x, any-append (λ z. key z == key y) xs (x ∷ []))
