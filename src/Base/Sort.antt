-- ===== src/Base/Sort.antt =====
-- `sort.Slice` and `sort.Strings`: insertion sort by a strict order. It is stable, which
-- `sort.Slice` does not promise; the callers' keys are distinct, or they say so.
use mathlib.Core.Bool.{Bool, true, false, ◌||◌}
use mathlib.Core.List.{List, [], ◌∷◌, Perm}
use mathlib.Core.List.Perm
use Prim.Native.Nat.{suc}
use mathlib.Core.Path.{◌≡◌, refl, ap, ◌∙◌}
use native.Mathlib.Omega.{arith}
use tenstorrent_dra_framewor.Base.Equality.{Eq, ◌==◌, if◌then◌else◌, Bool-cases}
use tenstorrent_dra_framewor.Base.Lists.{All, any, length}
use tenstorrent_dra_framewor.Base.Distinct.{Unique}
use mathlib.Core.Logic.{inl, inr}

module _ {ℓ} {A : Type ℓ} (before : A → A → Bool) where
  insert_sorted : A → List A → List A
  insert_sorted x [] = x ∷ []
  insert_sorted x (y ∷ ys) = if before y x then y ∷ insert_sorted x ys else x ∷ y ∷ ys

  unfoldable pub sort : List A → List A
  unfolding insert_sorted
  sort [] = []
  sort (x ∷ xs) = insert_sorted x (sort xs)

  insert_sorted-perm : (x : A) (xs : List A) → Perm (x ∷ xs) (insert_sorted x xs)
  unfolding insert_sorted
  insert_sorted-perm x [] = Perm.refl (x ∷ [])
  insert_sorted-perm x (y ∷ ys) = elim (Bool-cases (before y x)) [
    | inl e ↦ rw e (Perm.trans (Perm.swap y x ys) (Perm.cons y (insert_sorted-perm x ys)))
    | inr e ↦ rw e (Perm.refl (x ∷ y ∷ ys))
  ]

  pub sort-perm : (xs : List A) → Perm xs (sort xs)
  unfolding sort
  sort-perm [] = Perm.refl []
  sort-perm (x ∷ xs) = Perm.trans (Perm.cons x (sort-perm xs)) (insert_sorted-perm x (sort xs))

  insert_sorted-All :
      (P : A → Type 0) (x : A) (xs : List A) → P x → All P xs → All P (insert_sorted x xs)
  unfolding insert_sorted
  insert_sorted-All P x [] p h = (p, tt)
  insert_sorted-All P x (y ∷ ys) p h = elim (Bool-cases (before y x)) [
    | inl e ↦ rw e (h.0, insert_sorted-All P x ys p h.1)
    | inr e ↦ rw e (p, h)
  ]

  pub sort-All : (P : A → Type 0) (xs : List A) → All P xs → All P (sort xs)
  unfolding sort
  sort-All P [] h = tt
  sort-All P (x ∷ xs) h = insert_sorted-All P x (sort xs) h.0 (sort-All P xs h.1)

  insert_sorted-any :
      (p : A → Bool) (x : A) (xs : List A) → any p (insert_sorted x xs) ≡ (p x || any p xs)
  unfolding insert_sorted
  insert_sorted-any p x [] = refl
  insert_sorted-any p x (y ∷ ys) = ground (arith, insert_sorted-any p x ys)

  pub sort-any : (p : A → Bool) (xs : List A) → any p (sort xs) ≡ any p xs
  unfolding sort
  sort-any p [] = refl
  sort-any p (x ∷ xs) = ground (arith, insert_sorted-any p x (sort xs), sort-any p xs)

  insert_sorted-length : (x : A) (xs : List A) → length (insert_sorted x xs) ≡ suc (length xs)
  unfolding insert_sorted
  insert_sorted-length x [] = refl
  insert_sorted-length x (y ∷ ys) = ground (arith, insert_sorted-length x ys)

  pub length-sort : (xs : List A) → length (sort xs) ≡ length xs
  unfolding sort
  length-sort [] = refl
  length-sort (x ∷ xs) = insert_sorted-length x (sort xs) ∙ ap suc (length-sort xs)

  -- Nothing belongs before what stands ahead of it.
  abbrev pub IsSorted : List A → Type 0
  IsSorted [] = Unit
  IsSorted (x ∷ xs) = All (λ y. before y x ≡ false) xs × IsSorted xs

  module _ (asym : (x y : A) → before x y ≡ true → before y x ≡ false)
      (trans : (x y z : A) → before y x ≡ false → before z y ≡ false → before z x ≡ false) where
    All-later :
        (x y : A) (ys : List A)
        → before y x ≡ false
        → All (λ z. before z y ≡ false) ys
        → All (λ z. before z x ≡ false) ys
    All-later x y [] h later = tt
    All-later x y (z ∷ ys) h later = (trans x y z h later.0, All-later x y ys h later.1)

    insert_sorted-IsSorted : (x : A) (xs : List A) → IsSorted xs → IsSorted (insert_sorted x xs)
    unfolding insert_sorted
    insert_sorted-IsSorted x [] s = (tt, tt)
    insert_sorted-IsSorted x (y ∷ ys) s = elim (Bool-cases (before y x)) [
      | inl e ↦ rw e (
        insert_sorted-All (λ z. before z y ≡ false) x ys (asym y x e) s.0,
        insert_sorted-IsSorted x ys s.1,
      )
      | inr e ↦ rw e ((e, All-later x y ys e s.0), s)
    ]

    pub sort-IsSorted : (xs : List A) → IsSorted (sort xs)
    unfolding sort
    sort-IsSorted [] = tt
    sort-IsSorted (x ∷ xs) = insert_sorted-IsSorted x (sort xs) (sort-IsSorted xs)

  module _ {κ} {K : Type κ} ⦃e : Eq K⦄ (key : A → K) where
    insert_sorted-Unique :
        (x : A) (xs : List A)
        → any (λ y. key y == key x) xs ≡ false
        → Unique key xs
        → Unique key (insert_sorted x xs)
    unfolding insert_sorted
    insert_sorted-Unique x [] h u = (refl, tt)
    insert_sorted-Unique x (y ∷ ys) h u =
        ground (arith, insert_sorted-Unique x ys, insert_sorted-any (λ z. key z == key y) x ys)

    pub sort-Unique : (xs : List A) → Unique key xs → Unique key (sort xs)
    unfolding sort
    sort-Unique [] u = tt
    sort-Unique (x ∷ xs) u =
        insert_sorted-Unique x (sort xs) (sort-any (λ y. key y == key x) xs ∙ u.0)
          (sort-Unique xs u.1)
