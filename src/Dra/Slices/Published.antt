-- ===== src/Dra/Slices/Published.antt =====
-- The slices of a pool hold what the node offers.
use tenstorrent_dra_framewor.Base.{
  ℕ, zero, suc, ◌≤◌, String, List, [], ◌∷◌, ◌++◌, ◌≡◌, refl, ◌∙◌, ap, arith, All, length, take,
  drop,
}
use tenstorrent_dra_framewor.Device.{InventorySnapshot}
use tenstorrent_dra_framewor.Lifecycle.State.{Env}
use tenstorrent_dra_framewor.Dra.Slices.{
  PoolDevice, max_devices_per_slice, cut_slices, one_at_least, offered_devices, driver_resources_at,
}

-- The items of all slices in order.
abbrev pub all_of {ℓ} : {A : Type ℓ} → List (List A) → List A
all_of [] = []
all_of (slice ∷ slices) = slice ++ all_of slices

module _ {ℓ} {A : Type ℓ} where
  take-drop : (n : ℕ) (xs : List A) → take n xs ++ drop n xs ≡ xs
  take-drop zero xs = refl
  take-drop (suc n) [] = refl
  take-drop (suc n) (x ∷ xs) = ap (◌∷◌ x) (take-drop n xs)

  length-take : (n : ℕ) (xs : List A) → length (take n xs) ≤ n
  length-take zero xs = omega arith
  length-take (suc n) [] = omega arith
  length-take (suc n) (x ∷ xs) = omega (arith, length-take n xs)

  length-drop : (n : ℕ) (xs : List A) → length (drop n xs) ≤ length xs
  length-drop zero xs = omega arith
  length-drop (suc n) [] = omega arith
  length-drop (suc n) (x ∷ xs) = omega (arith, length-drop n xs)

module _ (env : Env) where
  cut_slices-all_of :
      (fuel : ℕ) (devices : List PoolDevice)
      → length devices ≤ fuel
      → all_of (cut_slices env fuel devices) ≡ devices
  unfolding cut_slices
  cut_slices-all_of zero [] h = refl
  cut_slices-all_of zero (item ∷ items) h = absurd (omega (arith, h))
  cut_slices-all_of (suc fuel) [] h = refl
  cut_slices-all_of (suc fuel) (item ∷ items) h =
      ap (◌++◌ (take max_devices_per_slice (item ∷ items))) (
        cut_slices-all_of fuel (drop max_devices_per_slice (item ∷ items))
          (omega (arith, h, length-drop 127 items)))
      ∙ take-drop max_devices_per_slice (item ∷ items)

  cut_slices-bounded :
      (fuel : ℕ) (devices : List PoolDevice)
      → All (λ slice. length slice ≤ max_devices_per_slice) (cut_slices env fuel devices)
  unfolding cut_slices
  cut_slices-bounded zero devices = tt
  cut_slices-bounded (suc fuel) [] = tt
  cut_slices-bounded (suc fuel) (item ∷ items) =
      (length-take max_devices_per_slice (item ∷ items), cut_slices-bounded fuel _)

  one_at_least-all_of :
      (slices : List (List PoolDevice)) → all_of (one_at_least env slices) ≡ all_of slices
  one_at_least-all_of [] = refl
  one_at_least-all_of (slice ∷ slices) = refl

  one_at_least-bounded :
      (slices : List (List PoolDevice))
      → All (λ slice. length slice ≤ max_devices_per_slice) slices
      → All (λ slice. length slice ≤ max_devices_per_slice) (one_at_least env slices)
  one_at_least-bounded [] h = (omega arith, tt)
  one_at_least-bounded (slice ∷ slices) h = h

  -- The slices of the node's pool hold together exactly the devices that the node offers, in their
  -- order, and no slice holds more than 128.
  pub driver_resources_at-all_of :
      (node_name : String) (s : InventorySnapshot) (max_age now : ℕ)
      → (all_of (driver_resources_at env node_name s max_age now)
          ≡ offered_devices env node_name s max_age now)
        × All
            (λ slice. length slice ≤ max_devices_per_slice)
            (driver_resources_at env node_name s max_age now)
  unfolding driver_resources_at
  driver_resources_at-all_of node_name s max_age now =
      let offered = offered_devices env node_name s max_age now in
      (
        one_at_least-all_of (cut_slices env (length offered) offered)
            ∙ cut_slices-all_of (length offered) offered (omega arith),
        one_at_least-bounded _ (cut_slices-bounded (length offered) offered),
      )
