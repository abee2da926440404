-- ===== src/Device/Snapshot/Identified.antt =====
-- The devices of a snapshot: those that share a stable id are all refused.
use tenstorrent_dra_framewor.Base.{
  ℕ, suc, ◌≡◌, refl, ap, subst, sym, ◌∙◌, inl, inr, String, Bool, true, false, List, [], ◌∷◌, ◌==◌,
  string_eq, All, any, keep, map, length, text_lt, Bool-cases, branch, arith,
}
use tenstorrent_dra_framewor.Base.Order.{text_lt_antisym, text_lt_trans, text_lt_asym}
use tenstorrent_dra_framewor.Base.Sort.{sort, sort-All, sort-IsSorted, IsSorted, length-sort}
use tenstorrent_dra_framewor.Base.Distinct.{Unique}
use tenstorrent_dra_framewor.Device.{InventoryDevice, InventorySnapshot}
use tenstorrent_dra_framewor.Device.Normalize.{RawDevice}
use tenstorrent_dra_framewor.Device.Snapshot.{
  normalize, mark_duplicate, mark_from, mark_duplicate_identities, id_before, observing,
  build_snapshot,
}
use tenstorrent_dra_framewor.Device.Snapshot.Certified.{IsCertified, normalize-IsCertified}

abbrev pub id_of : InventoryDevice → String
id_of device = device.stable_id

abbrev pub is_eligible : InventoryDevice → Bool
is_eligible device = device.eligible

-- What holds of the ids holds of the ids after the marking.
mark_from-ids :
    (P : String → Type 0) (previous : InventoryDevice) (devices : List InventoryDevice)
    → P previous.stable_id
    → All (λ (d : InventoryDevice). P d.stable_id) devices
    → All (λ (d : InventoryDevice). P d.stable_id) (mark_from previous devices)
unfolding mark_from mark_duplicate
mark_from-ids P previous [] p h = (p, tt)
mark_from-ids P previous (device ∷ devices) p h =
    branch (All (λ (d : InventoryDevice). P d.stable_id)) (device.stable_id == previous.stable_id)
      (λ _. (p, mark_from-ids P (mark_duplicate device) devices h.0 h.1))
      (λ _. (p, mark_from-ids P device devices h.0 h.1))

-- A device that is not marked stays as it was, and one that is marked is refused.
mark_from-All :
    (P : InventoryDevice → Type 0) (refused : (d : InventoryDevice) → P (mark_duplicate d))
    (previous : InventoryDevice) (devices : List InventoryDevice)
    → P previous
    → All P devices
    → All P (mark_from previous devices)
unfolding mark_from
mark_from-All P refused previous [] p h = (p, tt)
mark_from-All P refused previous (device ∷ devices) p h =
    branch (All P) (device.stable_id == previous.stable_id)
      (λ _. (
        refused previous,
        mark_from-All P refused (mark_duplicate device) devices (refused device) h.1,
      ))
      (λ _. (p, mark_from-All P refused device devices h.0 h.1))

length-mark_from :
    (previous : InventoryDevice) (devices : List InventoryDevice)
    → length (mark_from previous devices) ≡ length (previous ∷ devices)
unfolding mark_from
length-mark_from previous [] = refl
length-mark_from previous (device ∷ devices) =
    ground
      (arith, length-mark_from device devices, length-mark_from (mark_duplicate device) devices)

absent_of_All :
    (id : String) (devices : List InventoryDevice)
    → All (λ (d : InventoryDevice). (d.stable_id == id) ≡ false) devices
    → any (λ (d : InventoryDevice). d.stable_id == id) (keep is_eligible devices) ≡ false
unfolding keep
absent_of_All id [] h = refl
absent_of_All id (device ∷ devices) h = ground (arith, absent_of_All id devices h.1, h.0)

later_id :
    (x y z : String)
    → (y == x) ≡ false
    → text_lt y x ≡ false
    → text_lt z y ≡ false
    → (z == x) ≡ false
later_id x y z differ h k = elim (Bool-cases (z == x)) [
  | inl e ↦
      let same : z ≡ x = ground (arith, e) in
      let back : text_lt x y ≡ false = subst (λ w. text_lt w y ≡ false) same k in
      absurd (ground (arith, differ, text_lt_antisym x y back h))
  | inr e ↦ e
]

-- After an id that is greater, the ids are others.
later_ids :
    (a b : InventoryDevice) (devices : List InventoryDevice)
    → (b.stable_id == a.stable_id) ≡ false
    → id_before b a ≡ false
    → All (λ (d : InventoryDevice). id_before d b ≡ false) devices
    → All (λ (d : InventoryDevice). (d.stable_id == a.stable_id) ≡ false) devices
later_ids a b [] differ h later = tt
later_ids a b (d ∷ devices) differ h later = (
  later_id a.stable_id b.stable_id d.stable_id differ h later.0,
  later_ids a b devices differ h later.1,
)

mark_from-Unique :
    (previous : InventoryDevice) (devices : List InventoryDevice)
    → IsSorted id_before (previous ∷ devices)
    → Unique id_of (keep is_eligible (mark_from previous devices))
unfolding mark_from mark_duplicate keep
mark_from-Unique previous [] s =
    branch (λ ds. Unique id_of ds) previous.eligible (λ _. (refl, tt)) (λ _. tt)
mark_from-Unique previous (device ∷ devices) s =
    branch (λ ds. Unique id_of (keep is_eligible ds)) (device.stable_id == previous.stable_id)
      (λ same. mark_from-Unique (mark_duplicate device) devices s.1)
      (λ differ.
        let rest = mark_from-Unique device devices s.1 in
        let others =
          mark_from-ids (λ id. (id == previous.stable_id) ≡ false) device devices differ
            (later_ids previous device devices differ s.0.0 s.1.0) in
        branch (λ ds. Unique id_of ds) previous.eligible
          (λ _. (absent_of_All previous.stable_id (mark_from device devices) others, rest))
          (λ _. rest))

normalized-All :
    (raws : List RawDevice)
    → All (λ (d : InventoryDevice). d.eligible ≡ true → IsCertified d) (map normalize raws)
normalized-All [] = tt
normalized-All (raw ∷ raws) = (λ h. (normalize-IsCertified raw h).2, normalized-All raws)

mark_duplicate_identities-All :
    (devices : List InventoryDevice)
    → All (λ (d : InventoryDevice). d.eligible ≡ true → IsCertified d) devices
    → All
        (λ (d : InventoryDevice). d.eligible ≡ true → IsCertified d)
        (mark_duplicate_identities devices)
unfolding mark_duplicate_identities mark_duplicate
mark_duplicate_identities-All [] h = tt
mark_duplicate_identities-All (device ∷ devices) h =
    mark_from-All (λ d. d.eligible ≡ true → IsCertified d) (λ d h. cc) device devices h.0 h.1

mark_duplicate_identities-Unique :
    (devices : List InventoryDevice)
    → IsSorted id_before devices
    → Unique id_of (keep is_eligible (mark_duplicate_identities devices))
unfolding mark_duplicate_identities keep
mark_duplicate_identities-Unique [] s = tt
mark_duplicate_identities-Unique (device ∷ devices) s = mark_from-Unique device devices s

length-mark_duplicate_identities :
    (devices : List InventoryDevice) → length (mark_duplicate_identities devices) ≡ length devices
unfolding mark_duplicate_identities
length-mark_duplicate_identities [] = refl
length-mark_duplicate_identities (device ∷ devices) = length-mark_from device devices

length-map : (raws : List RawDevice) → length (map normalize raws) ≡ length raws
length-map [] = refl
length-map (raw ∷ raws) = ap suc (length-map raws)

pub record IsInventory (raws : List RawDevice) (s : InventorySnapshot) : Type 0 where
  pub certified : All (λ (d : InventoryDevice). d.eligible ≡ true → IsCertified d) s.devices
  pub unique : Unique id_of (keep is_eligible s.devices)
  pub whole : length s.devices ≡ length raws

-- In the snapshot of what the provider observed, every eligible device meets the requirements, no two
-- eligible devices have one stable id, and there are as many devices as observations.
pub build_snapshot-IsInventory :
    (raws : List RawDevice) (time : ℕ) (s : InventorySnapshot)
    → build_snapshot (observing raws) time ≡ inr s
    → IsInventory raws s
unfolding build_snapshot
build_snapshot-IsInventory raws time s built =
    let normalized = map normalize raws in
    let sorted = sort id_before normalized in
    let devices = mark_duplicate_identities sorted in
    let same : s ≡ record { devices = devices; observed_at = time } = cc in
    let found : IsInventory raws (record { devices = devices; observed_at = time }) = record {
      certified = mark_duplicate_identities-All sorted (
          sort-All id_before (λ (d : InventoryDevice). d.eligible ≡ true → IsCertified d) normalized
            (normalized-All raws));
      unique = mark_duplicate_identities-Unique sorted (
          sort-IsSorted id_before (λ a b. text_lt_asym a.stable_id b.stable_id)
            (λ a b c. text_lt_trans a.stable_id b.stable_id c.stable_id) normalized);
      whole =
          length-mark_duplicate_identities sorted
          ∙ (length-sort id_before normalized ∙ length-map raws);
    } in
    subst (λ t. IsInventory raws t) (sym same) found
