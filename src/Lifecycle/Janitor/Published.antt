-- ===== src/Lifecycle/Janitor/Published.antt =====
-- What the node publishes of its devices: `filterLocked` and `safetyFor`.
use tenstorrent_dra_framewor.Base.{
  String, Bool, true, false, List, [], ◌∷◌, string_eq, nat_eq, Option-cases, Bool-cases, ◌≡◌, refl,
  arith, ◌==◌, ◌&&◌, map, inl, inr, ◌↔◌, branch, All, keep, length,
}
use tenstorrent_dra_framewor.Base.Dict.{Dict, lookup}
use tenstorrent_dra_framewor.Device.{InventoryDevice, InventorySnapshot, is_healthy}
use tenstorrent_dra_framewor.Lifecycle.State.{QuarantineRecord, KnownDevice, Env, dra_name}
use tenstorrent_dra_framewor.Lifecycle.Janitor.{
  Safety, filter_device, filter_snapshot, count_healthy, safety_for,
}

-- The scheduler may give the device to a pod.
pub is_available : InventoryDevice → Bool
is_available item = item.eligible && is_healthy item.health

-- No device of the list is available.
abbrev pub IsIdle : List InventoryDevice → Type 0
IsIdle = All (λ item. is_available item ≡ false)

IsIdle-length : (items : List InventoryDevice) → length (keep is_available items) ≡ 0 → IsIdle items
unfolding keep
IsIdle-length [] h = tt
IsIdle-length (item ∷ items) h = elim (Bool-cases (is_available item)) [
  | inl b ↦ ground (arith, h, b)
  | inr b ↦ (b, IsIdle-length items (ground (arith, h, b)))
]

length-IsIdle : (items : List InventoryDevice) → IsIdle items → length (keep is_available items) ≡ 0
unfolding keep
length-IsIdle [] h = refl
length-IsIdle (item ∷ items) (b, h) = rw b (length-IsIdle items h)

module _ (env : Env) (q : Dict String QuarantineRecord) where
  count-keep :
      (items : List InventoryDevice)
      → count_healthy env q (map (filter_device env q) items)
        ≡ length (keep is_available (map (filter_device env q) items))
  unfolding filter_device count_healthy is_available keep
  count-keep [] = refl
  count-keep (item ∷ items) = elim (Option-cases (lookup (dra_name env item) q)) [
    | inl miss ↦ rw (miss, filter_device) (ground (arith, count-keep items, miss))
    | inr (r, hit) ↦ rw (hit, filter_device) (ground (arith, count-keep items, hit))
  ]

-- The safety of a published snapshot counts the devices that the snapshot offers, and is unsafe exactly
-- when it offers none.
pub record IsSafetyOf (known : Dict String KnownDevice) (published : InventorySnapshot)
    (safety : Safety) : Type 0 where
  pub counted : safety.healthy ≡ length (keep is_available published.devices)
  pub total_same : safety.total ≡ length known
  pub unsafe_iff : (safety.unsafe ≡ true) ↔ IsIdle published.devices

module _ (env : Env) (q : Dict String QuarantineRecord) (known : Dict String KnownDevice)
    (s : InventorySnapshot) where
  -- The safety of the filtered snapshot counts exactly the devices that the snapshot shows as eligible
  -- and healthy, gives the number of known devices as the total, and is unsafe exactly if there is no
  -- such device.
  pub safety_for-IsSafetyOf :
      IsSafetyOf known (filter_snapshot env q s) (safety_for env (filter_snapshot env q s) known q)
  unfolding safety_for filter_snapshot
  safety_for-IsSafetyOf =
      let published = map (filter_device env q) s.devices in
      let counted = count-keep env q s.devices in
      branch (IsSafetyOf known (record { devices = published; observed_at = s.observed_at }))
        (count_healthy env q published == 0)
        (λ none_healthy. record {
          counted = counted;
          total_same = refl;
          unsafe_iff =
              (λ _. IsIdle-length published (ground (arith, counted, none_healthy)), λ _. refl);
        })
        (λ some_healthy. record {
          counted = counted;
          total_same = refl;
          unsafe_iff = (
            λ e. ground (arith, e),
            λ idle. absurd (ground (arith, counted, some_healthy, length-IsIdle published idle)),
          );
        })
