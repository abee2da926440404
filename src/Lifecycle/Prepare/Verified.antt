-- ===== src/Lifecycle/Prepare/Verified.antt =====
-- What the second look at the hardware in `prepareOne` shows of the devices.
use tenstorrent_dra_framewor.Base.{
  String, true, false, List, [], ◌∷◌, none, some, string_eq, nat_eq, Option-cases, Bool-cases, ◌≡◌,
  refl, ◌∙◌, ap, arith, inl, inr, All, map,
}
use tenstorrent_dra_framewor.Base.Dict.{Dict, lookup, insert, lookup-insert, lookup-nil}
use tenstorrent_dra_framewor.Device.{InventoryDevice, InventorySnapshot}
use tenstorrent_dra_framewor.Lifecycle.State.{
  ClaimDevice, PreparedClaim, QuarantineRecord, Env, Config, Manager, dra_name, snapshot, failure,
  Observed, tick,
}
use tenstorrent_dra_framewor.Lifecycle.Janitor.{filter_device, filter_snapshot, inventory_fresh}
use tenstorrent_dra_framewor.Lifecycle.Observe.{observe, by_name}
use tenstorrent_dra_framewor.Lifecycle.Prepare.{refresh, is_verified, verify_devices}

-- No device of the list is in quarantine.
abbrev pub IsClean : Dict String QuarantineRecord → List ClaimDevice → Type 0
IsClean quarantined = All (λ item. lookup item.device quarantined ≡ none)

-- A device that a filtered snapshot shows as eligible is not in quarantine.
module _ (cfg : Config) (env : Env) (q : Dict String QuarantineRecord) where
  unfoldable pub FitFor : Dict String InventoryDevice → Type 0
  FitFor seen =
      (name : String) (item : InventoryDevice)
      → lookup name seen ≡ some item
      → item.eligible ≡ true
      → lookup name q ≡ none

  empty-FitFor : FitFor []
  unfolding FitFor
  empty-FitFor name item h eligible =
      absurd (ground (arith, h, lookup-nil {V = InventoryDevice} name))

  filter_device-clean :
      (item : InventoryDevice)
      → (filter_device env q item).eligible ≡ true
      → lookup (dra_name env item) q ≡ none
  unfolding filter_device
  filter_device-clean item h = elim (Option-cases (lookup (dra_name env item) q)) [
    | inl miss ↦ miss
    | inr (r, hit) ↦ absurd (ground (arith, h, hit))
  ]

  filter_device-name :
      (item : InventoryDevice) → dra_name env (filter_device env q item) ≡ dra_name env item
  unfolding filter_device
  filter_device-name item = elim (Option-cases (lookup (dra_name env item) q)) [
    | inl miss ↦ rw (miss, filter_device) refl
    | inr (r, hit) ↦ rw (hit, filter_device) refl
  ]

  by_name-FitFor :
      (items : List InventoryDevice) (seen : Dict String InventoryDevice)
      → FitFor seen
      → FitFor (by_name cfg env (map (filter_device env q) items) seen)
  unfolding by_name FitFor
  by_name-FitFor [] seen f = f
  by_name-FitFor (item ∷ items) seen f =
      let fit = filter_device env q item in
      by_name-FitFor items (insert (dra_name env fit) fit seen) (λ name found h eligible.
        elim (string_eq.dec name (dra_name env fit)) [
          | yes same ↦
              let e : fit ≡ found =
                ground (arith, h, lookup-insert name (dra_name env fit) fit seen) in
              ap (λ n. lookup n q) (same ∙ filter_device-name item)
              ∙ filter_device-clean item (ap (λ (x : InventoryDevice). x.eligible) e ∙ eligible)
          | no differ ↦
              f name found (ground (arith, h, lookup-insert name (dra_name env fit) fit seen))
                eligible
        ])

module _ (cfg : Config) (env : Env) where
  is_verified-clean :
      (q : Dict String QuarantineRecord) (seen : Dict String InventoryDevice) (item : ClaimDevice)
      → FitFor cfg env q seen
      → is_verified cfg env seen item ≡ true
      → lookup item.device q ≡ none
  unfolding FitFor is_verified
  is_verified-clean q seen item f h = elim (Option-cases (lookup item.device seen)) [
    | inl miss ↦ absurd (ground (arith, h, miss))
    | inr (found, hit) ↦ f item.device found hit (ground (arith, h, hit))
  ]

  observe-FitFor :
      (s : InventorySnapshot) (m : Manager)
      → FitFor cfg env
          (observe cfg env s false m).1.quarantined
          (by_name cfg env (observe cfg env s false m).0.filtered.devices [])
  unfolding observe filter_snapshot
  observe-FitFor s m =
      by_name-FitFor cfg env (observe cfg env s false m).1.quarantined s.devices []
        (empty-FitFor cfg env _)

  pub refresh-FitFor :
      (m : Manager) (o : Observed)
      → env.inventory m.clock ≡ o
      → (refresh cfg env "" "" m).0.0 ≡ none
      → FitFor cfg env
          (refresh cfg env "" "" m).1.quarantined
          (by_name cfg env (refresh cfg env "" "" m).0.2.devices [])
  unfolding refresh
  refresh-FitFor m (failure e) o h = absurd (ground (arith, h, o))
  refresh-FitFor m (snapshot s) o h = elim (Option-cases (inventory_fresh cfg env s (tick m)).0) [
    | inr (e, fault) ↦ absurd (ground (arith, h, o, fault))
    | inl fine ↦ rw (o, refresh) (rw fine (observe-FitFor s (inventory_fresh cfg env s (tick m)).1))
  ]

  -- Verifying without an error changes nothing, and the devices are clean.
  pub verify_devices-IsClean :
      (claim : PreparedClaim) (seen : Dict String InventoryDevice) (items : List ClaimDevice)
      (m : Manager)
      → FitFor cfg env m.quarantined seen
      → (verify_devices cfg env claim seen items m).0 ≡ none
      → IsClean m.quarantined items × ((verify_devices cfg env claim seen items m).1 ≡ m)
  unfolding verify_devices
  verify_devices-IsClean claim seen [] m f h = (tt, refl)
  verify_devices-IsClean claim seen (item ∷ items) m f h =
      elim (Bool-cases (is_verified cfg env seen item)) [
        | inr b ↦ absurd (ground (arith, h, b))
        | inl b ↦
            let rest = verify_devices-IsClean claim seen items m f (ground (arith, h, b)) in
            ((is_verified-clean m.quarantined seen item f b, rest.0), rw (b, verify_devices) rest.1)
      ]
