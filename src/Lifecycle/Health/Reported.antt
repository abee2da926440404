-- ===== src/Lifecycle/Health/Reported.antt =====
-- Which devices the kubelet is told to be healthy.
use tenstorrent_dra_framewor.Base.{
  ℕ, String, Bool, true, false, List, [], ◌∷◌, Option, none, some, ◌≡◌, refl, inl, inr, string_eq,
  Option-cases, All, arith, ap,
}
use mathlib.Core.List.{map}
use tenstorrent_dra_framewor.Base.Dict.{Dict, lookup, keys}
use tenstorrent_dra_framewor.Device.{InventoryDevice}
use tenstorrent_dra_framewor.Lifecycle.State.{QuarantineRecord, KnownDevice, Env, Config, Manager}
use tenstorrent_dra_framewor.Lifecycle.Janitor.{device_unsafe_reason, inventory_fresh}
use tenstorrent_dra_framewor.Lifecycle.Observe.{by_name}
use tenstorrent_dra_framewor.Lifecycle.Health.{
  DeviceHealth, status_healthy, quarantine_reason, status_of, health_of, report_devices,
  device_health_snapshot,
}

abbrev pub is_none : Option String → Bool
is_none none = true
is_none (some e) = false

module _ (cfg : Config) (env : Env) where
  -- A device reported healthy was observed, by an observation that is still fresh, as safe, and it is in
  -- quarantine for no reason.
  pub record IsSound (quarantined : Dict String QuarantineRecord)
      (observed : Dict String InventoryDevice) (fresh : Bool) (name : String) : Type 0 where
    pub is_fresh : fresh ≡ true
    pub item : InventoryDevice
    pub found : lookup name observed ≡ some item
    pub safe : device_unsafe_reason cfg item ≡ ""
    pub unquarantined : quarantine_reason name quarantined ≡ ""

  health_of-IsSound :
      (quarantined : Dict String QuarantineRecord) (observed : Dict String InventoryDevice)
      (fresh : Bool) (name : String)
      → health_of cfg env quarantined observed fresh name ≡ status_healthy
      → IsSound quarantined observed fresh name
  unfolding health_of status_of
  health_of-IsSound quarantined observed fresh name h = elim (Option-cases (lookup name observed)) [
    | inl miss ↦ absurd (ground (arith, h, miss))
    | inr (item, hit) ↦ record {
      is_fresh = ground (arith, h, hit);
      item = item;
      found = hit;
      safe = ground (arith, h, hit);
      unquarantined = ground (arith, h, hit);
    }
  ]

  names_reported :
      (quarantined : Dict String QuarantineRecord) (observed : Dict String InventoryDevice)
      (fresh : Bool) (epoch now : ℕ) (known : Dict String KnownDevice)
      → map
          (λ (d : DeviceHealth). d.device_name)
          (report_devices cfg env quarantined observed fresh epoch now known)
        ≡ keys known
  unfolding report_devices
  names_reported quarantined observed fresh epoch now [] = refl
  names_reported quarantined observed fresh epoch now ((name, k) ∷ rest) =
      ap (◌∷◌ name) (names_reported quarantined observed fresh epoch now rest)

  report_devices-IsSound :
      (quarantined : Dict String QuarantineRecord) (observed : Dict String InventoryDevice)
      (fresh : Bool) (epoch now : ℕ) (known : Dict String KnownDevice)
      → All
          (λ (d : DeviceHealth).
            d.health ≡ status_healthy → IsSound quarantined observed fresh d.device_name)
          (report_devices cfg env quarantined observed fresh epoch now known)
  unfolding report_devices
  report_devices-IsSound quarantined observed fresh epoch now [] = tt
  report_devices-IsSound quarantined observed fresh epoch now ((name, k) ∷ rest) = (
    health_of-IsSound quarantined observed fresh name,
    report_devices-IsSound quarantined observed fresh epoch now rest,
  )

  -- The report names every known device, in order, and a device that it calls healthy was seen in the
  -- last observation.
  pub record IsReport (m : Manager) (devices : List DeviceHealth) : Type 0 where
    pub names : map (λ (d : DeviceHealth). d.device_name) devices ≡ keys m.known
    pub sound :
        All
          (λ (d : DeviceHealth).
            d.health ≡ status_healthy
            → IsSound m.quarantined
                (by_name cfg env m.last_snapshot.devices [])
                (is_none (inventory_fresh cfg env m.last_snapshot m).0)
                d.device_name)
          devices

  -- The health report names exactly the known devices; each device reported healthy was observed as
  -- safe by the last observation, which is still fresh, and has no reason to be in quarantine.
  pub device_health_snapshot-IsReport :
      (epoch now : ℕ) (m : Manager) → IsReport m (device_health_snapshot cfg env epoch now m).0
  unfolding device_health_snapshot
  device_health_snapshot-IsReport epoch now m = record {
    names =
        names_reported m.quarantined (by_name cfg env m.last_snapshot.devices []) _ epoch now
          m.known;
    sound =
        report_devices-IsSound m.quarantined (by_name cfg env m.last_snapshot.devices []) _ epoch
          now m.known;
  }
