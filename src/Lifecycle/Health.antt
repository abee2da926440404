-- ===== src/Lifecycle/Health.antt =====
-- internal/lifecycle/health.go: the device health that the kubelet gets. The stream itself is gRPC and
-- left out; a time goes out in seconds.
pub mod Reported
use tenstorrent_dra_framewor.Base.{
  ℕ, ◌+◌, ◌-◌, ◌/◌, String, Bool, true, false, not, ◌&&◌, ◌||◌, List, [], ◌∷◌, Option, none, some,
  ◌==◌, string_eq, nat_eq, if◌then◌else◌, leb, ltb,
}
use tenstorrent_dra_framewor.Base.Dict.{Dict, lookup}
use tenstorrent_dra_framewor.Device.{InventoryDevice, HealthState, healthy, unhealthy, unknown}
use tenstorrent_dra_framewor.Lifecycle.State.{
  QuarantineRecord, KnownDevice, Env, Config, Manager, M,
}
use tenstorrent_dra_framewor.Lifecycle.Janitor.{device_unsafe_reason, inventory_fresh}
use tenstorrent_dra_framewor.Lifecycle.Observe.{by_name}

pub data HealthStatus : Type 0 where
  status_unknown status_unhealthy status_healthy : HealthStatus

-- `DeviceHealth`
pub record DeviceHealth : Type 0 where
  pub pool_name : String
  pub device_name : String
  pub health : HealthStatus
  pub last_updated : ℕ

abbrev pub is_unknown : HealthState → Bool
is_unknown healthy = false
is_unknown unhealthy = false
is_unknown unknown = true

-- `m.state.Quarantined[name].Reason`, which is "" for a missing record.
abbrev pub quarantine_reason : String → Dict String QuarantineRecord → String
quarantine_reason name quarantined = elim (lookup name quarantined) [
  | none ↦ ""
  | some r ↦ r.reason
]

module _ (cfg : Config) (env : Env) where
  -- The status of an observed device.
  unfoldable pub status_of : Dict String QuarantineRecord → String → InventoryDevice → HealthStatus
  unfolding device_unsafe_reason lookup
  status_of quarantined name item =
      if is_unknown item.health
      then status_unknown
      else if not (device_unsafe_reason cfg item == "")
      then status_unhealthy
      else if not (quarantine_reason name quarantined == "")
      then status_unhealthy
      else status_healthy

  unfoldable pub health_of :
      Dict String QuarantineRecord → Dict String InventoryDevice → Bool → String → HealthStatus
  unfolding status_of lookup
  health_of quarantined observed fresh name = elim (lookup name observed) as (λ _. HealthStatus) [
    | none ↦ status_unknown
    | some item ↦ if fresh then status_of quarantined name item else status_unknown
  ]

  -- The loop over `Known`; the Unix time of Go's zero time is negative, so it counts as missing.
  unfoldable pub report_devices :
      Dict String QuarantineRecord
      → Dict String InventoryDevice
      → Bool
      → ℕ
      → ℕ
      → Dict String KnownDevice
      → List DeviceHealth
  unfolding health_of
  report_devices quarantined observed fresh epoch now [] = []
  report_devices quarantined observed fresh epoch now ((name, known) ∷ rest) =
      record {
        pool_name = cfg.node_name;
        device_name = name;
        health = health_of quarantined observed fresh name;
        last_updated =
            (if ltb known.last_seen (epoch + 1000000000) || ltb now known.last_seen
              then now - epoch
              else known.last_seen - epoch)
            / 1000000000;
      }
      ∷ report_devices quarantined observed fresh epoch now rest

  -- `deviceHealthSnapshotLocked`; `epoch` is the Unix epoch.
  unfoldable pub device_health_snapshot : ℕ → ℕ → M (List DeviceHealth)
  unfolding report_devices by_name inventory_fresh
  device_health_snapshot epoch now m =
      let observed = by_name cfg env m.last_snapshot.devices [] in
      let (stale, m₁) = inventory_fresh cfg env m.last_snapshot m in
      let fresh : Bool = elim stale [ none ↦ true | some e ↦ false ] in
      (report_devices m.quarantined observed fresh epoch now m.known, m₁)
