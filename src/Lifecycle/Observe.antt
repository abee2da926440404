-- ===== src/Lifecycle/Observe.antt =====
-- internal/lifecycle/janitor.go: `observeLocked`, `Monitor` and `InventoryFailed`.
pub mod Grows
pub mod Known
pub mod Fenced
use tenstorrent_dra_framewor.Base.{
  ℕ, String, ◌<>◌, Bool, true, false, not, ◌&&◌, ◌||◌, List, [], ◌∷◌, Option, none, some, ◌==◌,
  string_eq, nat_eq, if◌then◌else◌,
}
use tenstorrent_dra_framewor.Base.Dict.{Dict, lookup, insert, erase, has}
use tenstorrent_dra_framewor.Device.{InventoryDevice, InventorySnapshot}
use tenstorrent_dra_framewor.Lifecycle.State.{
  QuarantineRecord, KnownDevice, Env, Config, Manager, M, join, now, persist, lock_and_reload,
  dra_name, set_quarantined, set_known,
}
use tenstorrent_dra_framewor.Lifecycle.Janitor.{
  Safety, device_unsafe_reason, device_owners, owner_of, claim_for_owner, health_action,
  plain_event, filter_snapshot, safety_for, inventory_fresh, audit, quarantine, sanitize,
}

-- What the callers get: the filtered snapshot, the safety and the error.
pub record Report : Type 0 where
  pub filtered : InventorySnapshot
  pub safety : Safety
  pub error : Option String

module _ (cfg : Config) (env : Env) where
  -- The loop over `Known` that finds another device on the path.
  unfoldable pub check_path : String → String → Dict String KnownDevice → M (Option String)
  unfolding quarantine
  check_path name path [] m = (none, m)
  check_path name path ((prior_name, prior) ∷ rest) m =
      let found : Option String × Manager =
        if not (prior_name == name) && prior.path == path
        then quarantine cfg env name path "hardware identity changed on device path" none "hotplug"
            m
        else (none, m) in
      let others = check_path name path rest found.1 in (join found.0 others.0, others.1)

  -- `Known[name]` is written, and an unsafe device is quarantined.
  unfoldable pub observe_health : ℕ → Dict String String → InventoryDevice → M (Option String)
  unfolding quarantine device_unsafe_reason claim_for_owner
  observe_health observed_at owners item m =
      let name = dra_name env item in
      let m₁ =
        set_known (insert name (record { path = item.node.path; last_seen = observed_at }) m.known)
          m in
      let reason = device_unsafe_reason cfg item in
      let owner = owner_of name owners in
      if reason == ""
      then (none, m₁)
      else quarantine cfg env name item.node.path reason (claim_for_owner m₁ owner)
          (health_action owner) m₁

  -- The body of the loop over the observed devices.
  unfoldable pub observe_item : ℕ → Dict String String → Bool → InventoryDevice → M (Option String)
  unfolding check_path observe_health
  observe_item observed_at owners recover_idle item m =
      let name = dra_name env item in
      let path = item.node.path in
      let fresh : Option String × Manager =
        if not (has name m.known) && recover_idle
        then quarantine cfg env name path "new device requires sanitization" none "hotplug" m
        else (none, m) in
      let moved = check_path name path (fresh.1).known fresh.1 in
      let health = observe_health observed_at owners item moved.1 in
      (join fresh.0 (join moved.0 health.0), health.1)

  unfoldable pub observe_items :
      ℕ → Dict String String → Bool → List InventoryDevice → M (Option String)
  unfolding observe_item
  observe_items observed_at owners recover_idle [] m = (none, m)
  observe_items observed_at owners recover_idle (item ∷ items) m =
      let first = observe_item observed_at owners recover_idle item m in
      let rest = observe_items observed_at owners recover_idle items first.1 in
      (join first.0 rest.0, rest.1)

  -- The loop over `Known` for devices that are gone.
  unfoldable pub observe_missing :
      Dict String InventoryDevice → Dict String String → Dict String KnownDevice → M (Option String)
  unfolding quarantine claim_for_owner lookup
  observe_missing observed owners [] m = (none, m)
  observe_missing observed owners ((name, known) ∷ rest) m =
      let owner = owner_of name owners in
      let found : Option String × Manager =
        if has name observed
        then (none, m)
        else quarantine cfg env name known.path "device is no longer observed"
            (claim_for_owner m owner) (health_action owner) m in
      let others = observe_missing observed owners rest found.1 in (join found.0 others.0, others.1)

  awaiting : ℕ → QuarantineRecord
  awaiting since = record {
    reason = "awaiting healthy observation after sanitization";
    since = since;
    awaiting_health = true;
  }

  -- The reset of an idle quarantined device.
  unfoldable pub recover_reset : String → InventoryDevice → QuarantineRecord → M (Option String)
  unfolding sanitize device_unsafe_reason awaiting insert
  recover_reset name item r m =
      let (error, m₁) = sanitize cfg env "recovery-sanitize" name item.node.path none m in
      elim error [
        | some e ↦ (some e, m₁)
        | none ↦ (
          none,
          if device_unsafe_reason cfg item == ""
              then m₁
              else set_quarantined (insert name (awaiting r.since) m₁.quarantined) m₁,
        )
      ]

  -- A sanitized device that is seen healthy again.
  unfoldable pub recover_healthy : String → InventoryDevice → M (Option String)
  unfolding audit erase
  recover_healthy name item m =
      let (time, m₁) = now env m in
      let (error, m₂) =
        audit cfg env
          (record (plain_event "recovery-health" "success" name item.node.path "") { time = time })
          none m₁ in
      elim error [
        | some e ↦ (some e, m₂)
        | none ↦ (none, set_quarantined (erase name m₂.quarantined) m₂)
      ]

  -- The body of the loop that recovers idle devices.
  unfoldable pub recover_device : Dict String String → String → InventoryDevice → M (Option String)
  unfolding recover_reset recover_healthy lookup
  recover_device owners name item m = elim (lookup name m.quarantined) [
    | none ↦ (none, m)
    | some r ↦
        if not (owner_of name owners == "") || not item.character_device_present
        then (none, m)
        else if r.awaiting_health && device_unsafe_reason cfg item == ""
        then recover_healthy name item m
        else recover_reset name item r m
  ]

  unfoldable pub recover_devices :
      Dict String String → Dict String InventoryDevice → M (Option String)
  unfolding recover_device
  recover_devices owners [] m = (none, m)
  recover_devices owners ((name, item) ∷ rest) m =
      let first = recover_device owners name item m in
      let others = recover_devices owners rest first.1 in (join first.0 others.0, others.1)

  -- The map `observed`: a later device replaces an earlier one of its name.
  unfoldable pub by_name :
      List InventoryDevice → Dict String InventoryDevice → Dict String InventoryDevice
  unfolding insert
  by_name [] observed = observed
  by_name (item ∷ items) observed = by_name items (insert (dra_name env item) item observed)

  -- `observeLocked`
  unfoldable pub observe : InventorySnapshot → Bool → M Report
  unfolding observe_items observe_missing recover_devices by_name filter_snapshot safety_for
      device_owners
  observe s recover_idle m =
      let owners = device_owners m in
      let observed = by_name s.devices [] in
      let (e₁, m₁) = observe_items s.observed_at owners recover_idle s.devices m in
      let (e₂, m₂) = observe_missing observed owners m₁.known m₁ in
      let recovery : Option String × Manager =
        if recover_idle then recover_devices owners observed m₂ else (none, m₂) in
      let m₃ = recovery.1 in
      let filtered = filter_snapshot env m₃.quarantined s in
      (
        record {
          filtered = filtered;
          safety = safety_for env filtered m₃.known m₃.quarantined;
          error = join (join e₁ e₂) recovery.0;
        },
        m₃,
      )

  -- The loop of `inventoryFailedLocked` that quarantines every known device.
  unfoldable pub quarantine_known : String → Dict String KnownDevice → M (Option String)
  unfolding quarantine
  quarantine_known reason [] m = (none, m)
  quarantine_known reason ((name, known) ∷ rest) m =
      let first = quarantine cfg env name known.path reason none "inventory" m in
      let others = quarantine_known reason rest first.1 in (join first.0 others.0, others.1)

  degraded : String → M Report
  unfolding filter_snapshot safety_for audit
  degraded reason m =
      let filtered = filter_snapshot env m.quarantined m.last_snapshot in
      let safety = safety_for env filtered m.known m.quarantined in
      let (error, m') = audit cfg env (plain_event "inventory" "degraded" "" "" reason) none m in
      (
        record {
          filtered = filtered;
          safety = record safety {
            reason = "InventoryDegraded";
            message = reason <> "; using last fresh observation";
          };
          error = error;
        },
        m',
      )

  fenced : String → M Report
  unfolding quarantine_known safety_for persist
  fenced reason m =
      let (e₁, m₁) = quarantine_known reason m.known m in
      let (time, m₂) = now env m₁ in
      let s : InventorySnapshot = record { devices = []; observed_at = time } in
      let safety = safety_for env s m₂.known m₂.quarantined in
      let (e₂, m₃) = persist env m₂ in
      (record { filtered = s; safety = safety; error = join e₁ e₂ }, m₃)

  -- `inventoryFailedLocked`
  unfoldable pub inventory_failed_locked : Option String → M Report
  unfolding degraded fenced inventory_fresh
  inventory_failed_locked error m =
      let reason : String = elim error [
        | none ↦ "inventory unavailable"
        | some e ↦ "inventory unavailable: " <> e
      ] in
      let (stale, m') = inventory_fresh cfg env m.last_snapshot m in
      elim stale [ none ↦ degraded reason m' | some _ ↦ fenced reason m' ]

  abbrev no_safety : Safety
  no_safety = record { unsafe = false; healthy = 0; total = 0; reason = ""; message = "" }

  abbrev no_report : Option String → Report
  no_report e = record {
    filtered = record { devices = []; observed_at = 0 };
    safety = no_safety;
    error = e;
  }

  monitor_fresh : InventorySnapshot → M Report
  unfolding observe persist
  monitor_fresh s m =
      let (report, m₁) = observe s true m in
      let (e, m₂) = persist env (record m₁ { last_snapshot = s }) in
      (record report { error = join report.error e }, m₂)

  -- `Monitor`
  unfoldable pub monitor : InventorySnapshot → M Report
  unfolding monitor_fresh inventory_failed_locked lock_and_reload
  monitor s m =
      let (locked, m₁) = lock_and_reload env m in
      let (stale, m₂) = inventory_fresh cfg env s m₁ in
      elim locked [
        | some e ↦ (no_report (some e), m₁)
        | none ↦ elim stale [
          | some e ↦ inventory_failed_locked (some e) m₂
          | none ↦ monitor_fresh s m₂
        ]
      ]

  -- `InventoryFailed`
  unfoldable pub inventory_failed : String → M Report
  unfolding inventory_failed_locked lock_and_reload
  inventory_failed error m =
      let (locked, m₁) = lock_and_reload env m in
      elim locked [
        | some e ↦ (no_report (some e), m₁)
        | none ↦ inventory_failed_locked (some error) m₁
      ]
