-- ===== src/Lifecycle/Janitor.antt =====
-- internal/lifecycle/janitor.go: quarantine, sanitizing, the watch over the hardware, and the node's
-- safety. Logs, metrics and the event sink only watch and are left out.
pub mod Quarantined
pub mod Published
use tenstorrent_dra_framewor.Base.{
  ℕ, suc, ◌+◌, ◌-◌, String, ◌<>◌, Bool, true, false, not, ◌&&◌, ◌||◌, List, [], ◌∷◌, ◌++◌, Option,
  none, some, ◌==◌, string_eq, nat_eq, if◌then◌else◌, leb, ltb, map, length,
}
use tenstorrent_dra_framewor.Base.Int.{ℤ, pos, ltb_ℤ, leb_ℤ}
use tenstorrent_dra_framewor.Base.Text.{show, show_int, trim_space, to_lower}
use tenstorrent_dra_framewor.Base.Dict.{Dict, lookup, insert, erase, has}
use tenstorrent_dra_framewor.Device.{
  FabricLink, InventoryDevice, InventorySnapshot, HealthState, health_text, is_healthy,
}
use tenstorrent_dra_framewor.Lifecycle.State.{
  ClaimDevice, PreparedClaim, QuarantineRecord, KnownDevice, AuditEvent, Written, write_error,
  has_content, Env, Config, Manager, M, tick, join, wrap, now, persist, lock_and_reload, dra_name,
  set_quarantined, set_known,
}

pub record Safety : Type 0 where
  pub unsafe : Bool
  pub healthy : ℕ
  pub total : ℕ
  pub reason : String
  pub message : String

-- The loop over the fabric links.
unfoldable pub link_fault : List FabricLink → String
unfolding to_lower trim_space
link_fault [] = ""
link_fault (link ∷ links) =
    let state = to_lower (trim_space link.state) in
    let rest = link_fault links in
    if not (state == "") && not (state == "up")
    then "fabric link " <> (link.name <> (" is " <> link.state))
    else rest

-- A nonzero fault code.
abbrev pub has_fault : InventoryDevice → Bool
has_fault item = not (item.fault_code == "") && not (item.fault_code == "0")

-- `deviceUnsafeReason`: "" for a safe device.
unfoldable pub device_unsafe_reason : Config → InventoryDevice → String
unfolding link_fault show_int
device_unsafe_reason cfg item =
    if not item.character_device_present
    then "character device is unavailable"
    else if not item.eligible && not (item.rejection_reason == "")
    then item.rejection_reason
    else if not item.eligible
    then "device is ineligible"
    else if not (is_healthy item.health)
    then "device health is " <> health_text item.health
    else if has_fault item
    then "hardware fault " <> item.fault_code
    else if cfg.require_iommu && ltb_ℤ item.pci.iommu_group (pos 0)
    then "device has no IOMMU group"
    else if cfg.require_iommu
        && not (leb_ℤ item.pci.iommu_group_size (pos 1) && leb_ℤ (pos 1) item.pci.iommu_group_size)
    then "IOMMU group "
      <> (show_int item.pci.iommu_group
          <> (" contains " <> (show_int item.pci.iommu_group_size <> " devices")))
    else link_fault item.fabric.links

-- `deviceOwners`: the claims' uids by device, of any phase; a later claim wins.
own_devices : String → List ClaimDevice → Dict String String → Dict String String
unfolding insert
own_devices uid [] owners = owners
own_devices uid (item ∷ items) owners = own_devices uid items (insert item.device uid owners)

unfoldable pub owners_of : Dict String PreparedClaim → Dict String String → Dict String String
unfolding own_devices
owners_of [] owners = owners
owners_of ((uid, claim) ∷ claims) owners = owners_of claims (own_devices uid claim.devices owners)

unfoldable pub device_owners : Manager → Dict String String
unfolding owners_of
device_owners m = owners_of m.claims []

-- `owners[name]`, which is "" for a missing entry.
abbrev pub owner_of : String → Dict String String → String
owner_of name owners = elim (lookup name owners) [ none ↦ "" | some uid ↦ uid ]

-- `claimForOwner`
unfoldable pub claim_for_owner : Manager → String → Option PreparedClaim
unfolding lookup
claim_for_owner m uid = if uid == "" then none else lookup uid m.claims

abbrev pub health_action : String → String
health_action owner = if not (owner == "") then "active-health" else "idle-health"

abbrev pub plain_event : String → String → String → String → String → AuditEvent
plain_event action outcome device path reason = record {
  time = 0;
  action = action;
  outcome = outcome;
  device = device;
  path = path;
  claim_uid = "";
  namespace = "";
  claim_name = "";
  reason = reason;
}

-- The identity of the claim goes into the event.
abbrev about_claim : Option PreparedClaim → AuditEvent → AuditEvent
about_claim none event = event
about_claim (some claim) event = record event {
  claim_uid = claim.uid;
  namespace = claim.namespace;
  claim_name = claim.name;
}

-- `filterLocked`
unfoldable pub filter_device :
    Env → Dict String QuarantineRecord → InventoryDevice → InventoryDevice
unfolding lookup
filter_device env quarantined item = elim (lookup (dra_name env item) quarantined) [
  | none ↦ item
  | some r ↦ record item { eligible = false; rejection_reason = "quarantined: " <> r.reason }
]

unfoldable pub filter_snapshot :
    Env → Dict String QuarantineRecord → InventorySnapshot → InventorySnapshot
unfolding filter_device
filter_snapshot env quarantined s = record s {
  devices = map (filter_device env quarantined) s.devices;
}

-- The count of `safetyFor`.
unfoldable pub count_healthy : Env → Dict String QuarantineRecord → List InventoryDevice → ℕ
unfolding lookup
count_healthy env quarantined [] = 0
count_healthy env quarantined (item ∷ items) =
    let rest = count_healthy env quarantined items in
    if not (has (dra_name env item) quarantined) && (item.eligible && is_healthy item.health)
    then suc rest
    else rest

-- `safetyFor`
unfoldable pub safety_for :
    Env → InventorySnapshot → Dict String KnownDevice → Dict String QuarantineRecord → Safety
unfolding count_healthy show
safety_for env s known quarantined =
    let healthy = count_healthy env quarantined s.devices in
    let total = length known in
    let of_total = " of " <> (show total <> " Tenstorrent devices are healthy and available") in
    if healthy == 0
    then record {
      unsafe = true;
      healthy = healthy;
      total = total;
      reason = "NoHealthyDevices";
      message = "0" <> of_total;
    }
    else record {
      unsafe = false;
      healthy = healthy;
      total = total;
      reason = "DevicesHealthy";
      message = show healthy <> of_total;
    }

module _ (cfg : Config) (env : Env) where
  -- `inventoryFresh`; a second is 10⁹ nanoseconds.
  unfoldable pub inventory_fresh : InventorySnapshot → M (Option String)
  inventory_fresh s m =
      if s.observed_at == 0
      then (some "inventory observation time is missing", m)
      else let (t, m') = now env m in
        (
          if ltb (t + 5000000000) s.observed_at
              then some "inventory observation time is in the future"
              else if ltb (s.observed_at + cfg.max_inventory_age) t
              then some
                  ("inventory observation is stale by " <> env.duration_text (t - s.observed_at))
              else none,
          m',
        )

  -- `auditLocked`
  unfoldable pub audit : AuditEvent → Option PreparedClaim → M (Option String)
  audit event claim m =
      let stamped : AuditEvent × Manager =
        if event.time == 0 then (record event { time = env.now m.clock }, tick m) else (event, m) in
      let full = about_claim claim stamped.0 in
      let m₁ = stamped.1 in
      let w = env.audit m₁.clock in
      let m₂ = tick m₁ in
      (
        write_error w,
        record m₂ { audit_log = if has_content w then m.audit_log ++ (full ∷ []) else m.audit_log },
      )

  -- `quarantineLocked`, where the device has no record with this reason.
  unfoldable pub quarantine_new :
      String
      → String
      → String
      → Option PreparedClaim
      → String
      → Option QuarantineRecord
      → M (Option String)
  unfolding audit insert
  quarantine_new name path reason claim action current m =
      let (first, m₁) = now env m in
      let since : ℕ = elim current [ none ↦ first | some r ↦ r.since ] in
      let m₂ =
        set_quarantined
          (insert name (record { reason = reason; since = since; awaiting_health = false })
            m₁.quarantined)
          m₁ in
      let (time, m₃) = now env m₂ in
      audit (record (plain_event action "quarantined" name path reason) { time = time }) claim m₃

  -- `quarantineLocked`
  unfoldable pub quarantine :
      String → String → String → Option PreparedClaim → String → M (Option String)
  unfolding quarantine_new lookup
  quarantine name path reason claim action m = elim (lookup name m.quarantined) [
    | none ↦ quarantine_new name path reason claim action none m
    | some current ↦
        if current.reason == reason
        then (none, m)
        else quarantine_new name path reason claim action (some current) m
  ]

  sanitize_failure : Option String → Option String → String
  sanitize_failure (some e) audit_error = "sanitization failed: " <> e
  sanitize_failure none (some e) = "sanitization failed: audit record failed: " <> e
  sanitize_failure none none = "sanitization failed"

  sanitize_event : String → String → String → Option String → AuditEvent
  sanitize_event action name path none = plain_event action "success" name path ""
  sanitize_event action name path (some e) = plain_event action "failure" name path e

  -- The record of a device that could not be sanitized.
  failed_record : String → ℕ → Option QuarantineRecord → QuarantineRecord
  failed_record reason time none = record { reason = reason; since = time; awaiting_health = false }
  failed_record reason time (some current) = record current { reason = reason }

  -- The end of `sanitizeLocked`, from the errors of the reset and of the audit.
  unfoldable pub settle : String → Option String → Option String → M (Option String)
  unfolding insert erase lookup sanitize_failure failed_record
  settle name none none m = (none, set_quarantined (erase name m.quarantined) m)
  settle name reset_error audit_error m =
      let (time, m₁) = now env m in
      let r =
        failed_record (sanitize_failure reset_error audit_error) time (lookup name m.quarantined) in
      (
        join reset_error audit_error,
        set_quarantined (insert name r m₁.quarantined) (if has name m.quarantined then m else m₁),
      )

  -- `sanitizeLocked`
  unfoldable pub sanitize : String → String → String → Option PreparedClaim → M (Option String)
  unfolding settle audit sanitize_event
  sanitize action name path claim m =
      let error = env.reset m.clock path in
      let (time, m₁) = now env (tick m) in
      let event = sanitize_event action name path error in
      let (audit_error, m₂) = audit (record event { time = time }) claim m₁ in
      settle name error audit_error m₂
