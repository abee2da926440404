-- ===== src/Device/Snapshot.antt =====
-- internal/device/normalize.go: eligibility, `normalize` and `BuildSnapshot`. The provider is in the
-- source an interface; here it is what it answers.
pub mod Certified
pub mod Identified
use tenstorrent_dra_framewor.Base.{
  ℕ, String, ◌<>◌, Bool, true, false, not, ◌&&◌, ◌||◌, List, [], ◌∷◌, Option, none, some, ◌==◌,
  string_eq, if◌then◌else◌, map, ◌⊎◌, inl, inr, text_lt,
}
use tenstorrent_dra_framewor.Base.Dict.{Dict}
use tenstorrent_dra_framewor.Base.Int.{ℤ, pos}
use tenstorrent_dra_framewor.Base.Sort.{sort}
use tenstorrent_dra_framewor.Base.Text.{trim_space, to_lower, show_int, join}
use tenstorrent_dra_framewor.Device.{
  HealthState, healthy, unhealthy, unknown, health_text, is_healthy, InventoryDevice,
  InventorySnapshot,
}
use tenstorrent_dra_framewor.Device.Numbers.{parse_uint, parse_int}
use tenstorrent_dra_framewor.Device.Normalize.{
  RawDevice, tenstorrent_pci_vendor, value_of, first_value, normalize_chip, chip_series_from_pci,
  normalize_health, pci_identity, valid_hardware_id, supported_kmd, supported_firmware,
  supported_kernel, same_ℤ, malformed_observed_number, validate_raw_values,
}

abbrev pub supported_driver_abi : ℤ
supported_driver_abi = pos 2

-- The tests of `eligibility` on the device, in their order, with their reasons.
unfoldable pub requirements : InventoryDevice → List (Bool × String)
unfolding valid_hardware_id supported_kmd supported_firmware supported_kernel
    malformed_observed_number
requirements device =
    (device.character_device_present, "character device is missing")
    ∷ (is_healthy device.health, "device health is " <> health_text device.health)
    ∷ (
      device.pci.vendor == "" || device.pci.vendor == tenstorrent_pci_vendor,
      "PCI vendor is not Tenstorrent",
    )
    ∷ (not (device.pci.bdf == "" || device.pci.vendor == ""), "PCI identity is incomplete")
    ∷ (valid_hardware_id device.hardware_uuid, "stable hardware UUID is missing or malformed")
    ∷ (
      device.chip_series == "wormhole" || device.chip_series == "blackhole",
      "chip identity is not Wormhole or Blackhole",
    )
    ∷ (supported_kmd device.kmd_version, "unsupported tt-kmd version " <> device.kmd_version)
    ∷ (
      supported_firmware device.firmware_version,
      "unsupported firmware version " <> device.firmware_version,
    )
    ∷ (
      same_ℤ device.driver_abi_version supported_driver_abi,
      "unsupported device ABI " <> show_int device.driver_abi_version,
    )
    ∷ (
      supported_kernel device.kernel_version,
      "unsupported kernel version " <> device.kernel_version,
    )
    ∷ (not (malformed_observed_number device), "critical numeric sysfs value is malformed")
    ∷ []

-- The first test that fails decides, as the first case of the `switch`.
unfoldable pub first_failure : List (Bool × String) → Bool × String
first_failure [] = (true, "")
first_failure ((ok, reason) ∷ checks) =
    let rest = first_failure checks in if ok then rest else (false, reason)

-- `eligibility`
unfoldable pub eligibility : InventoryDevice → Option String → Bool × String
unfolding requirements first_failure
eligibility device error = elim error as (λ _. Bool × String) [
  | some e ↦ (false, "discovery: " <> e)
  | none ↦ first_failure (requirements device)
]

-- The literal of `normalize`.
unfoldable pub observed_device : RawDevice → InventoryDevice
unfolding first_value value_of parse_uint parse_int normalize_chip chip_series_from_pci
    normalize_health pci_identity trim_space
observed_device raw =
    let pci = pci_identity raw.values in
    let named = normalize_chip (value_of raw.values "architecture") in
    record {
      stable_id = raw.id;
      hardware_uuid = first_value raw.values ("device_uuid" ∷ "serial_number" ∷ []);
      node = raw.node;
      character_device_present = raw.character_device_present;
      pci = pci;
      chip_series = if named == "" then chip_series_from_pci pci else named;
      firmware_version = first_value raw.values ("tt_fw_bundle_ver" ∷ "firmware_version" ∷ []);
      kmd_version = first_value raw.values ("kmd_version" ∷ "driver_version" ∷ []);
      driver_abi_version = parse_int (value_of raw.values "driver_abi_version");
      kernel_version = trim_space (value_of raw.values "kernel_version");
      total_bytes = parse_uint (value_of raw.values "memory_capacity_bytes");
      available_bytes = parse_uint (value_of raw.values "memory_available_bytes");
      tensix_cores = parse_uint (value_of raw.values "tensix_cores_total");
      health = normalize_health (value_of raw.values "health");
      fault_code = value_of raw.values "fault_code";
      fault_message = "";
      fabric = record {
        fabric_id = first_value raw.values ("fabric_id" ∷ "fabric_domain" ∷ []);
        ring_id = first_value raw.values ("ring_id" ∷ "fabric_ring" ∷ []);
        endpoint_id = first_value raw.values ("fabric_endpoint" ∷ "fabric_endpoint_id" ∷ []);
        links = raw.fabric_links;
      };
      eligible = false;
      rejection_reason = "";
    }

-- The stable id of a device with a hardware uuid.
unfoldable pub with_uuid : InventoryDevice → InventoryDevice
unfolding to_lower
with_uuid device =
    if device.hardware_uuid == ""
    then device
    else record device { stable_id = "uuid-" <> to_lower device.hardware_uuid }

abbrev pub faulted : HealthState → HealthState
faulted healthy = unhealthy
faulted unhealthy = unhealthy
faulted unknown = unknown

-- A fault makes a healthy device unhealthy.
unfoldable pub with_fault : InventoryDevice → InventoryDevice
with_fault device =
    if device.fault_code == "" || device.fault_code == "0" then device else record device {
      fault_message = "non-zero hardware fault code";
      health = faulted device.health;
    }

-- `normalize`
unfoldable pub normalize : RawDevice → InventoryDevice
unfolding observed_device with_uuid with_fault eligibility validate_raw_values join
normalize raw =
    let device = with_fault (with_uuid (observed_device raw)) in
    let errors = join raw.discovery_error (validate_raw_values raw.values) in
    let (eligible, reason) = eligibility device errors in
    record device {
      eligible = eligible;
      rejection_reason = reason;
      node = record device.node { chip_series = device.chip_series };
    }

unfoldable pub mark_duplicate : InventoryDevice → InventoryDevice
mark_duplicate device = record device {
  eligible = false;
  rejection_reason = "duplicate stable identity";
}

-- The loop of `markDuplicateIdentities` from a device on.
unfoldable pub mark_from : InventoryDevice → List InventoryDevice → List InventoryDevice
unfolding mark_duplicate
mark_from previous [] = previous ∷ []
mark_from previous (device ∷ devices) =
    let same = mark_duplicate previous ∷ mark_from (mark_duplicate device) devices in
    let differ = previous ∷ mark_from device devices in
    if device.stable_id == previous.stable_id then same else differ

-- `markDuplicateIdentities`
unfoldable pub mark_duplicate_identities : List InventoryDevice → List InventoryDevice
unfolding mark_from
mark_duplicate_identities [] = []
mark_duplicate_identities (device ∷ devices) = mark_from device devices

pub data Provider : Type 0 where
  no_provider : Provider
  failing : String → Provider
  observing : List RawDevice → Provider

-- The order of `sort.Slice`.
abbrev pub id_before : InventoryDevice → InventoryDevice → Bool
id_before a b = text_lt a.stable_id b.stable_id

-- `BuildSnapshot` at a time: the error, or the snapshot.
unfoldable pub build_snapshot : Provider → ℕ → String ⊎ InventorySnapshot
unfolding normalize mark_duplicate_identities sort
build_snapshot no_provider time = inl "inventory provider is nil"
build_snapshot (failing e) time = inl e
build_snapshot (observing raws) time = inr (record {
  devices = mark_duplicate_identities (sort id_before (map normalize raws));
  observed_at = time;
})
