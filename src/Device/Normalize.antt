-- ===== src/Device/Normalize.antt =====
-- internal/device/normalize.go: raw observations into the inventory. `Provenance` is left out; a text of
-- sysfs is ASCII, so that its characters are its bytes.
use Prim.Native.Char.{Char, code}
use text.Mathlib.Text.{starts_with}
use tenstorrent_dra_framewor.Base.{
  String, ◌<>◌, Bool, true, false, not, ◌&&◌, ◌||◌, List, [], ◌∷◌, Option, none, some, ◌==◌,
  string_eq, nat_eq, if◌then◌else◌, ltb, leb,
}
use tenstorrent_dra_framewor.Base.Dict.{Dict, lookup}
use tenstorrent_dra_framewor.Base.Int.{ℤ, pos, leb_ℤ}
use tenstorrent_dra_framewor.Base.Text.{trim_space, to_lower, text_length, show_hex}
use tenstorrent_dra_framewor.Device.{
  HealthState, healthy, unhealthy, unknown, Node, PciIdentity, FabricLink, InventoryDevice,
}
use tenstorrent_dra_framewor.Device.Numbers.{
  parse_uint64, parse_prefixed, atoi, parse_int, parse_optional_int, split_at_most, split,
}

pub record RawDevice : Type 0 where
  pub id : String
  pub node : Node
  pub character_device_present : Bool
  pub values : Dict String String
  pub fabric_links : List FabricLink
  pub discovery_error : Option String

abbrev pub tenstorrent_pci_vendor : String
tenstorrent_pci_vendor = "0x1e52"

abbrev pub wormhole_pci_device : String
wormhole_pci_device = "0x401e"

abbrev pub blackhole_pci_device : String
blackhole_pci_device = "0xb140"

-- `values[key]`
unfoldable pub value_of : Dict String String → String → String
unfolding lookup
value_of values key = elim (lookup key values) as (λ _. String) [ none ↦ "" | some v ↦ v ]

-- `firstValue`
unfoldable pub first_value : Dict String String → List String → String
unfolding value_of trim_space
first_value values [] = ""
first_value values (key ∷ keys) =
    let value = trim_space (value_of values key) in
    let rest = first_value values keys in if value == "" then rest else value

-- `normalizeChip`
unfoldable pub normalize_chip : String → String
unfolding to_lower trim_space
normalize_chip value =
    let normalized = to_lower (trim_space value) in
    if normalized == "wormhole" || normalized == "wh"
    then "wormhole"
    else if normalized == "blackhole" || normalized == "bh"
    then "blackhole"
    else normalized

-- `chipSeriesFromPCI`
unfoldable pub chip_series_from_pci : PciIdentity → String
chip_series_from_pci identity =
    if not (identity.vendor == tenstorrent_pci_vendor)
    then ""
    else if identity.device == wormhole_pci_device
    then "wormhole"
    else if identity.device == blackhole_pci_device
    then "blackhole"
    else ""

-- `normalizeHealth`
unfoldable pub normalize_health : String → HealthState
unfolding to_lower trim_space
normalize_health value =
    let state = to_lower (trim_space value) in
    if state == "healthy" || (state == "ok" || (state == "ready" || state == "available"))
    then healthy
    else if state == "unhealthy" || (state == "failed" || (state == "fault" || state == "offline"))
    then unhealthy
    else unknown

-- `normalizeHex`
unfoldable pub normalize_hex : String → String
unfolding to_lower trim_space parse_uint64 show_hex
normalize_hex raw =
    let value = trim_space (to_lower raw) in
    let (parsed, ok) = parse_uint64 16 value in
    if value == "" || starts_with value "0x"
    then value
    else if ok
    then "0x" <> show_hex parsed
    else value

-- `pciIdentity`
unfoldable pub pci_identity : Dict String String → PciIdentity
unfolding first_value normalize_hex value_of parse_int parse_optional_int
pci_identity values = record {
  bdf = first_value values ("pci.uevent.PCI_SLOT_NAME" ∷ "pci.PCI_SLOT_NAME" ∷ "pci.bdf" ∷ []);
  vendor = normalize_hex (value_of values "pci.vendor");
  device = normalize_hex (value_of values "pci.device");
  subsystem_vendor = normalize_hex (value_of values "pci.subsystem_vendor");
  subsystem_device = normalize_hex (value_of values "pci.subsystem_device");
  revision = normalize_hex (value_of values "pci.revision");
  numa_node = parse_optional_int (value_of values "pci.numa_node");
  iommu_group = parse_optional_int (value_of values "pci.iommu_group");
  iommu_group_size = parse_optional_int (value_of values "pci.iommu_group_size");
  link_state = first_value values ("pci.current_link_state" ∷ "pci.link_state" ∷ []);
  link_speed = value_of values "pci.current_link_speed";
  link_width = parse_int (value_of values "pci.current_link_width");
}

-- The letters and digits of ASCII.
unfoldable pub is_alphanumeric : Char → Bool
is_alphanumeric c =
    (leb b'a' (code c) && leb (code c) b'z')
    || ((leb b'A' (code c) && leb (code c) b'Z') || (leb b'0' (code c) && leb (code c) b'9'))

unfoldable pub is_separator : Char → Bool
unfolding nat_eq
is_separator c = code c == b'-' || (code c == b'_' || (code c == b'.' || code c == b':'))

-- The loop of `validHardwareID`, with whether a letter or digit was seen.
unfoldable pub check_id : Bool → String → Bool
unfolding is_alphanumeric is_separator
check_id seen String.[] = seen
check_id seen (String.◌∷◌ c s) =
    let counted = check_id true s in
    let skipped = check_id seen s in
    if is_alphanumeric c then counted else if is_separator c then skipped else false

-- `validHardwareID`
unfoldable pub valid_hardware_id : String → Bool
unfolding check_id text_length
valid_hardware_id value =
    if value == "" || ltb 128 (text_length value) then false else check_id false value

-- `major == 2 && minor >= 5 && minor <= 10` for numbers that were read.
unfoldable pub kmd_in_range : List String → Bool
unfolding atoi
kmd_in_range (major ∷ minor ∷ patch ∷ []) =
    let (x, ok) = atoi major in
    let (y, ok₁) = atoi minor in
    let (z, ok₂) = atoi patch in
    ok
    && (ok₁
        && (ok₂ && (leb_ℤ x (pos 2) && (leb_ℤ (pos 2) x && (leb_ℤ (pos 5) y && leb_ℤ y (pos 10))))))
kmd_in_range _ = false

-- `supportedKMD`
unfoldable pub supported_kmd : String → Bool
unfolding kmd_in_range split trim_space
supported_kmd value = kmd_in_range (split b'.' (trim_space value))

-- `versionMajorMinor`
unfoldable pub version_major_minor : String → (ℤ × ℤ) × Bool
unfolding split_at_most trim_space atoi
version_major_minor value =
    elim (split_at_most 2 b'.' (trim_space value)) as (λ _. (ℤ × ℤ) × Bool) [
      | [] ↦ ((pos 0, pos 0), false)
      | major ∷ [] ↦ ((pos 0, pos 0), false)
      | major ∷ minor ∷ _ ↦ (((atoi major).0, (atoi minor).0), (atoi major).1 && (atoi minor).1)
    ]

-- `a == b` on integers
abbrev pub same_ℤ : ℤ → ℤ → Bool
same_ℤ a b = leb_ℤ a b && leb_ℤ b a

-- `supportedFirmware`
unfoldable pub supported_firmware : String → Bool
unfolding version_major_minor
supported_firmware value =
    let ((major, minor), ok) = version_major_minor value in
    ok && (same_ℤ major (pos 19) && same_ℤ minor (pos 2))

-- `supportedKernel`
unfoldable pub supported_kernel : String → Bool
unfolding version_major_minor
supported_kernel value =
    let ((major, minor), ok) = version_major_minor value in
    ok
    && ((same_ℤ major (pos 5) && leb_ℤ (pos 4) minor)
        || (same_ℤ major (pos 6) && leb_ℤ minor (pos 18)))

-- `malformedObservedNumber`
unfoldable pub malformed_observed_number : InventoryDevice → Bool
malformed_observed_number device =
    ltb device.total_bytes device.available_bytes && ltb 0 device.total_bytes

-- The loop of `validateRawValues` over the numeric keys.
unfoldable pub check_numbers : Dict String String → List String → Option String
unfolding value_of trim_space parse_prefixed
check_numbers values [] = none
check_numbers values (key ∷ keys) =
    let value = trim_space (value_of values key) in
    let rest = check_numbers values keys in
    if value == ""
    then rest
    else if (parse_prefixed value).1
    then rest
    else some (key <> " is malformed")

abbrev pub numeric_keys : List String
numeric_keys =
    "memory_capacity_bytes" ∷ "memory_available_bytes" ∷ "tensix_cores_total"
    ∷ "pci.current_link_width" ∷ "pci.iommu_group" ∷ "pci.iommu_group_size" ∷ []

-- `validateRawValues`
unfoldable pub validate_raw_values : Dict String String → Option String
unfolding check_numbers value_of trim_space atoi
validate_raw_values values =
    let value = trim_space (value_of values "driver_abi_version") in
    elim (check_numbers values numeric_keys) as (λ _. Option String) [
      | some e ↦ some e
      | none ↦
          if value == ""
          then none
          else if (atoi value).1
          then none
          else some "driver_abi_version is malformed"
    ]
