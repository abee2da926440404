-- ===== src/Tests/Device.antt =====
-- internal/device/normalize.go and discovery.go on a healthy card.
use tenstorrent_dra_framewor.Base.{
  ◌≡◌, refl, String, true, false, none, List, [], ◌∷◌, inl, inr, string_eq, nat_eq, map, arith,
}
use tenstorrent_dra_framewor.Base.Dict.{Dict}
use tenstorrent_dra_framewor.Device.{Node, InventorySnapshot}
use tenstorrent_dra_framewor.Device.Numbers.{parse_uint, parse_device_numbers, major_minor}
use tenstorrent_dra_framewor.Device.Numbers.Decoded.{pack, major_minor-pack}
use tenstorrent_dra_framewor.Device.Normalize.{RawDevice, validate_raw_values}
use tenstorrent_dra_framewor.Device.Snapshot.{normalize, observing, build_snapshot}
use tenstorrent_dra_framewor.Device.Snapshot.Certified.{IsCertified, normalize-IsCertified}
use tenstorrent_dra_framewor.Device.Snapshot.Identified.{IsInventory, build_snapshot-IsInventory}

abbrev values : String → Dict String String
values uuid =
    ("device_uuid", uuid)
    ∷ ("architecture", " WH ")
    ∷ ("health", "OK")
    ∷ ("pci.vendor", "0x1E52")
    ∷ ("pci.bdf", "0000:01:00.0")
    ∷ ("kmd_version", "2.5.0")
    ∷ ("firmware_version", "19.2.1")
    ∷ ("driver_abi_version", "2")
    ∷ ("kernel_version", "6.8.0-40-generic")
    ∷ ("memory_capacity_bytes", "12884901888")
    ∷ ("memory_available_bytes", "0x10")
    ∷ []

abbrev node : Node
node = record {
  id = "0";
  path = "/dev/tenstorrent/0";
  major = 240;
  minor = 0;
  mode = "";
  chip_series = "";
}

abbrev raw : String → RawDevice
raw uuid = record {
  id = "pci-0";
  node = node;
  character_device_present = true;
  values = values uuid;
  fabric_links = [];
  discovery_error = none;
}

abbrev card : RawDevice
card = raw "A-1"

card_ok : (normalize card).eligible ≡ true
unfolding normalize string_eq
card_ok = refl

normalize-IsCertified_example :
    (card.discovery_error ≡ none)
    × (validate_raw_values card.values ≡ none)
    × IsCertified (normalize card)
normalize-IsCertified_example = normalize-IsCertified card card_ok

abbrev cards : List RawDevice
cards = card ∷ raw "b-2" ∷ raw "a-1" ∷ []

abbrev seen : InventorySnapshot
unfolding build_snapshot
seen = elim (build_snapshot (observing cards) 7) [
  | inl _ ↦ record { devices = []; observed_at = 0 }
  | inr s ↦ s
]

seen_ok : build_snapshot (observing cards) 7 ≡ inr seen
unfolding build_snapshot
seen_ok = refl

build_snapshot-IsInventory_example : IsInventory cards seen
build_snapshot-IsInventory_example = build_snapshot-IsInventory cards 7 seen seen_ok

eligible_again : map (λ d. d.eligible) seen.devices ≡ false ∷ false ∷ true ∷ []
unfolding seen string_eq
eligible_again = refl

-- A number out of range is read as the greatest.
too_large : parse_uint "99999999999999999999" ≡ 18446744073709551615
unfolding parse_uint
too_large = refl

numbers : parse_device_numbers " 240:1\n" ≡ (240, 1)
unfolding parse_device_numbers
numbers = refl

major_minor-pack_example : major_minor (pack 240 1) ≡ (240, 1)
major_minor-pack_example = major_minor-pack 240 1 (omega arith) (omega arith)

-- The part of a greater major number shows in the minor one.
mixed : major_minor (pack 4096 1) ≡ (4096, 4294967297)
unfolding major_minor
mixed = refl
