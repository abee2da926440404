-- ===== src/Device/Snapshot/Certified.antt =====
-- What a device meets that `normalize` finds eligible.
use tenstorrent_dra_framewor.Base.{
  ◌≡◌, ◌≤◌, refl, ap, ◌⊎◌, String, Bool, true, false, not, ◌&&◌, ◌||◌, List, [], ◌∷◌, Option, none,
  some, ◌==◌, string_eq, All, arith,
}
use tenstorrent_dra_framewor.Base.Int.{ℤ, pos, negsuc}
use tenstorrent_dra_framewor.Base.Text.{join}
use tenstorrent_dra_framewor.Device.{
  HealthState, healthy, unhealthy, unknown, is_healthy, InventoryDevice,
}
use tenstorrent_dra_framewor.Device.Normalize.{
  RawDevice, tenstorrent_pci_vendor, valid_hardware_id, supported_kmd, supported_firmware,
  supported_kernel, version_major_minor, same_ℤ, malformed_observed_number, validate_raw_values,
}
use tenstorrent_dra_framewor.Device.Snapshot.{
  first_failure, requirements, eligibility, observed_device, with_uuid, with_fault, normalize,
}

pub record IsCertified (device : InventoryDevice) : Type 0 where
  pub present : device.character_device_present ≡ true
  pub working : device.health ≡ healthy
  pub vendor : device.pci.vendor ≡ tenstorrent_pci_vendor
  pub located : (device.pci.bdf == "") ≡ false
  pub named : valid_hardware_id device.hardware_uuid ≡ true
  pub series :
      ◌≡◌ {A = String} device.chip_series "wormhole"
      ⊎ ◌≡◌ {A = String} device.chip_series "blackhole"
  pub module_version : supported_kmd device.kmd_version ≡ true
  pub firmware : version_major_minor device.firmware_version ≡ ((pos 19, pos 2), true)
  pub abi : device.driver_abi_version ≡ pos 2
  pub kernel : supported_kernel device.kernel_version ≡ true
  pub memory : (device.total_bytes ≡ 0) ⊎ (device.available_bytes ≤ device.total_bytes)

first_failure-All :
    (checks : List (Bool × String))
    → (first_failure checks).0 ≡ true
    → All (λ (check : Bool × String). check.0 ≡ true) checks
unfolding first_failure
first_failure-All [] h = tt
first_failure-All ((true, reason) ∷ checks) h = (refl, first_failure-All checks h)
first_failure-All ((false, reason) ∷ checks) h = cc

same_ℤ-≡ : (a b : ℤ) → same_ℤ a b ≡ true → a ≡ b
same_ℤ-≡ (pos a) (pos b) h = let e : a ≡ b = ground arith in ap pos e
same_ℤ-≡ (pos a) (negsuc b) h = ground arith
same_ℤ-≡ (negsuc a) (pos b) h = ground arith
same_ℤ-≡ (negsuc a) (negsuc b) h = let e : a ≡ b = ground arith in ap negsuc e

healthy_of : (health : HealthState) → is_healthy health ≡ true → health ≡ healthy
healthy_of healthy h = refl
healthy_of unhealthy h = cc
healthy_of unknown h = cc

-- The vendor is known where it is not empty and not another.
vendor_of :
    (bdf vendor known : String)
    → (vendor == "" || vendor == known) ≡ true
    → not (bdf == "" || vendor == "") ≡ true
    → (vendor ≡ known) × ((bdf == "") ≡ false)
vendor_of bdf vendor known h k = (ground (arith, h, k), ground (arith, h, k))

firmware_of :
    (version : String)
    → supported_firmware version ≡ true
    → version_major_minor version ≡ ((pos 19, pos 2), true)
unfolding supported_firmware
firmware_of version h = read (version_major_minor version) h
  where
    read :
        (v : (ℤ × ℤ) × Bool)
        → (v.1 && (same_ℤ v.0.0 (pos 19) && same_ℤ v.0.1 (pos 2))) ≡ true
        → v ≡ ((pos 19, pos 2), true)
    read ((major, minor), ok) h =
        let major_is = same_ℤ-≡ major (pos 19) (ground (arith, h)) in
        let minor_is = same_ℤ-≡ minor (pos 2) (ground (arith, h)) in
        let ok_is : ok ≡ true = ground (arith, h) in rw (major_is, minor_is, ok_is) refl

requirements-IsCertified :
    (device : InventoryDevice)
    → All (λ (check : Bool × String). check.0 ≡ true) (requirements device)
    → IsCertified device
unfolding requirements malformed_observed_number
requirements-IsCertified device met =
    let tail = met.1.1.1.1 in
    let series = tail.1.0 in
    let memory = tail.1.1.1.1.1.1.0 in
    let vendor_is =
      vendor_of device.pci.bdf device.pci.vendor tenstorrent_pci_vendor met.1.1.0 met.1.1.1.0 in
    record {
      present = met.0;
      working = healthy_of device.health met.1.0;
      vendor = vendor_is.0;
      located = vendor_is.1;
      named = tail.0;
      series = ground (arith, series);
      module_version = tail.1.1.0;
      firmware = firmware_of device.firmware_version tail.1.1.1.0;
      abi = same_ℤ-≡ device.driver_abi_version (pos 2) tail.1.1.1.1.0;
      kernel = tail.1.1.1.1.1.0;
      memory = ground (arith, memory);
    }

eligibility-IsCertified :
    (device : InventoryDevice) (error : Option String)
    → (eligibility device error).0 ≡ true
    → (error ≡ none) × IsCertified device
unfolding eligibility
eligibility-IsCertified device none h =
    (refl, requirements-IsCertified device (first_failure-All (requirements device) h))
eligibility-IsCertified device (some e) h = cc

join-none : (a b : Option String) → join a b ≡ none → (a ≡ none) × (b ≡ none)
unfolding join
join-none none b h = (refl, h)
join-none (some a) none h = cc
join-none (some a) (some b) h = cc

-- An eligible device has a complete and legible observation, and meets every requirement.
pub normalize-IsCertified :
    (raw : RawDevice)
    → (normalize raw).eligible ≡ true
    → (raw.discovery_error ≡ none)
      × (validate_raw_values raw.values ≡ none)
      × IsCertified (normalize raw)
unfolding normalize
normalize-IsCertified raw h =
    let device = with_fault (with_uuid (observed_device raw)) in
    let errors = join raw.discovery_error (validate_raw_values raw.values) in
    let met = eligibility-IsCertified device errors h in
    let legible = join-none raw.discovery_error (validate_raw_values raw.values) met.0 in
    (
      legible.0,
      legible.1,
      record {
        present = met.1.present;
        working = met.1.working;
        vendor = met.1.vendor;
        located = met.1.located;
        named = met.1.named;
        series = met.1.series;
        module_version = met.1.module_version;
        firmware = met.1.firmware;
        abi = met.1.abi;
        kernel = met.1.kernel;
        memory = met.1.memory;
      },
    )
