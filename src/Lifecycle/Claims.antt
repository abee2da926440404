-- ===== src/Lifecycle/Claims.antt =====
-- internal/lifecycle/manager.go: `claimFromAllocation` and `sameClaim`.
pub mod Accepted
use tenstorrent_dra_framewor.Base.{
  ℕ, String, ◌<>◌, Bool, true, false, not, ◌&&◌, ◌||◌, List, [], ◌∷◌, ◌++◌, Option, none, some, Eq,
  ◌==◌, contains, string_eq, nat_eq, if◌then◌else◌,
}
use mathlib.Core.Path.{◌≡◌}
use tenstorrent_dra_framewor.Base.Int.{pos, ltb_ℤ, leb_ℤ}
use tenstorrent_dra_framewor.Base.Text.{trim_space, quote}
use tenstorrent_dra_framewor.Base.Dict.{Dict, lookup}
use tenstorrent_dra_framewor.Device.{InventoryDevice}
use tenstorrent_dra_framewor.Lifecycle.State.{ClaimDevice, PreparedClaim, preparing, Config}
use tenstorrent_dra_framewor.Lifecycle.Janitor.{device_unsafe_reason, owner_of}
use tenstorrent_dra_framewor.Lifecycle.Cdi.{cdi_id}

-- `DeviceRequestAllocationResult`, as far as the driver reads it.
pub record AllocationResult : Type 0 where
  pub driver : String
  pub pool : String
  pub device : String
  pub request : String
  pub admin_access : Option Bool

-- `driver` is that of `Opaque`, `none` where there is none.
pub record AllocationConfig : Type 0 where
  pub driver : Option String
  pub source : String

pub record Allocation : Type 0 where
  pub configs : List AllocationConfig
  pub results : List AllocationResult

pub record ResourceClaim : Type 0 where
  pub uid : String
  pub namespace : String
  pub name : String
  pub allocation : Option Allocation

-- A claim to prepare, or the reason for refusing it.
pub data Checked : Type 0 where
  accepted : PreparedClaim → Checked
  refused : String → Checked

-- Two lists of devices are equal: `reflect.DeepEqual`.
pub ClaimDevice-discrete : Discrete ClaimDevice
ClaimDevice-discrete = hlevel (string_eq.dec, nat_eq.dec)

pub devices_discrete : Discrete (List ClaimDevice)
devices_discrete = hlevel (ClaimDevice-discrete)

instance unfoldable pub devices_eq : Eq (List ClaimDevice)
unfolding devices_discrete
devices_eq = record { dec = devices_discrete }

-- `sameClaim`
unfoldable pub same_claim : PreparedClaim → PreparedClaim → Bool
same_claim left right =
    left.uid == right.uid
    && (left.namespace == right.namespace
        && (left.name == right.name && left.devices == right.devices))

module _ (cfg : Config) (uid : String) (by_name : Dict String InventoryDevice)
    (owners : Dict String String) where
  unfoldable pub lacks_iommu_group : InventoryDevice → Bool
  lacks_iommu_group item =
      cfg.require_iommu
      && (ltb_ℤ item.pci.iommu_group (pos 0)
          || not
              (leb_ℤ item.pci.iommu_group_size (pos 1) && leb_ℤ (pos 1) item.pci.iommu_group_size))

  -- Another claim holds the device.
  unfoldable pub is_taken : String → Bool
  unfolding lookup
  is_taken device = elim (lookup device owners) [ none ↦ false | some owner ↦ not (owner == uid) ]

  -- The body of the loop over the results, for a result of this driver: the reason for refusing it,
  -- or the device.
  check_item : List String → AllocationResult → InventoryDevice → Option String
  unfolding lacks_iommu_group is_taken
  check_item seen result item =
      if not item.eligible || not (device_unsafe_reason cfg item == "")
      then some ("allocated device " <> (quote result.device <> " is not healthy locally"))
      else if lacks_iommu_group item
      then some ("allocated device " <> (quote result.device <> " has no dedicated IOMMU group"))
      else if contains seen result.device
      then some ("device " <> (quote result.device <> " is allocated more than once"))
      else if is_taken result.device
      then some (
          "device "
          <> (quote result.device
              <> (" is already prepared for claim " <> owner_of result.device owners)))
      else none

  unfoldable pub check_result : List String → AllocationResult → Option String
  unfolding check_item lookup trim_space
  check_result seen result =
      if elim result.admin_access as (λ _. Bool) [ none ↦ false | some b ↦ b ]
      then some "administrative device access is not supported"
      else if trim_space result.request == ""
      then some "allocation request name is empty"
      else if not (result.pool == cfg.node_name)
      then some (
          "allocation pool "
          <> (quote result.pool <> (" is not local node " <> quote cfg.node_name)))
      else elim (lookup result.device by_name) as (λ _. Option String) [
        | none ↦ some ("allocated device " <> (quote result.device <> " is not healthy locally"))
        | some item ↦ check_item seen result item
      ]

  abbrev pub claimed : AllocationResult → InventoryDevice → ClaimDevice
  claimed result item = record {
    requests = result.request ∷ [];
    pool = result.pool;
    device = result.device;
    stable_id = item.stable_id;
    path = item.node.path;
    major = item.node.major;
    minor = item.node.minor;
    cdi_id = cdi_id uid result.device;
  }

  -- The device of a result in the inventory, with what it captures.
  claimed_device : AllocationResult → List ClaimDevice
  unfolding lookup
  claimed_device result = elim (lookup result.device by_name) [
    | none ↦ []
    | some item ↦ claimed result item ∷ []
  ]

  -- The devices claimed, or the reason for refusing.
  pub data Claimed : Type 0 where
    devices : List ClaimDevice → Claimed
    stopped : String → Claimed

  unfoldable pub check_results : List String → List ClaimDevice → List AllocationResult → Claimed
  unfolding check_result claimed_device
  check_results seen found [] = devices found
  check_results seen found (result ∷ results) =
      let skipped = check_results seen found results in
      let taken = check_results (result.device ∷ seen) (found ++ claimed_device result) results in
      if not (result.driver == cfg.driver)
      then skipped
      else elim (check_result seen result) as (λ _. Claimed) [
        | some reason ↦ stopped reason
        | none ↦ taken
      ]

-- The loop over `Config`.
unfoldable pub foreign_config : String → List AllocationConfig → Option String
foreign_config driver [] = none
foreign_config driver (config ∷ configs) =
    let rest = foreign_config driver configs in
    elim config.driver as (λ _. Option String) [
      | none ↦ rest
      | some d ↦
          if d == driver
          then some ("driver configuration from " <> (quote config.source <> " is not supported"))
          else rest
    ]

module _ (cfg : Config) (by_name : Dict String InventoryDevice) (owners : Dict String String) where
  abbrev no_devices : String
  no_devices = "claim allocation has no devices for driver " <> quote cfg.driver

  -- `claimFromAllocation`
  unfoldable pub claim_from_allocation : ResourceClaim → Allocation → Checked
  unfolding foreign_config check_results
  claim_from_allocation claim allocation = elim (foreign_config cfg.driver allocation.configs) [
    | some reason ↦ refused reason
    | none ↦
        elim (check_results cfg claim.uid by_name owners [] [] allocation.results)
          as (λ _. Checked) [
            | stopped reason ↦ refused reason
            | devices [] ↦ refused no_devices
            | devices (item ∷ items) ↦ accepted (record {
              uid = claim.uid;
              namespace = claim.namespace;
              name = claim.name;
              phase = preparing;
              devices = item ∷ items;
            })
          ]
  ]
