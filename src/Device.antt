-- ===== src/Device.antt =====
-- internal/device/model.go: the inventory. A time counts nanoseconds from Go's zero time.
pub mod Name
pub mod Numbers
pub mod Normalize
pub mod Snapshot
use tenstorrent_dra_framewor.Base.{ℕ, String, Bool, List}
use tenstorrent_dra_framewor.Base.Int.{ℤ}

pub data HealthState : Type 0 where
  healthy unhealthy unknown : HealthState

-- `string(health)`
abbrev pub health_text : HealthState → String
health_text healthy = "Healthy"
health_text unhealthy = "Unhealthy"
health_text unknown = "Unknown"

abbrev pub is_healthy : HealthState → Bool
is_healthy healthy = Bool.true
is_healthy unhealthy = Bool.false
is_healthy unknown = Bool.false

pub record Node : Type 0 where
  pub id : String
  pub path : String
  pub major : ℕ
  pub minor : ℕ
  pub mode : String
  pub chip_series : String

pub record PciIdentity : Type 0 where
  pub bdf : String
  pub vendor : String
  pub device : String
  pub subsystem_vendor : String
  pub subsystem_device : String
  pub revision : String
  pub numa_node : ℤ
  pub iommu_group : ℤ
  pub iommu_group_size : ℤ
  pub link_state : String
  pub link_speed : String
  pub link_width : ℤ

pub record FabricLink : Type 0 where
  pub name : String
  pub state : String
  pub speed_gbps : ℕ
  pub remote_bdf : String
  pub remote_endpoint_id : String

pub record FabricInfo : Type 0 where
  pub fabric_id : String
  pub ring_id : String
  pub endpoint_id : String
  pub links : List FabricLink

-- `Provenance` and the copy of the observation time are left out: they only go to the JSON listing.
pub record InventoryDevice : Type 0 where
  pub stable_id : String
  pub hardware_uuid : String
  pub node : Node
  pub character_device_present : Bool
  pub pci : PciIdentity
  pub chip_series : String
  pub firmware_version : String
  pub kmd_version : String
  pub driver_abi_version : ℤ
  pub kernel_version : String
  pub total_bytes : ℕ
  pub available_bytes : ℕ
  pub tensix_cores : ℕ
  pub health : HealthState
  pub fault_code : String
  pub fault_message : String
  pub fabric : FabricInfo
  pub eligible : Bool
  pub rejection_reason : String

pub record InventorySnapshot : Type 0 where
  pub devices : List InventoryDevice
  pub observed_at : ℕ
