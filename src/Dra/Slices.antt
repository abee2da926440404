-- ===== src/Dra/Slices.antt =====
-- internal/dra/resourceslice.go. A name of an attribute stands without its domain.
pub mod Published
use tenstorrent_dra_framewor.Base.{
  ℕ, zero, suc, ◌+◌, String, Bool, true, false, not, ◌&&◌, List, [], ◌∷◌, Option, none, some, ◌==◌,
  string_eq, nat_eq, if◌then◌else◌, leb, ltb, map, keep, length, take, drop,
}
use tenstorrent_dra_framewor.Base.Int.{ℤ, pos, leb_ℤ, ltb_ℤ, int64_of}
use tenstorrent_dra_framewor.Base.Dict.{Dict, insert}
use tenstorrent_dra_framewor.Device.{InventoryDevice, InventorySnapshot, health_text, is_healthy}
use tenstorrent_dra_framewor.Lifecycle.State.{Env, dra_name}

abbrev pub max_devices_per_slice : ℕ
max_devices_per_slice = 128

pub data Attribute : Type 0 where
  text : String → Attribute
  number : ℤ → Attribute

-- `resourceapi.Device`
pub record PoolDevice : Type 0 where
  pub name : String
  pub attributes : Dict String Attribute
  pub capacity : Dict String ℤ

-- `setString`
set_string : Dict String Attribute → String → String → Dict String Attribute
unfolding insert
set_string values name value = if not (value == "") then insert name (text value) values else values

module _ (env : Env) where
  attributes_of : String → InventoryDevice → Dict String Attribute
  unfolding set_string insert
  attributes_of node_name item =
      let named : Dict String Attribute = insert "health" (text (health_text item.health)) (
        insert "chipSeries" (text item.chip_series)
          (insert "nodeName" (text node_name) (insert "deviceID" (text item.stable_id) []))) in
      let fabric =
        set_string
          (set_string
            (set_string (set_string named "pciBDF" item.pci.bdf) "fabricID" item.fabric.fabric_id)
            "ringID" item.fabric.ring_id)
          "endpointID" item.fabric.endpoint_id in
      let numa : Dict String Attribute =
        if leb_ℤ (pos 0) item.pci.numa_node
        then insert "numaNode" (number item.pci.numa_node) fabric
        else fabric in
      if ltb 0 item.tensix_cores
      then insert "tensixCoreCount" (number (int64_of item.tensix_cores)) numa
      else numa

  -- `resourceDevice`
  unfoldable pub resource_device : String → InventoryDevice → PoolDevice
  unfolding attributes_of
  resource_device node_name item = record {
    name = dra_name env item;
    attributes = attributes_of node_name item;
    capacity =
        if ltb 0 item.total_bytes then ("memoryBytes", int64_of item.total_bytes) ∷ [] else [];
  }

  -- A device that is offered.
  unfoldable pub is_offered : InventoryDevice → Bool
  is_offered item = item.eligible && (item.character_device_present && is_healthy item.health)

  -- The observation is not missing, not more than five seconds ahead and not older than `max_age`.
  unfoldable pub is_current : InventorySnapshot → ℕ → ℕ → Bool
  is_current s max_age now =
      not (s.observed_at == 0)
      && (not (ltb (now + 5000000000) s.observed_at) && leb now (s.observed_at + max_age))

  unfoldable pub offered_devices : String → InventorySnapshot → ℕ → ℕ → List PoolDevice
  unfolding is_current is_offered keep resource_device
  offered_devices node_name s max_age now =
      if is_current s max_age now
      then map (resource_device node_name) (keep is_offered s.devices)
      else []

  -- The loop that cuts slices, on fuel for the number of devices.
  unfoldable pub cut_slices : ℕ → List PoolDevice → List (List PoolDevice)
  cut_slices zero devices = []
  cut_slices (suc fuel) [] = []
  cut_slices (suc fuel) (item ∷ items) =
      take max_devices_per_slice (item ∷ items)
      ∷ cut_slices fuel (drop max_devices_per_slice (item ∷ items))

  abbrev pub one_at_least : List (List PoolDevice) → List (List PoolDevice)
  one_at_least [] = [] ∷ []
  one_at_least (slice ∷ slices) = slice ∷ slices

  -- `DriverResourcesAt`: the slices of the node's pool.
  unfoldable pub driver_resources_at : String → InventorySnapshot → ℕ → ℕ → List (List PoolDevice)
  unfolding cut_slices offered_devices
  driver_resources_at node_name s max_age now =
      let devices = offered_devices node_name s max_age now in
      one_at_least (cut_slices (length devices) devices)
