-- ===== src/Tests/Lifecycle.antt =====
-- internal/lifecycle on a node with one device.
use tenstorrent_dra_framewor.Base.{
  ◌≡◌, refl, String, true, false, none, some, List, [], ◌∷◌, string_eq, nat_eq,
}
use tenstorrent_dra_framewor.Base.Int.{pos}
use tenstorrent_dra_framewor.Base.Dict.{lookup}
use tenstorrent_dra_framewor.Device.{InventoryDevice, InventorySnapshot, healthy}
use tenstorrent_dra_framewor.Lifecycle.State.{
  preparing, ClaimDevice, PreparedClaim, stored, missing, complete, snapshot, Env, join, Config,
  Manager, load,
}
use tenstorrent_dra_framewor.Lifecycle.State.Reloaded.{
  IsWellFormed, IsMerged, empty_state, load-IsMerged,
}
use tenstorrent_dra_framewor.Lifecycle.Janitor.{
  Safety, device_unsafe_reason, quarantine, sanitize, filter_snapshot, safety_for,
}
use tenstorrent_dra_framewor.Lifecycle.Janitor.Quarantined.{
  IsQuarantined, IsSanitized, quarantine-IsQuarantined, sanitize-IsSanitized,
}
use tenstorrent_dra_framewor.Lifecycle.Janitor.Published.{IsSafetyOf, safety_for-IsSafetyOf}
use tenstorrent_dra_framewor.Lifecycle.Cdi.{PluginDevice, cdi_id}
use tenstorrent_dra_framewor.Device.Name.{dra_label}
use tenstorrent_dra_framewor.Lifecycle.Claims.{
  ResourceClaim, Allocation, accepted, claim_from_allocation,
}
use tenstorrent_dra_framewor.Lifecycle.Claims.Accepted.{
  IsAcceptable, claim_from_allocation-IsAcceptable,
}
use tenstorrent_dra_framewor.Lifecycle.Prepare.{granted, prepare_one}
use tenstorrent_dra_framewor.Lifecycle.Prepare.Granted.{IsPrepared, prepare_one-IsPrepared}
use tenstorrent_dra_framewor.Lifecycle.Node.{NodeObject, update_node_safety}
use tenstorrent_dra_framewor.Lifecycle.Node.Tainted.{IsMarked, update_node_safety-IsMarked}
use tenstorrent_dra_framewor.Lifecycle.Health.{device_health_snapshot}
use tenstorrent_dra_framewor.Lifecycle.Health.Reported.{IsReport, device_health_snapshot-IsReport}
use tenstorrent_dra_framewor.Lifecycle.Observe.{observe}
use tenstorrent_dra_framewor.Lifecycle.Observe.Fenced.{IsWatched, observe-IsWatched}
use tenstorrent_dra_framewor.Lifecycle.Unprepare.{unprepare_one}
use tenstorrent_dra_framewor.Lifecycle.Unprepare.Released.{IsRelease, unprepare_one-IsRelease}

abbrev chip : InventoryDevice
chip = record {
  stable_id = "abc";
  hardware_uuid = "";
  node = record {
    id = "0";
    path = "/dev/tenstorrent/0";
    major = 241;
    minor = 0;
    mode = "";
    chip_series = "wormhole";
  };
  character_device_present = true;
  pci = record {
    bdf = "";
    vendor = "";
    device = "";
    subsystem_vendor = "";
    subsystem_device = "";
    revision = "";
    numa_node = pos 0;
    iommu_group = pos 1;
    iommu_group_size = pos 1;
    link_state = "";
    link_speed = "";
    link_width = pos 8;
  };
  chip_series = "wormhole";
  firmware_version = "";
  kmd_version = "";
  driver_abi_version = pos 1;
  kernel_version = "";
  total_bytes = 0;
  available_bytes = 0;
  tensix_cores = 0;
  health = healthy;
  fault_code = "";
  fault_message = "";
  fabric = record { fabric_id = ""; ring_id = ""; endpoint_id = ""; links = [] };
  eligible = true;
  rejection_reason = "";
}

abbrev pub seen : InventorySnapshot
seen = record { devices = chip ∷ []; observed_at = 50 }

-- Everything works.
abbrev pub env : Env
env = record {
  digest = λ s. "000000000000";
  duration_text = λ n. "1s";
  now = λ n. 60;
  lock = λ n. none;
  inventory = λ n. snapshot seen;
  reset = λ n path. none;
  audit = λ n. complete;
  persist = λ n. complete;
  write_cdi = λ n. complete;
  remove_cdi = λ n. none;
}

abbrev pub cfg : Config
cfg = record { node_name = "n"; driver = "tt"; require_iommu = true; max_inventory_age = 120 }

abbrev pub idle : Manager
idle = record {
  state = empty_state;
  disk = missing;
  audit_log = [];
  cdi = [];
  last_snapshot = seen;
  lock_open = true;
  clock = 0;
}

abbrev pub allocation : Allocation
allocation = record {
  configs = [];
  results =
      record { driver = "tt"; pool = "n"; device = "tt-abc"; request = "r"; admin_access = none }
      ∷ [];
}

abbrev pub wanted : ResourceClaim
wanted = record { uid = "u"; namespace = "ns"; name = "c"; allocation = some allocation }

abbrev claimed_chip : ClaimDevice
claimed_chip = record {
  requests = "r" ∷ [];
  pool = "n";
  device = "tt-abc";
  stable_id = "abc";
  path = "/dev/tenstorrent/0";
  major = 241;
  minor = 0;
  cdi_id = "tenstorrent.com/accelerator=u-tt-abc";
}

abbrev pub claim : PreparedClaim
claim = record {
  uid = "u";
  namespace = "ns";
  name = "c";
  phase = preparing;
  devices = claimed_chip ∷ [];
}

abbrev inventory : List (String × InventoryDevice)
inventory = ("tt-abc", chip) ∷ []

wanted_accepted : claim_from_allocation cfg inventory [] wanted allocation ≡ accepted claim
unfolding claim_from_allocation string_eq nat_eq device_unsafe_reason cdi_id
wanted_accepted = refl

claim_from_allocation-IsAcceptable_example : IsAcceptable cfg inventory [] wanted allocation claim
claim_from_allocation-IsAcceptable_example =
    claim_from_allocation-IsAcceptable cfg inventory [] wanted allocation claim wanted_accepted

abbrev given : List PluginDevice
given =
    record {
      requests = "r" ∷ [];
      pool_name = "n";
      device_name = "tt-abc";
      cdi_device_ids = "tenstorrent.com/accelerator=u-tt-abc" ∷ [];
    }
    ∷ []

wanted_granted : (prepare_one cfg env wanted inventory [] idle).0 ≡ granted given
unfolding prepare_one string_eq nat_eq join dra_label cdi_id
wanted_granted = refl

prepare_one-IsPrepared_example :
    (a : Allocation) × (wanted.allocation ≡ some a)
    × (c : PreparedClaim) × IsAcceptable cfg inventory [] wanted a c
    × IsPrepared "u" c.devices given (prepare_one cfg env wanted inventory [] idle).1
prepare_one-IsPrepared_example =
    prepare_one-IsPrepared cfg env wanted inventory [] idle given wanted_granted

-- The manager after a quarantine of the chip.
abbrev fenced : Manager
fenced = record idle {
  state = record empty_state {
    claims = ("u", claim) ∷ [];
    quarantined = ("tt-abc", record { reason = "hot"; since = 7; awaiting_health = false }) ∷ [];
    known = ("tt-abc", record { path = "/dev/tenstorrent/0"; last_seen = 50 }) ∷ [];
  };
}

quarantine-IsQuarantined_example :
    IsQuarantined "tt-abc" "on fire"
      (env.now fenced.clock)
      fenced
      (quarantine cfg env "tt-abc" "/dev/tenstorrent/0" "on fire" none "idle-health" fenced).1
quarantine-IsQuarantined_example =
    quarantine-IsQuarantined cfg env "tt-abc" "/dev/tenstorrent/0" "on fire" none "idle-health"
      fenced

sanitize-IsSanitized_example :
    IsSanitized "tt-abc" none fenced
      (sanitize cfg env "recovery-sanitize" "tt-abc" "/dev/tenstorrent/0" none fenced)
sanitize-IsSanitized_example =
    sanitize-IsSanitized cfg env "recovery-sanitize" "tt-abc" "/dev/tenstorrent/0" none fenced

safety_for-IsSafetyOf_example :
    IsSafetyOf []
      (filter_snapshot env fenced.quarantined seen)
      (safety_for env (filter_snapshot env fenced.quarantined seen) [] fenced.quarantined)
safety_for-IsSafetyOf_example = safety_for-IsSafetyOf env fenced.quarantined [] seen

claim_recorded : lookup "u" fenced.claims ≡ some claim
unfolding lookup string_eq
claim_recorded = refl

unprepare_one-IsRelease_example :
    IsRelease "u" claim fenced (unprepare_one cfg env "u" inventory fenced)
unprepare_one-IsRelease_example =
    unprepare_one-IsRelease cfg env "u" claim inventory fenced claim_recorded

fenced-IsWellFormed : IsWellFormed fenced.state
fenced-IsWellFormed = record {
  version_same = refl;
  claims_map = (refl, tt);
  quarantined_map = (refl, tt);
  known_map = (refl, tt);
}

-- Another process has removed the claim and the quarantine from the file.
abbrev reading : Manager
reading = record fenced { disk = stored empty_state }

empty-IsWellFormed : IsWellFormed empty_state
empty-IsWellFormed = record {
  version_same = refl;
  claims_map = tt;
  quarantined_map = tt;
  known_map = tt;
}

load-IsMerged_example :
    ((load reading).0 ≡ none) × IsMerged empty_state reading.state (load reading).1.state
load-IsMerged_example = load-IsMerged empty_state reading refl empty-IsWellFormed

abbrev old_node : NodeObject
old_node = record {
  taints = record { key = "other"; value = ""; effect = "NoExecute" } ∷ [];
  conditions = [];
}

abbrev blocked : Safety
blocked = record {
  unsafe = true;
  healthy = 0;
  total = 1;
  reason = "NoHealthyDevices";
  message = "";
}

update_node_safety-IsMarked_example :
    IsMarked old_node (update_node_safety old_node blocked 60) true 60
update_node_safety-IsMarked_example = update_node_safety-IsMarked old_node blocked 60 (refl, tt)

device_health_snapshot-IsReport_example :
    IsReport cfg env fenced (device_health_snapshot cfg env 0 60 fenced).0
device_health_snapshot-IsReport_example = device_health_snapshot-IsReport cfg env 0 60 fenced

observe-IsWatched_example : IsWatched cfg env seen fenced (observe cfg env seen false fenced).1
observe-IsWatched_example = observe-IsWatched cfg env seen fenced
