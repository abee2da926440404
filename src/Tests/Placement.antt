-- ===== src/Tests/Placement.antt =====
-- internal/placement/placement.go on a two-device ring.
use tenstorrent_dra_framewor.Base.{
  ℕ, ◌≡◌, refl, String, Bool, true, false, none, some, List, [], ◌∷◌, contains, ◌↔◌, string_eq,
  nat_eq,
}
use tenstorrent_dra_framewor.Base.Int.{pos}
use tenstorrent_dra_framewor.Api.{
  FabricEndpoint, TopologyLink, Workload, WorkloadRank, RankAssignment,
}
use tenstorrent_dra_framewor.Placement.Search.{solve, solve_context, default_limits}
use tenstorrent_dra_framewor.Placement.Search.Sound.{IsPlacement, solve_context-IsPlacement}
use tenstorrent_dra_framewor.Placement.Connected.{connected, selected_ids, index_by_id}
use tenstorrent_dra_framewor.Placement.Connected.Spec.{IsConnected, connected_iff}
use tenstorrent_dra_framewor.Placement.Model.{device_id_eq}

abbrev pub child : String → String → String → String
child workload uid rank = rank

abbrev link_to : String → TopologyLink
link_to id = record { name = "l"; state = "up"; speed_gbps = 100; remote_endpoint_id = id }

abbrev endpoint : String → String → String → String → FabricEndpoint
endpoint node name id peer = record {
  node_name = node;
  pool = node;
  device_name = name;
  stable_id = name;
  chip_series = "wormhole";
  fabric_id = "f";
  ring_id = "r";
  endpoint_id = id;
  links = link_to peer ∷ [];
}

abbrev pub ring : List FabricEndpoint
ring = endpoint "n1" "d1" "e1" "e2" ∷ endpoint "n2" "d2" "e2" "e1" ∷ []

abbrev rank : String → WorkloadRank
rank name = record {
  name = name;
  device_class_name = "tenstorrent";
  count = pos 1;
  chip_series = "";
}

abbrev pub job : Workload
job = record {
  name = "job";
  namespace = "default";
  uid = "u";
  generation = 1;
  spec = record {
    container_name = "c";
    pod_template = record {
      labels = [];
      annotations = [];
      spec = record {
        restart_policy = "Never";
        node_name = "";
        node_selector = [];
        resource_claims = [];
        service_account_name = "";
        deprecated_service_account = "";
        automount_service_account_token = none;
        host_network = false;
        host_pid = false;
        host_ipc = false;
        has_affinity = false;
        volumes = [];
        ephemeral_containers = 0;
        init_containers = [];
        security_context = none;
        dns_policy = "";
        scheduler_name = "";
        enable_service_links = none;
        priority = none;
        preemption_policy = none;
        tolerations = [];
        containers =
            record {
              name = "c";
              security_context = none;
              claims = [];
              env = [];
              termination_message_path = "";
              termination_message_policy = "";
            }
            ∷ [];
      };
    };
    topology = record { fabric_id = ""; ring_id = "" };
    ranks = rank "a" ∷ rank "b" ∷ [];
  };
  status = record {
    phase = "";
    observed_generation = 0;
    spec_hash = "";
    fabric_generation = "";
    assignments = [];
    conditions = [];
  };
}

job_found : (solve child job ring []).1 ≡ true
unfolding solve string_eq nat_eq device_id_eq
job_found = refl

job_blocked : (solve child job ring (record { pool = "n1"; name = "d1" } ∷ [])).1 ≡ false
unfolding solve string_eq nat_eq device_id_eq
job_blocked = refl

abbrev pub found_devices : List RankAssignment
found_devices =
    record {
      rank = "a";
      node_name = "n1";
      claim_name = "a";
      pod_name = "a";
      devices = record { pool = "n1"; name = "d1"; stable_id = "d1"; endpoint_id = "e1" } ∷ [];
    }
    ∷ record {
      rank = "b";
      node_name = "n2";
      claim_name = "b";
      pod_name = "b";
      devices = record { pool = "n2"; name = "d2"; stable_id = "d2"; endpoint_id = "e2" } ∷ [];
    }
    ∷ []

ids_named : contains (selected_ids found_devices []) "" ≡ false
unfolding selected_ids string_eq
ids_named = refl

connected_iff_example :
    (connected found_devices ring ≡ true)
    ↔ IsConnected (index_by_id ring []) (selected_ids found_devices [])
connected_iff_example = connected_iff found_devices ring ids_named

abbrev never_done : ℕ → Bool
never_done n = false

job_solved : (solve_context never_done child (some job) ring [] default_limits).ok ≡ true
unfolding solve_context string_eq nat_eq device_id_eq
job_solved = refl

solve_context-IsPlacement_example :
    IsPlacement job ring []
      (solve_context never_done child (some job) ring [] default_limits).assignments
solve_context-IsPlacement_example =
    solve_context-IsPlacement never_done child job ring [] default_limits job_solved
