-- ===== src/Api.antt =====
-- internal/api/types.go: the objects that the components exchange. Kubernetes metadata is cut to the
-- fields that the source reads; a time counts nanoseconds from Go's zero time, which is 0.
pub mod Pod
use tenstorrent_dra_framewor.Base.{ℕ, String, Bool, List}
use tenstorrent_dra_framewor.Base.Int.{ℤ}
use Pod.{PodTemplate}

pub record TopologyLink : Type 0 where
  pub name : String
  pub state : String
  pub speed_gbps : ℕ
  pub remote_endpoint_id : String

pub record TopologyDevice : Type 0 where
  pub pool : String
  pub name : String
  pub stable_id : String
  pub chip_series : String
  pub fabric_id : String
  pub ring_id : String
  pub endpoint_id : String
  pub links : List TopologyLink

-- The spec of a `NodeTopology`.
pub record NodeTopology : Type 0 where
  pub node_name : String
  pub observed_at : ℕ
  pub devices : List TopologyDevice

pub record FabricEndpoint : Type 0 where
  pub node_name : String
  pub pool : String
  pub device_name : String
  pub stable_id : String
  pub chip_series : String
  pub fabric_id : String
  pub ring_id : String
  pub endpoint_id : String
  pub links : List TopologyLink

-- `metav1.Condition`; `status` is true for "True".
pub record Condition : Type 0 where
  pub kind : String
  pub status : Bool
  pub reason : String
  pub message : String
  pub observed_generation : ℕ
  pub last_transition_time : ℕ

pub record FabricTopologyStatus : Type 0 where
  pub generation : String
  pub observed_at : ℕ
  pub valid : Bool
  pub endpoints : List FabricEndpoint
  pub errors : List String
  pub conditions : List Condition

pub record WorkloadRank : Type 0 where
  pub name : String
  pub device_class_name : String
  pub count : ℤ
  pub chip_series : String

pub record WorkloadTopology : Type 0 where
  pub fabric_id : String
  pub ring_id : String

pub record WorkloadSpec : Type 0 where
  pub container_name : String
  pub pod_template : PodTemplate
  pub topology : WorkloadTopology
  pub ranks : List WorkloadRank

pub record AssignedDevice : Type 0 where
  pub pool : String
  pub name : String
  pub stable_id : String
  pub endpoint_id : String

pub record RankAssignment : Type 0 where
  pub rank : String
  pub node_name : String
  pub claim_name : String
  pub pod_name : String
  pub devices : List AssignedDevice

pub record WorkloadStatus : Type 0 where
  pub phase : String
  pub observed_generation : ℕ
  pub spec_hash : String
  pub fabric_generation : String
  pub assignments : List RankAssignment
  pub conditions : List Condition

pub record Workload : Type 0 where
  pub name : String
  pub namespace : String
  pub uid : String
  pub generation : ℕ
  pub spec : WorkloadSpec
  pub status : WorkloadStatus
