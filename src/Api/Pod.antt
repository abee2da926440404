-- ===== src/Api/Pod.antt =====
-- The Kubernetes Pod, its template and the ResourceClaim, as far as internal/controller reads and
-- writes them.
use tenstorrent_dra_framewor.Base.{ℕ, String, Bool, List, Option}

pub record Capabilities : Type 0 where
  pub add : List String
  pub drop : List String

-- The pointers of a container's `SecurityContext` that the source reads or writes.
pub record SecurityContext : Type 0 where
  pub privileged : Option Bool
  pub allow_privilege_escalation : Option Bool
  pub read_only_root_filesystem : Option Bool
  pub run_as_non_root : Option Bool
  pub capabilities : Option Capabilities

pub record Container : Type 0 where
  pub name : String
  pub security_context : Option SecurityContext
  -- the names of `Resources.Claims`
  pub claims : List String
  -- names with their values
  pub env : List (String × String)
  pub termination_message_path : String
  pub termination_message_policy : String

-- The pod's own security context; of a profile, its type.
pub record PodSecurityContext : Type 0 where
  pub run_as_non_root : Option Bool
  pub seccomp_profile : Option String
  pub apparmor_profile : Option String

pub record Volume : Type 0 where
  pub host_path : Bool
  -- for each source of `Projected`, whether it has a ServiceAccountToken; `none` for no `Projected`
  pub projected : Option (List Bool)

pub record Toleration : Type 0 where
  pub key : String
  pub operator : String
  pub effect : String
  pub toleration_seconds : Option ℕ

-- `PodResourceClaim`, the name in the pod and the name of the claim.
pub record PodResourceClaim : Type 0 where
  pub name : String
  pub resource_claim_name : Option String

pub record PodSpec : Type 0 where
  pub restart_policy : String
  pub node_name : String
  pub node_selector : List (String × String)
  pub resource_claims : List PodResourceClaim
  pub service_account_name : String
  pub deprecated_service_account : String
  pub automount_service_account_token : Option Bool
  pub host_network : Bool
  pub host_pid : Bool
  pub host_ipc : Bool
  pub has_affinity : Bool
  pub security_context : Option PodSecurityContext
  pub dns_policy : String
  pub scheduler_name : String
  pub enable_service_links : Option Bool
  pub priority : Option ℕ
  pub preemption_policy : Option String
  pub tolerations : List Toleration
  pub volumes : List Volume
  pub ephemeral_containers : ℕ
  pub init_containers : List Container
  pub containers : List Container

pub record PodTemplate : Type 0 where
  pub labels : List (String × String)
  pub annotations : List (String × String)
  pub spec : PodSpec

pub record OwnerReference : Type 0 where
  pub api_version : String
  pub kind : String
  pub name : String
  pub uid : String
  pub controller : Option Bool

pub record PodCondition : Type 0 where
  pub kind : String
  pub status : String
  pub reason : String
  pub message : String

-- `started` is true where `StartTime` is set.
pub record PodStatus : Type 0 where
  pub phase : String
  pub started : Bool
  pub conditions : List PodCondition

pub record Pod : Type 0 where
  pub name : String
  pub namespace : String
  pub labels : List (String × String)
  pub annotations : List (String × String)
  pub owner_references : List OwnerReference
  pub spec : PodSpec
  pub status : PodStatus

-- The one request of a claim's spec.
pub record DeviceRequest : Type 0 where
  pub name : String
  pub device_class_name : String
  pub allocation_mode : String
  pub count : ℕ
  pub selectors : List String

-- `DeviceRequestAllocationResult`
pub record AllocationResult : Type 0 where
  pub pool : String
  pub device : String

-- `allocation` is `none` where `Status.Allocation` is nil.
pub record Claim : Type 0 where
  pub name : String
  pub namespace : String
  pub labels : List (String × String)
  pub owner_references : List OwnerReference
  pub requests : List DeviceRequest
  pub allocation : Option (List AllocationResult)
