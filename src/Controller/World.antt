-- ===== src/Controller/World.antt =====
-- internal/controller/controller.go: the controller's state, its informers' stores and its calls. Each
-- call of the outside world advances `clock`, and `Env` says how the call at that count is answered.
use tenstorrent_dra_framewor.Base.{
  ℕ, zero, suc, String, ◌<>◌, Bool, false, List, ◌∷◌, Option, none, some, string_eq,
}
use tenstorrent_dra_framewor.Base.Dict.{Dict, erase}
use tenstorrent_dra_framewor.Api.{
  Workload, WorkloadSpec, WorkloadStatus, RankAssignment, FabricEndpoint, FabricTopologyStatus,
  NodeTopology,
}
use tenstorrent_dra_framewor.Api.Pod.{Pod, PodSpec, Claim, DeviceRequest}

-- The answer to a read, with the error of one that failed.
pub data Reply (A : Type 0) : Type 0 where
  found : A → Reply A
  unread : String → Reply A

pub data Created : Type 0 where
  created already_exists : Created
  not_created : String → Created

pub data Deleted : Type 0 where
  deleted not_found : Deleted
  not_deleted : String → Deleted

pub data Updated : Type 0 where
  updated : Updated
  conflict not_updated : String → Updated

-- The answer to a read of the fabric resource, with its status where it has one.
pub data FabricReply : Type 0 where
  fabric_found : Option FabricTopologyStatus → FabricReply
  fabric_missing : FabricReply
  fabric_unread : String → FabricReply

-- What the controller sends: objects, deletions by namespace and name, the status that replaces the
-- one of the workload read before, and events, with whether they warn; and what it does to its queue.
pub data Call : Type 0 where
  sent_claim : Claim → Call
  sent_pod : Pod → Call
  deleted_pod deleted_claim : String → String → Call
  sent_status : Workload → WorkloadStatus → Call
  sent_event : Bool → String → String → Call
  created_fabric : Call
  sent_fabric : FabricTopologyStatus → Call
  sent_fabric_event : Bool → String → String → Call
  queue_added queue_added_later queue_retried queue_forgotten : String → Call

-- `attempts` is the number of steps of client-go's `retry.DefaultRetry`, `spec_hash` the digest of
-- `workloadSpecHash`, `default_pod` client-go's scheme, and `same_*` its semantic comparisons; `ctx`
-- says at which polls the placement's context that is made at a count is done.
pub record Env : Type 0 where
  pub is_dns_label : String → Bool
  pub spec_hash : WorkloadSpec → String
  pub digest : List FabricEndpoint → String
  pub child_name : String → String → String → String
  pub default_pod : PodSpec → PodSpec
  pub same_claim_spec : List DeviceRequest → List DeviceRequest → Bool
  pub same_pod_spec : PodSpec → PodSpec → Bool
  pub same_status : WorkloadStatus → WorkloadStatus → Bool
  pub same_fabric_status : FabricTopologyStatus → FabricTopologyStatus → Bool
  pub attempts : ℕ
  pub now : ℕ → ℕ
  pub ctx : ℕ → ℕ → Bool
  pub create_claim : ℕ → Created
  pub create_pod : ℕ → Created
  pub get_claim : ℕ → Reply Claim
  pub get_pod : ℕ → Reply Pod
  pub delete_pod : ℕ → Deleted
  pub delete_claim : ℕ → Deleted
  pub get_workload : ℕ → Reply Workload
  pub update_status : ℕ → Updated
  pub get_fabric : ℕ → FabricReply
  pub create_fabric : ℕ → Reply (Option FabricTopologyStatus)
  pub update_fabric : ℕ → Updated

-- The stores of the informers, by namespace and name; `none` is an object that does not decode.
pub record Cache : Type 0 where
  pub nodes : List (Option NodeTopology)
  pub workloads : Dict String (Option Workload)
  pub claims : List Claim
  pub pods : Dict String Pod

-- `Controller`; `calls` has the latest call first.
pub record Controller : Type 0 where
  pub disable_apparmor : Bool
  pub has_recorder : Bool
  pub topology_ttl : ℕ
  pub cache : Cache
  pub fabric : FabricTopologyStatus
  pub pending : Dict String (List RankAssignment)
  pub clock : ℕ
  pub calls : List Call

abbrev pub M : Type 0 → Type 0
M A = Controller → A × Controller

abbrev pub tick : Controller → Controller
tick c = record c { clock = suc c.clock }

abbrev pub send : Call → Controller → Controller
send call c = record c { clock = suc c.clock; calls = call ∷ c.calls }

-- `key := workload.Namespace + "/" + workload.Name`
abbrev pub key_of : Workload → String
key_of workload = workload.namespace <> ("/" <> workload.name)

-- `delete(c.pending, key)`
unfoldable pub drop_pending : String → Controller → Controller
unfolding erase
drop_pending key c = record c { pending = erase key c.pending }

-- The next call is made where the one before answered no error.
unfoldable pub and_then :
    Option String × Controller → M (Option String) → Option String × Controller
and_then (none, c) next = next c
and_then (some e, c) next = (some e, c)

-- How one attempt of a write ended; one without an error says whether it wrote.
pub data Attempt : Type 0 where
  finished : Bool → Attempt
  conflicted failed : String → Attempt

-- client-go's `RetryOnConflict`, with the error of the last attempt.
unfoldable pub retry_on_conflict : ℕ → String → M Attempt → M (Option String × Bool)
retry_on_conflict zero last attempt c = ((some last, false), c)
retry_on_conflict (suc n) last attempt c =
    let (answer, c₁) = attempt c in
    elim answer as (λ _. (Option String × Bool) × Controller) [
      | finished changed ↦ ((none, changed), c₁)
      | failed e ↦ ((some e, false), c₁)
      | conflicted e ↦ retry_on_conflict n e attempt c₁
    ]
