-- ===== src/Lifecycle/Node.antt =====
-- internal/lifecycle/node.go: the taint and the condition on the Kubernetes node; the watchdog's look at
-- the condition, internal/lifecycle/watchdog.go. Reading and writing
-- the node are calls of the Kubernetes API and left out.
pub mod Tainted
use tenstorrent_dra_framewor.Base.{
  ℕ, String, Option, none, some, Bool, true, false, not, ◌&&◌, ◌||◌, List, [], ◌∷◌, ◌==◌, string_eq,
  if◌then◌else◌, any, keep, ltb, ◌+◌, nat_eq,
}
use tenstorrent_dra_framewor.Lifecycle.Janitor.{Safety}

abbrev pub node_taint_key : String
node_taint_key = "tenstorrent.com/accelerator-unhealthy"

abbrev pub node_condition_type : String
node_condition_type = "TenstorrentAcceleratorsHealthy"

-- `corev1.Taint`
pub record Taint : Type 0 where
  pub key : String
  pub value : String
  pub effect : String

-- `corev1.NodeCondition`; `status` is true for "True".
pub record NodeCondition : Type 0 where
  pub kind : String
  pub status : Bool
  pub reason : String
  pub message : String
  pub heartbeat : ℕ
  pub transition : ℕ

-- The node's taints and conditions.
pub record NodeObject : Type 0 where
  pub taints : List Taint
  pub conditions : List NodeCondition

abbrev pub safety_taint : Taint
safety_taint = record { key = node_taint_key; value = "true"; effect = "NoSchedule" }

-- The loop of `setSafetyTaint`: the taints after it, and whether they changed.
unfoldable pub set_taint : List Taint → Bool → List Taint × Bool
set_taint [] unsafe = if unsafe then (safety_taint ∷ [], true) else ([], false)
set_taint (taint ∷ taints) unsafe =
    let rest = set_taint taints unsafe in
    if not (taint.key == node_taint_key)
    then (taint ∷ rest.0, rest.1)
    else if unsafe
    then (taint ∷ taints, false)
    else (taints, true)

-- `setSafetyTaint`
unfoldable pub set_safety_taint : NodeObject → Bool → NodeObject × Bool
unfolding set_taint
set_safety_taint node unsafe =
    let (taints, changed) = set_taint node.taints unsafe in
    (record node { taints = taints }, changed)

abbrev pub condition_of : Safety → ℕ → NodeCondition
condition_of safety now = record {
  kind = node_condition_type;
  status = not safety.unsafe;
  reason = safety.reason;
  message = safety.message;
  heartbeat = now;
  transition = now;
}

-- The new condition in place of the old one, with its transition time where the status is the same.
abbrev pub replaced : NodeCondition → NodeCondition → NodeCondition
replaced condition old =
    let same = (old.status && condition.status) || not (old.status || condition.status) in
    record condition { transition = if same then old.transition else condition.transition }

-- The loop of `setSafetyCondition`.
unfoldable pub set_condition : NodeCondition → List NodeCondition → List NodeCondition
set_condition condition [] = condition ∷ []
set_condition condition (old ∷ rest) =
    let others = set_condition condition rest in
    if not (old.kind == node_condition_type) then old ∷ others else replaced condition old ∷ rest

-- `setSafetyCondition`
unfoldable pub set_safety_condition : NodeObject → Safety → ℕ → NodeObject
unfolding set_condition
set_safety_condition node safety now = record node {
  conditions = set_condition (condition_of safety now) node.conditions;
}

-- The two changes of `UpdateNodeSafety`.
unfoldable pub update_node_safety : NodeObject → Safety → ℕ → NodeObject
unfolding set_safety_taint set_safety_condition
update_node_safety node safety now =
    set_safety_condition (set_safety_taint node safety.unsafe).0 safety now

-- The two changes of `ClearNodeSafety`.
unfoldable pub clear_node_safety : NodeObject → NodeObject
unfolding keep
clear_node_safety node = record {
  taints = keep (λ (t : Taint). not (t.key == node_taint_key)) node.taints;
  conditions = keep (λ (c : NodeCondition). not (c.kind == node_condition_type)) node.conditions;
}

-- `acceleratorCondition`
unfoldable pub accelerator_condition : List NodeCondition → Option NodeCondition
accelerator_condition [] = none
accelerator_condition (c ∷ conditions) =
    let rest = accelerator_condition conditions in
    if c.kind == node_condition_type then some c else rest

-- The test of `FenceStaleAgents`: the node is managed and its heartbeat is older than the TTL.
unfoldable pub is_agent_stale : NodeObject → ℕ → ℕ → Bool
unfolding accelerator_condition
is_agent_stale node ttl now = elim (accelerator_condition node.conditions) as (λ _. Bool) [
  | none ↦ false
  | some c ↦ not (c.heartbeat == 0) && ltb (c.heartbeat + ttl) now
]
