-- ===== src/Lifecycle/Node/Tainted.antt =====
-- What the node says of its accelerators after `UpdateNodeSafety` and `ClearNodeSafety`.
use tenstorrent_dra_framewor.Base.{
  ℕ, Bool, true, false, not, some, List, [], ◌∷◌, ◌≡◌, refl, subst, ◌==◌, string_eq, any, keep,
  arith,
}
use tenstorrent_dra_framewor.Base.Distinct.{Unique}
use tenstorrent_dra_framewor.Lifecycle.Janitor.{Safety}
use tenstorrent_dra_framewor.Lifecycle.Node.{
  node_taint_key, node_condition_type, Taint, NodeCondition, NodeObject, set_taint,
  set_safety_taint, condition_of, replaced, set_condition, set_safety_condition, update_node_safety,
  accelerator_condition,
}

abbrev pub is_ours : Taint → Bool
is_ours t = t.key == node_taint_key

abbrev pub is_tainted : List Taint → Bool
is_tainted = any is_ours

-- The taints of others.
abbrev pub foreign_taints : List Taint → List Taint
foreign_taints = keep (λ (t : Taint). not (is_ours t))

set_taint-is_tainted :
    (taints : List Taint) (unsafe : Bool)
    → Unique (λ (t : Taint). t.key) taints
    → is_tainted (set_taint taints unsafe).0 ≡ unsafe
unfolding set_taint
set_taint-is_tainted [] true u = ground arith
set_taint-is_tainted [] false u = refl
set_taint-is_tainted (taint ∷ taints) unsafe (out, u) =
    elim (string_eq.dec taint.key node_taint_key) [
      | no other ↦ ground (arith, set_taint-is_tainted taints unsafe u)
      | yes ours ↦
          let alone : is_tainted taints ≡ false =
            subst (λ k. any (λ (y : Taint). y.key == k) taints ≡ false) ours out in
          ground (arith, alone)
    ]

set_taint-foreign :
    (taints : List Taint) (unsafe : Bool)
    → foreign_taints (set_taint taints unsafe).0 ≡ foreign_taints taints
unfolding set_taint keep
set_taint-foreign [] true = ground arith
set_taint-foreign [] false = refl
set_taint-foreign (taint ∷ taints) unsafe = ground (arith, set_taint-foreign taints unsafe)

abbrev pub is_health : NodeCondition → Bool
is_health c = c.kind == node_condition_type

-- The conditions of others.
abbrev pub foreign_conditions : List NodeCondition → List NodeCondition
foreign_conditions = keep (λ (c : NodeCondition). not (is_health c))

set_condition-foreign :
    (condition : NodeCondition) (conditions : List NodeCondition)
    → condition.kind ≡ node_condition_type
    → foreign_conditions (set_condition condition conditions) ≡ foreign_conditions conditions
unfolding set_condition keep
set_condition-foreign condition [] h = ground (arith, h)
set_condition-foreign condition (old ∷ rest) h =
    ground (arith, h, set_condition-foreign condition rest h)

set_condition-accelerator_condition :
    (condition : NodeCondition) (conditions : List NodeCondition)
    → condition.kind ≡ node_condition_type
    → (c : NodeCondition) × (accelerator_condition (set_condition condition conditions) ≡ some c)
      × (c.status ≡ condition.status)
      × (c.heartbeat ≡ condition.heartbeat)
unfolding set_condition accelerator_condition
set_condition-accelerator_condition condition [] h = (condition, ground (arith, h), refl, refl)
set_condition-accelerator_condition condition (old ∷ rest) h =
    elim (string_eq.dec old.kind node_condition_type) [
      | no other ↦
          let (c, found, status, heartbeat) =
            set_condition-accelerator_condition condition rest h in
          (c, ground (arith, found), status, heartbeat)
      | yes ours ↦ (replaced condition old, ground (arith, h), refl, refl)
    ]

-- The node carries the taint exactly if it is unsafe, shows its health as observed now, and what others have put there stays.
pub record IsMarked (before after : NodeObject) (unsafe : Bool) (now : ℕ) : Type 0 where
  pub tainted : is_tainted after.taints ≡ unsafe
  pub taints_kept : foreign_taints after.taints ≡ foreign_taints before.taints
  pub shown : NodeCondition
  pub shown_found : accelerator_condition after.conditions ≡ some shown
  pub shown_status : shown.status ≡ not unsafe
  pub shown_heartbeat : shown.heartbeat ≡ now
  pub conditions_kept : foreign_conditions after.conditions ≡ foreign_conditions before.conditions

-- On a node with no key of a taint twice, the node carries the driver's taint after `UpdateNodeSafety`
-- exactly if it is unsafe, the condition that the watchdog looks at shows the safety with the heartbeat
-- of this moment, and the taints and conditions of others are those from before.
pub update_node_safety-IsMarked :
    (node : NodeObject) (safety : Safety) (now : ℕ)
    → Unique (λ (t : Taint). t.key) node.taints
    → IsMarked node (update_node_safety node safety now) safety.unsafe now
unfolding update_node_safety set_safety_taint set_safety_condition
update_node_safety-IsMarked node safety now u =
    let (c, found, status, heartbeat) =
      set_condition-accelerator_condition (condition_of safety now) node.conditions refl in
    record {
      shown = c;
      shown_found = found;
      shown_status = status;
      shown_heartbeat = heartbeat;
      tainted = set_taint-is_tainted node.taints safety.unsafe u;
      taints_kept = set_taint-foreign node.taints safety.unsafe;
      conditions_kept = set_condition-foreign (condition_of safety now) node.conditions refl;
    }
