-- ===== src/Controller/Queue.antt =====
-- internal/controller/controller.go: the fabric's status, the queue's keys, and one turn of the work
-- queue. The queue itself is client-go's; a turn is given the key that it answers.
pub mod Exclusive
pub mod Reached
use tenstorrent_dra_framewor.Base.{
  ℕ, suc, String, ◌<>◌, Bool, true, false, not, ◌&&◌, ◌||◌, List, [], ◌∷◌, Option, none, some, ◌==◌,
  string_eq, if◌then◌else◌, ltb,
}
use tenstorrent_dra_framewor.Base.Text.{join_texts}
use tenstorrent_dra_framewor.Base.Dict.{Dict, lookup}
use tenstorrent_dra_framewor.Api.{Workload, NodeTopology, FabricTopologyStatus}
use tenstorrent_dra_framewor.Topology.{build_fabric}
use tenstorrent_dra_framewor.Controller.World.{
  Call, Reply, found, unread, updated, conflict, not_updated, fabric_found, fabric_missing,
  fabric_unread, created_fabric, sent_fabric, sent_fabric_event, queue_added, queue_added_later,
  queue_retried, queue_forgotten, Env, Controller, M, Attempt, finished, conflicted, failed, tick,
  send, retry_on_conflict,
}
use tenstorrent_dra_framewor.Controller.Reconcile.{reconcile_workload_key}

abbrev pub fabric_queue_key : String
fabric_queue_key = "!fabric"

-- The nodes of the store, `none` where one does not decode.
unfoldable pub decode_nodes : List (Option NodeTopology) → Option (List NodeTopology)
decode_nodes [] = some []
decode_nodes (none ∷ nodes) = none
decode_nodes (some node ∷ nodes) = elim (decode_nodes nodes) [
  | none ↦ none
  | some decoded ↦ some (node ∷ decoded)
]

-- `ttapi.FabricTopologyStatus{}`
abbrev pub no_fabric : FabricTopologyStatus
no_fabric = record {
  generation = "";
  observed_at = 0;
  valid = false;
  endpoints = [];
  errors = [];
  conditions = [];
}

-- `reflect.DeepEqual` on lists of texts
unfoldable pub same_texts : List String → List String → Bool
same_texts [] [] = true
same_texts [] (t ∷ texts) = false
same_texts (s ∷ texts) [] = false
same_texts (s ∷ texts) (t ∷ others) = s == t && same_texts texts others

-- The fabric is as it was: its generation, its validity and its errors.
unfoldable pub same_fabric : FabricTopologyStatus → FabricTopologyStatus → Bool
unfolding same_texts
same_fabric before status =
    before.generation == status.generation
    && ((if status.valid then before.valid else not before.valid)
        && same_texts before.errors status.errors)

-- The event of `reconcileFabric`.
unfoldable pub fabric_event : FabricTopologyStatus → Call
unfolding join_texts
fabric_event status =
    if status.valid
    then sent_fabric_event false "TopologyValidated" "cluster fabric topology is valid"
    else sent_fabric_event true "TopologyInvalid" (join_texts "; " status.errors)

-- `enqueueChild`: the key of the workload that the labels of a child name.
unfoldable pub child_key : String → Dict String String → Option String
unfolding lookup
child_key namespace labels = elim (lookup "tenstorrent.com/workload-name" labels) [
  | none ↦ none
  | some name ↦ if name == "" then none else some (namespace <> ("/" <> name))
]

-- `enqueueAllWorkloads`
unfoldable pub enqueue_all_workloads : Dict String (Option Workload) → Controller → Controller
enqueue_all_workloads [] c = c
enqueue_all_workloads ((key, workload) ∷ workloads) c =
    enqueue_all_workloads workloads (send (queue_added key) c)

module _ (env : Env) where
  -- The attempt of `reconcileFabric` after the read.
  unfoldable pub write_fabric : FabricTopologyStatus → Option FabricTopologyStatus → M Attempt
  write_fabric status current c =
      let answer : Attempt = elim (env.update_fabric c.clock) [
        | updated ↦ finished true
        | conflict e ↦ conflicted e
        | not_updated e ↦ failed e
      ] in
      let same : Bool = elim current [
        | none ↦ false
        | some published ↦ env.same_fabric_status published status
      ] in
      if same then (finished false, c) else (answer, send (sent_fabric status) c)

  unfoldable pub create_then_write : FabricTopologyStatus → M Attempt
  create_then_write status c =
      let c₁ = send created_fabric c in
      elim (env.create_fabric c.clock) as (λ _. Attempt × Controller) [
        | unread e ↦ (failed e, c₁)
        | found current ↦ write_fabric status current c₁
      ]

  unfoldable pub attempt_fabric : FabricTopologyStatus → M Attempt
  attempt_fabric status c = elim (env.get_fabric c.clock) as (λ _. Attempt × Controller) [
    | fabric_unread e ↦ (failed e, tick c)
    | fabric_missing ↦ create_then_write status (tick c)
    | fabric_found current ↦ write_fabric status current (tick c)
  ]

  -- `emitFabricEvent`, on a fabric that differs from the one before.
  unfoldable pub emit_fabric_event : FabricTopologyStatus → Controller → Controller
  unfolding same_fabric fabric_event
  emit_fabric_event status c =
      if not (same_fabric c.fabric status) && c.has_recorder
      then send (fabric_event status) c
      else c

  -- `reconcileFabric`: the status, and the error.
  unfoldable pub reconcile_fabric : M (FabricTopologyStatus × Option String)
  reconcile_fabric c =
      elim (decode_nodes c.cache.nodes)
        as (λ _. (FabricTopologyStatus × Option String) × Controller) [
          | none ↦ ((no_fabric, some "a node topology does not decode"), c)
          | some nodes ↦
              let status = build_fabric env.digest nodes c.topology_ttl (env.now c.clock) in
              let ((error, changed), c₁) =
                retry_on_conflict env.attempts "no attempt" (attempt_fabric status) (tick c) in
              elim error as (λ _. (FabricTopologyStatus × Option String) × Controller) [
                | some e ↦ ((status, some e), c₁)
                | none ↦ ((status, none), emit_fabric_event status c₁)
              ]
        ]

  -- The turn on the fabric's key: the new fabric is kept, and all workloads are reconciled again.
  unfoldable pub turn_fabric : M (Option String)
  turn_fabric c =
      let ((status, error), c₁) = reconcile_fabric c in
      let c₂ = record c₁ { fabric = status } in
      let c₃ = enqueue_all_workloads c₂.cache.workloads c₂ in
      elim error as (λ _. Option String × Controller) [
        | some e ↦ (some e, c₂)
        | none ↦ (
          none,
          if ltb 0 c.topology_ttl then send (queue_added_later fabric_queue_key) c₃ else c₃,
        )
      ]

  -- The end of a turn: a key with an error is tried again later.
  unfoldable pub end_turn : String → Option String × Controller → Controller
  end_turn key (none, c) = send (queue_forgotten key) c
  end_turn key (some e, c) = send (queue_retried key) c

  -- `processNext`, on a queue that is not shut down.
  unfoldable pub process_next : String → Controller → Controller
  process_next key c =
      let fabric = turn_fabric c in
      let workload = reconcile_workload_key env key c in
      end_turn key (if key == fabric_queue_key then fabric else workload)
