-- ===== src/Controller/Queue/Reached.antt =====
-- Every run of the controller: turns of the queue, and changes of the informers' stores between them.
use tenstorrent_dra_framewor.Base.{
  ◌≡◌, refl, sym, subst, inl, inr, String, not, ◌&&◌, [], ◌∷◌, Option, none, some, ◌==◌, string_eq,
  nat_eq, All, Option-cases, branch, ltb, ◌⊎◌,
}
use tenstorrent_dra_framewor.Base.Dict.{Dict}
use tenstorrent_dra_framewor.Api.{Workload, FabricTopologyStatus}
use tenstorrent_dra_framewor.Topology.{build_fabric}
use tenstorrent_dra_framewor.Controller.World.{
  FabricReply, fabric_found, fabric_missing, fabric_unread, created_fabric, sent_fabric,
  queue_added, queue_added_later, queue_retried, queue_forgotten, Env, Cache, Controller, Attempt,
  tick, retry_on_conflict,
}
use tenstorrent_dra_framewor.Controller.Sends.{
  stay, tick-Sends, send-Sends, next, Reply-cases, retry_on_conflict-Sends,
}
use tenstorrent_dra_framewor.Controller.Sends.Safe.{IsSafeCall, KeepsHardened, SendsSafely}
use tenstorrent_dra_framewor.Controller.Reconcile.{reconcile_workload_key}
use tenstorrent_dra_framewor.Controller.Reconcile.Steps.{IsKeyed, reconcile_workload_key-Reconciles}
use tenstorrent_dra_framewor.Controller.Queue.{
  same_fabric, fabric_event, fabric_queue_key, decode_nodes, enqueue_all_workloads, write_fabric,
  create_then_write, attempt_fabric, emit_fabric_event, reconcile_fabric, turn_fabric, end_turn,
  process_next,
}
use tenstorrent_dra_framewor.Controller.Queue.Exclusive.{IsExclusive, PendingStep-IsExclusive}

FabricReply-cases :
    (r : FabricReply)
    → (((current : Option FabricTopologyStatus) × (r ≡ fabric_found current))
        ⊎ (r ≡ fabric_missing))
      ⊎ ((e : String) × (r ≡ fabric_unread e))
FabricReply-cases (fabric_found current) = inl (inl (current, refl))
FabricReply-cases fabric_missing = inl (inr refl)
FabricReply-cases (fabric_unread e) = inr (e, refl)

enqueue_all_workloads-Sends :
    (workloads : Dict String (Option Workload)) (c : Controller)
    → SendsSafely c (enqueue_all_workloads workloads c)
unfolding enqueue_all_workloads
enqueue_all_workloads-Sends [] c = stay
enqueue_all_workloads-Sends ((key, workload) ∷ workloads) c =
    next (send-Sends (queue_added key) tt) (enqueue_all_workloads-Sends workloads _)

fabric_event-IsSafeCall : (status : FabricTopologyStatus) → IsSafeCall (fabric_event status)
unfolding fabric_event
fabric_event-IsSafeCall status = branch IsSafeCall status.valid (λ _. tt) (λ _. tt)

-- No device is pending for two workloads, every call sent so far is safe, and the store is keyed.
pub record IsSound (c : Controller) : Type 0 where
  pub exclusive : IsExclusive c.pending
  pub safe : All IsSafeCall c.calls
  pub keyed : IsKeyed c.cache

Sends-IsSound : {a b : Controller} → SendsSafely a b → IsSound a → IsSound b
Sends-IsSound p h = record {
  exclusive = subst IsExclusive (sym p.same_pending) h.exclusive;
  safe = p.good h.safe;
  keyed = subst IsKeyed (sym p.same_cache) h.keyed;
}

module _ (env : Env) where
  write_fabric-Sends :
      (status : FabricTopologyStatus) (current : Option FabricTopologyStatus) (c : Controller)
      → SendsSafely c (write_fabric env status current c).1
  unfolding write_fabric
  write_fabric-Sends status current c =
      branch (λ (r : Attempt × Controller). SendsSafely c r.1) _ (λ _. stay)
        (λ _. send-Sends (sent_fabric status) tt)

  create_then_write-Sends :
      (status : FabricTopologyStatus) (c : Controller)
      → SendsSafely c (create_then_write env status c).1
  unfolding create_then_write
  create_then_write-Sends status c =
      let sent = send-Sends {a = c} created_fabric tt in
      elim (Reply-cases (env.create_fabric c.clock)) [
        | inl (current, e) ↦
            rw (create_then_write, e) (next sent (write_fabric-Sends status current _))
        | inr (fault, e) ↦ rw (create_then_write, e) sent
      ]

  attempt_fabric-Sends :
      (status : FabricTopologyStatus) (c : Controller)
      → SendsSafely c (attempt_fabric env status c).1
  unfolding attempt_fabric
  attempt_fabric-Sends status c = elim (FabricReply-cases (env.get_fabric c.clock)) [
    | inl (inl (current, e)) ↦
        rw (attempt_fabric, e) (next tick-Sends (write_fabric-Sends status current _))
    | inl (inr e) ↦ rw (attempt_fabric, e) (next tick-Sends (create_then_write-Sends status _))
    | inr (fault, e) ↦ rw (attempt_fabric, e) tick-Sends
  ]

  emit_fabric_event-Sends :
      (status : FabricTopologyStatus) (c : Controller)
      → SendsSafely c (emit_fabric_event env status c)
  unfolding emit_fabric_event
  emit_fabric_event-Sends status c =
      branch (SendsSafely c) (not (same_fabric c.fabric status) && c.has_recorder)
        (λ _. send-Sends (fabric_event status) (fabric_event-IsSafeCall status)) (λ _. stay)

  reconcile_fabric-Sends : (c : Controller) → SendsSafely c (reconcile_fabric env c).1
  unfolding reconcile_fabric
  reconcile_fabric-Sends c = elim (Option-cases (decode_nodes c.cache.nodes)) [
    | inl e ↦ rw (reconcile_fabric, e) stay
    | inr (nodes, e) ↦
        let status = build_fabric env.digest nodes c.topology_ttl (env.now c.clock) in
        let written =
          retry_on_conflict env.attempts "no attempt" (attempt_fabric env status) (tick c) in
        let sent = next tick-Sends (
          retry_on_conflict-Sends env.attempts "no attempt" (attempt_fabric env status) (tick c)
            (attempt_fabric-Sends status)) in
        elim (Option-cases written.0.0) [
          | inl fine ↦ rw (reconcile_fabric, e, fine) (next sent (emit_fabric_event-Sends status _))
          | inr (fault, p) ↦ rw (reconcile_fabric, e, p) sent
        ]
  ]

  fabric-IsSound :
      (c : Controller) (status : FabricTopologyStatus)
      → IsSound c
      → IsSound (record c { fabric = status })
  fabric-IsSound c status h = record { exclusive = h.exclusive; safe = h.safe; keyed = h.keyed }

  turn_fabric-IsSound : (c : Controller) → IsSound c → IsSound (turn_fabric env c).1
  unfolding turn_fabric
  turn_fabric-IsSound c h =
      let built = reconcile_fabric env c in
      let after = fabric-IsSound built.1 built.0.0 (Sends-IsSound (reconcile_fabric-Sends c) h) in
      let c₂ = record built.1 { fabric = built.0.0 } in
      let queued = enqueue_all_workloads-Sends c₂.cache.workloads c₂ in
      elim (Option-cases built.0.1) [
        | inr (e, fault) ↦ rw (turn_fabric, fault) after
        | inl fine ↦
            rw (turn_fabric, fine)
              (branch IsSound (ltb 0 c.topology_ttl)
                (λ _.
                  Sends-IsSound (next queued (send-Sends (queue_added_later fabric_queue_key) tt))
                    after)
                (λ _. Sends-IsSound queued after))
      ]

  end_turn-Sends :
      (key : String) (r : Option String × Controller) → SendsSafely r.1 (end_turn env key r)
  unfolding end_turn
  end_turn-Sends key (none, c) = send-Sends (queue_forgotten key) tt
  end_turn-Sends key (some e, c) = send-Sends (queue_retried key) tt

  reconcile_workload_key-IsSound :
      (key : String) (c : Controller)
      → KeepsHardened env
      → IsSound c
      → IsSound (reconcile_workload_key env key c).1
  reconcile_workload_key-IsSound key c defaults h =
      let step = reconcile_workload_key-Reconciles env key c defaults h.keyed in
      record {
        exclusive =
            PendingStep-IsExclusive key c (reconcile_workload_key env key c).1 step.step
              h.exclusive;
        safe = step.safe h.safe;
        keyed = subst IsKeyed (sym step.same_cache) h.keyed;
      }

  -- A turn of the work queue keeps the controller sound, whatever the API server answers.
  pub process_next-IsSound :
      (key : String) (c : Controller)
      → KeepsHardened env
      → IsSound c
      → IsSound (process_next env key c)
  unfolding process_next
  process_next-IsSound key c defaults h = Sends-IsSound (end_turn-Sends key _) (
      branch (λ (r : Option String × Controller). IsSound r.1) (key == fabric_queue_key)
        (λ _. turn_fabric-IsSound c h) (λ _. reconcile_workload_key-IsSound key c defaults h))

  -- What happens to a controller: turns of its queue on any keys, and new contents of its stores.
  pub data Runs (a : Controller) : Controller → Type 0 where
    here : Runs a a
    turn : {b : Controller} → Runs a b → (key : String) → Runs a (process_next env key b)
    seen :
        {b : Controller}
        → Runs a b
        → (cache : Cache) → IsKeyed cache
        → Runs a (record b { cache = cache })

  -- Where client-go's defaults keep a hardened pod hardened, every run of turns of the work queue and
  -- changes of the informers' stores from a sound controller, whatever the API server answers, leaves no
  -- device pending for two workloads; the status of a workload that has ended is only replaced by one
  -- of the same phase; and every pod that is sent is hardened.
  pub Runs-IsSound : {a b : Controller} → KeepsHardened env → IsSound a → Runs a b → IsSound b
  Runs-IsSound defaults h here = h
  Runs-IsSound defaults h (turn run key) =
      process_next-IsSound key _ defaults (Runs-IsSound defaults h run)
  Runs-IsSound defaults h (seen run cache keyed) =
      let before = Runs-IsSound defaults h run in
      record { exclusive = before.exclusive; safe = before.safe; keyed = keyed }
