-- ===== src/Controller/Apply.antt =====
-- internal/controller/children.go: the calls that make and delete the children of a workload.
use tenstorrent_dra_framewor.Base.{
  ℕ, suc, String, ◌<>◌, not, ◌&&◌, ◌||◌, List, [], ◌∷◌, Option, none, some, ◌==◌, string_eq, nat_eq,
  if◌then◌else◌, length,
}
use tenstorrent_dra_framewor.Base.Text.{show, quote}
use tenstorrent_dra_framewor.Api.{Workload, WorkloadRank, RankAssignment}
use tenstorrent_dra_framewor.Api.Pod.{Pod, Claim}
use tenstorrent_dra_framewor.Controller.Children.{
  build_claim, build_pod, owned_by, pin_admission_defaults,
}
use tenstorrent_dra_framewor.Controller.World.{
  found, unread, Deleted, created, already_exists, not_created, deleted, not_found, not_deleted,
  sent_claim, sent_pod, deleted_pod, deleted_claim, Env, Controller, M, tick, send, and_then,
}

module _ (env : Env) where
  -- The claim that is there already.
  unfoldable pub check_claim : Workload → Claim → M (Option String)
  unfolding owned_by
  check_claim workload desired c =
      elim (env.get_claim c.clock) as (λ _. Option String × Controller) [
        | unread e ↦ (some e, tick c)
        | found existing ↦ (
          (if not (owned_by existing.owner_references workload.uid)
                || not (env.same_claim_spec existing.requests desired.requests)
              then some (
                  "ResourceClaim "
                  <> (quote desired.name <> " collides with a different owner or spec"))
              else none),
          tick c,
        )
      ]

  -- `ensureClaim`
  unfoldable pub ensure_claim : Workload → WorkloadRank → RankAssignment → M (Option String)
  unfolding build_claim check_claim
  ensure_claim workload rank assignment c =
      let desired = build_claim workload rank assignment in
      let c₁ = send (sent_claim desired) c in
      elim (env.create_claim c.clock) as (λ _. Option String × Controller) [
        | created ↦ (none, c₁)
        | not_created e ↦ (some e, c₁)
        | already_exists ↦ check_claim workload desired c₁
      ]

  -- The pod that is there already: a scheduled one keeps its node.
  unfoldable pub check_pod : Workload → RankAssignment → Pod → M (Option String)
  unfolding owned_by
  check_pod workload assignment pod c =
      elim (env.get_pod c.clock) as (λ _. Option String × Controller) [
        | unread e ↦ (some e, tick c)
        | found existing ↦
            let node = (existing.spec).node_name in
            let actual = record existing.spec { node_name = (pod.spec).node_name } in
            (
              (if not (node == "") && not (node == assignment.node_name)
                  then some (
                      "Pod "
                      <> (quote pod.name <> (" is scheduled on unexpected node " <> quote node)))
                  else if not (owned_by existing.owner_references workload.uid)
                      || not (env.same_pod_spec actual pod.spec)
                  then some
                      ("Pod " <> (quote pod.name <> " collides with a different owner or spec"))
                  else none),
              tick c,
            )
      ]

  -- The pod as it is sent: with client-go's defaults and the pinned ones.
  unfoldable pub pinned : Pod → Pod
  unfolding pin_admission_defaults
  pinned pod = record pod { spec = pin_admission_defaults (env.default_pod pod.spec) }

  -- `ensurePod`
  unfoldable pub ensure_pod : Workload → ℕ → RankAssignment → M (Option String)
  unfolding build_pod pinned check_pod
  ensure_pod workload index assignment c =
      elim (build_pod workload index assignment c.disable_apparmor)
        as (λ _. Option String × Controller) [
          | none ↦ (
            some (
                "container "
                <> (quote workload.spec.container_name <> " not found in Pod template")),
            c,
          )
          | some built ↦
              let pod = pinned built in
              let c₁ = send (sent_pod pod) c in
              elim (env.create_pod c.clock) as (λ _. Option String × Controller) [
                | created ↦ (none, c₁)
                | not_created e ↦ (some e, c₁)
                | already_exists ↦ check_pod workload assignment pod c₁
              ]
        ]

  -- The loop of `ensureChildren`, on as many ranks as assignments.
  unfoldable pub ensure_ranks :
      Workload → ℕ → List WorkloadRank → List RankAssignment → M (Option String)
  unfolding ensure_claim ensure_pod
  ensure_ranks workload index (rank ∷ ranks) (assignment ∷ assignments) c =
      and_then (ensure_claim workload rank assignment c) (λ c₁.
        and_then (ensure_pod workload index assignment c₁)
          (ensure_ranks workload (suc index) ranks assignments))
  ensure_ranks workload index [] assignments c = (none, c)
  ensure_ranks workload index (rank ∷ ranks) [] c = (none, c)

  -- `ensureChildren`
  unfoldable pub ensure_children : Workload → M (Option String)
  unfolding ensure_ranks show
  ensure_children workload c =
      let assignments = (workload.status).assignments in
      let ranks = (workload.spec).ranks in
      let sent = ensure_ranks workload 0 ranks assignments c in
      if not (length assignments == length ranks)
      then (
        some (
            "workload has "
            <> (show (length assignments)
                <> (" assignments for " <> (show (length ranks) <> " ranks")))),
        c,
      )
      else sent

  -- An object that is gone already is deleted.
  abbrev delete_error : String → Deleted → Option String
  delete_error what deleted = none
  delete_error what not_found = none
  delete_error what (not_deleted e) = some (what <> e)

  -- The loop of `deleteChildren`.
  unfoldable pub delete_assigned : String → List RankAssignment → M (Option String)
  delete_assigned namespace [] c = (none, c)
  delete_assigned namespace (a ∷ assignments) c =
      and_then
        (
          delete_error ("delete Pod " <> (quote a.pod_name <> ": ")) (env.delete_pod c.clock),
          send (deleted_pod namespace a.pod_name) c,
        )
        (λ c₁.
          and_then
            (
              delete_error ("delete ResourceClaim " <> (quote a.claim_name <> ": "))
                  (env.delete_claim c₁.clock),
              send (deleted_claim namespace a.claim_name) c₁,
            )
            (delete_assigned namespace assignments))

  -- `deleteChildren`
  unfoldable pub delete_children : Workload → M (Option String)
  unfolding delete_assigned
  delete_children workload = delete_assigned workload.namespace (workload.status).assignments
