-- ===== src/Controller/Sends/Owned.antt =====
-- The calls on the children of a workload.
use tenstorrent_dra_framewor.Base.{
  ℕ, suc, ◌≡◌, inl, inr, String, Bool, not, List, [], ◌∷◌, some, ◌==◌, string_eq, nat_eq,
  Option-cases, Bool-cases, length,
}
use tenstorrent_dra_framewor.Api.{Workload, WorkloadRank, RankAssignment}
use tenstorrent_dra_framewor.Api.Pod.{Pod, Claim}
use tenstorrent_dra_framewor.Controller.Children.{build_claim, build_pod}
use tenstorrent_dra_framewor.Controller.World.{
  Call, sent_claim, sent_pod, deleted_pod, deleted_claim, Env, Controller,
}
use tenstorrent_dra_framewor.Controller.Apply.{
  check_claim, ensure_claim, check_pod, pinned, ensure_pod, ensure_ranks, ensure_children,
  delete_assigned, delete_children,
}
use tenstorrent_dra_framewor.Controller.Sends.{
  Sends, stay, tick-Sends, send-Sends, next, and_then-Sends, Reply-cases, Created-cases,
}

module _ {Good : Call → Type 0} (env : Env)
    (pods : (namespace name : String) → Good (deleted_pod namespace name))
    (claims : (namespace name : String) → Good (deleted_claim namespace name)) where
  pub delete_assigned-Sends :
      (namespace : String) (assignments : List RankAssignment) (c : Controller)
      → Sends Good c (delete_assigned env namespace assignments c).1
  unfolding delete_assigned
  delete_assigned-Sends namespace [] c = stay
  delete_assigned-Sends namespace (a ∷ assignments) c =
      and_then-Sends _ _ (send-Sends (deleted_pod namespace a.pod_name) (pods namespace a.pod_name))
        λ b.
          and_then-Sends _ _
            (send-Sends (deleted_claim namespace a.claim_name) (claims namespace a.claim_name))
            (delete_assigned-Sends namespace assignments)

  pub delete_children-Sends :
      (workload : Workload) (c : Controller) → Sends Good c (delete_children env workload c).1
  unfolding delete_children
  delete_children-Sends workload c = delete_assigned-Sends _ _ c

module _ {Good : Call → Type 0} (env : Env) where
  check_claim-Sends :
      (workload : Workload) (desired : Claim) (c : Controller)
      → Sends Good c (check_claim env workload desired c).1
  unfolding check_claim
  check_claim-Sends workload desired c = elim (Reply-cases (env.get_claim c.clock)) [
    | inl (existing, e) ↦ rw (check_claim, e) tick-Sends
    | inr (fault, e) ↦ rw (check_claim, e) tick-Sends
  ]

  check_pod-Sends :
      (workload : Workload) (a : RankAssignment) (pod : Pod) (c : Controller)
      → Sends Good c (check_pod env workload a pod c).1
  unfolding check_pod
  check_pod-Sends workload a pod c = elim (Reply-cases (env.get_pod c.clock)) [
    | inl (existing, e) ↦ rw (check_pod, e) tick-Sends
    | inr (fault, e) ↦ rw (check_pod, e) tick-Sends
  ]

  ensure_claim-Sends :
      (workload : Workload) (rank : WorkloadRank) (a : RankAssignment) (c : Controller)
      → Good (sent_claim (build_claim workload rank a))
      → Sends Good c (ensure_claim env workload rank a c).1
  unfolding ensure_claim
  ensure_claim-Sends workload rank a c fine =
      let desired = build_claim workload rank a in
      let sent = send-Sends {a = c} (sent_claim desired) fine in
      elim (Created-cases (env.create_claim c.clock)) [
        | inl (inl e) ↦ rw (ensure_claim, e) sent
        | inl (inr (fault, e)) ↦ rw (ensure_claim, e) sent
        | inr e ↦ rw (ensure_claim, e) (next sent (check_claim-Sends workload desired _))
      ]

  module _ (workload : Workload)
      (claims : (rank : WorkloadRank) (a : RankAssignment)
        → Good (sent_claim (build_claim workload rank a)))
      (pods : (index : ℕ) (a : RankAssignment) (disable : Bool) (pod : Pod)
        → build_pod workload index a disable ≡ some pod
        → Good (sent_pod (pinned env pod))) where
    pub ensure_pod-Sends :
        (index : ℕ) (a : RankAssignment) (c : Controller)
        → Sends Good c (ensure_pod env workload index a c).1
    unfolding ensure_pod
    ensure_pod-Sends index a c =
        elim (Option-cases (build_pod workload index a c.disable_apparmor)) [
          | inl e ↦ rw (ensure_pod, e) stay
          | inr (built, e) ↦
              let pod = pinned env built in
              let sent =
                send-Sends {a = c} (sent_pod pod) (pods index a c.disable_apparmor built e) in
              elim (Created-cases (env.create_pod c.clock)) [
                | inl (inl p) ↦ rw (ensure_pod, e, p) sent
                | inl (inr (fault, p)) ↦ rw (ensure_pod, e, p) sent
                | inr p ↦ rw (ensure_pod, e, p) (next sent (check_pod-Sends workload a pod _))
              ]
        ]

    ensure_ranks-Sends :
        (index : ℕ) (ranks : List WorkloadRank) (assignments : List RankAssignment) (c : Controller)
        → Sends Good c (ensure_ranks env workload index ranks assignments c).1
    unfolding ensure_ranks
    ensure_ranks-Sends index (rank ∷ ranks) (a ∷ assignments) c =
        and_then-Sends _ _ (ensure_claim-Sends workload rank a c (claims rank a)) λ b.
          and_then-Sends _ _ (ensure_pod-Sends index a b)
            (ensure_ranks-Sends (suc index) ranks assignments)
    ensure_ranks-Sends index [] assignments c = stay
    ensure_ranks-Sends index (rank ∷ ranks) [] c = stay

    pub ensure_children-Sends : (c : Controller) → Sends Good c (ensure_children env workload c).1
    unfolding ensure_children
    ensure_children-Sends c =
        let assignments = workload.status.assignments in
        let ranks = workload.spec.ranks in
        elim (Bool-cases (not (length assignments == length ranks))) [
          | inl e ↦ rw (ensure_children, e) stay
          | inr e ↦ rw (ensure_children, e) (ensure_ranks-Sends 0 ranks assignments c)
        ]
