-- ===== src/Controller/Sends/Safe.antt =====
-- The calls that are safe whatever the controller does.
use tenstorrent_dra_framewor.Base.{◌≡◌, subst, String, Bool, true, string_eq, nat_eq, arith}
use tenstorrent_dra_framewor.Api.{Workload}
use tenstorrent_dra_framewor.Api.Pod.{Pod, PodSpec}
use tenstorrent_dra_framewor.Controller.Validation.Admitted.{IsConfined}
use tenstorrent_dra_framewor.Controller.Children.Hardened.{
  IsHardened, build_pod-IsPinned, pin_admission_defaults-IsHardened,
}
use tenstorrent_dra_framewor.Controller.World.{
  created_fabric, sent_fabric, sent_fabric_event, queue_added, queue_added_later, queue_retried,
  queue_forgotten, Call, sent_claim, sent_pod, deleted_pod, deleted_claim, sent_status, sent_event,
  Env, Controller,
}
use tenstorrent_dra_framewor.Controller.Status.{
  terminal_phase, update_workload_status, report_status,
}
use tenstorrent_dra_framewor.Controller.Apply.{pinned, ensure_children, delete_children}
use tenstorrent_dra_framewor.Controller.Sends.{Sends}
use tenstorrent_dra_framewor.Controller.Sends
use tenstorrent_dra_framewor.Controller.Sends.Owned

-- The status of a workload that has ended is replaced by one of the same phase only, and every pod is
-- hardened.
abbrev pub IsSafeCall : Call → Type 0
IsSafeCall (sent_claim claim) = Unit
IsSafeCall (sent_pod pod) = IsHardened pod.spec
IsSafeCall (deleted_pod namespace name) = Unit
IsSafeCall (deleted_claim namespace name) = Unit
IsSafeCall (sent_status latest status) =
    terminal_phase latest.status.phase ≡ true → latest.status.phase ≡ status.phase
IsSafeCall (sent_event warning reason message) = Unit
IsSafeCall created_fabric = Unit
IsSafeCall (sent_fabric status) = Unit
IsSafeCall (sent_fabric_event warning reason message) = Unit
IsSafeCall (queue_added key) = Unit
IsSafeCall (queue_added_later key) = Unit
IsSafeCall (queue_retried key) = Unit
IsSafeCall (queue_forgotten key) = Unit

abbrev pub SendsSafely : Controller → Controller → Type 0
SendsSafely = Sends IsSafeCall

-- What the controller relies on of client-go's defaults: they fill in what is unset, so that a hardened
-- pod stays one.
pub record KeepsHardened (env : Env) : Type 0 where
  pub keeps : (spec : PodSpec) → IsHardened spec → IsHardened (env.default_pod spec)

module _ (env : Env) where
  pub update_workload_status-Sends :
      (workload : Workload) (c : Controller)
      → SendsSafely c (update_workload_status env workload c).1
  update_workload_status-Sends workload c =
      Sends.update_workload_status-Sends env (λ _ _ _. tt) workload c (λ latest h. h)

  pub report_status-Sends :
      (phase : String) (ready : Bool) (reason message : String) (workload : Workload)
      (c : Controller)
      → SendsSafely c (report_status env phase ready reason message workload c).1
  report_status-Sends phase ready reason message workload c =
      Sends.report_status-Sends env (λ _ _ _. tt) phase ready reason message workload c
        (λ latest h. h)

  pub delete_children-Sends :
      (workload : Workload) (c : Controller) → SendsSafely c (delete_children env workload c).1
  delete_children-Sends = Owned.delete_children-Sends env (λ _ _. tt) (λ _ _. tt)

  pub ensure_children-Sends :
      (defaults : KeepsHardened env) (workload : Workload)
      → IsConfined workload.spec.container_name workload.spec.pod_template.spec
      → (c : Controller) → SendsSafely c (ensure_children env workload c).1
  unfolding pinned
  ensure_children-Sends defaults workload confined =
      Owned.ensure_children-Sends env workload (λ _ _. tt)
        λ index a disable pod e.
          let (built, p, pins) = build_pod-IsPinned workload index a disable confined in
          let same : built ≡ pod = ground (arith, e, p) in
          pin_admission_defaults-IsHardened _ (
            defaults.keeps pod.spec
              (subst (λ (made : Pod). IsHardened made.spec) same pins.hardened))
