-- ===== src/Tests/Controller.antt =====
-- internal/controller on a two-device ring: the workload of the placement tests is reconciled.
use tenstorrent_dra_framewor.Base.{
  ◌≡◌, ◌↔◌, refl, inr, sym, ap, ◌∙◌, String, true, false, none, some, [], ◌∷◌, All, arith,
  string_eq, nat_eq, contains,
}
use tenstorrent_dra_framewor.Base.Dict.{lookup}
use tenstorrent_dra_framewor.Base.Int.{add_int64}
use tenstorrent_dra_framewor.Api.{FabricTopologyStatus, RankAssignment, Workload}
use tenstorrent_dra_framewor.Api.Pod.{Pod}
use tenstorrent_dra_framewor.Placement.Model.{device_id_eq}
use tenstorrent_dra_framewor.Placement.Search.{solve_context}
use tenstorrent_dra_framewor.Controller.Apply.{ensure_children}
use tenstorrent_dra_framewor.Controller.World.{
  and_then, unread, created, deleted, updated, found, fabric_missing, Env, Cache, Controller,
  key_of,
}
use tenstorrent_dra_framewor.Controller.Validation.{validate_workload}
use tenstorrent_dra_framewor.Controller.Validation.Admitted.{validate_workload-IsAdmitted}
use tenstorrent_dra_framewor.Controller.Children.{build_pod}
use tenstorrent_dra_framewor.Controller.Children.Hardened.{IsPinned, build_pod-IsPinned}
use tenstorrent_dra_framewor.Controller.Status.{
  observed_phase, set_workload_status, terminal_phase, update_workload_status,
}
use tenstorrent_dra_framewor.Controller.Status.Phases.{
  IsDone, observed_phase-succeeds, set_workload_status-again,
}
use tenstorrent_dra_framewor.Controller.Reserve.{reservations}
use tenstorrent_dra_framewor.Controller.Reserve.Taken.{is_taken, reservations-is_taken}
use tenstorrent_dra_framewor.Controller.Sends.{Sends}
use tenstorrent_dra_framewor.Controller.Sends.Safe.{KeepsHardened}
use tenstorrent_dra_framewor.Controller.Reconcile.{
  reconcile_workload, reconcile_workload_key, follow_unassigned, place, assign, is_assigned,
}
use tenstorrent_dra_framewor.Controller.Reconcile.Steps.{IsKeyed}
use tenstorrent_dra_framewor.Controller.Reconcile.Frozen.{
  KeepsAssignment, reconcile_workload-Frozen,
}
use tenstorrent_dra_framewor.Controller.Status.Started.{IsRunning}
use tenstorrent_dra_framewor.Controller.Queue.{process_next, end_turn}
use tenstorrent_dra_framewor.Controller.Queue.Reached.{Runs, IsSound, Runs-IsSound}
use tenstorrent_dra_framewor.Tests.Placement.{job, ring, child, found_devices}

abbrev world : Env
world = record {
  is_dns_label = λ _. true;
  spec_hash = λ _. "h";
  digest = λ _. "g";
  child_name = child;
  default_pod = λ spec. spec;
  same_claim_spec = λ _ _. true;
  same_pod_spec = λ _ _. true;
  same_status = λ _ _. false;
  same_fabric_status = λ _ _. false;
  attempts = 5;
  now = λ n. n;
  ctx = λ _ _. false;
  create_claim = λ _. created;
  create_pod = λ _. created;
  get_claim = λ _. unread "gone";
  get_pod = λ _. unread "gone";
  delete_pod = λ _. deleted;
  delete_claim = λ _. deleted;
  get_workload = λ _. found job;
  update_status = λ _. updated;
  get_fabric = λ _. fabric_missing;
  create_fabric = λ _. found none;
  update_fabric = λ _. updated;
}

abbrev cache : Cache
cache = record { nodes = []; workloads = ("default/job", some job) ∷ []; claims = []; pods = [] }

abbrev ring_fabric : FabricTopologyStatus
ring_fabric = record {
  generation = "g";
  observed_at = 1;
  valid = true;
  endpoints = ring;
  errors = [];
  conditions = [];
}

abbrev fresh : Controller
fresh = record {
  disable_apparmor = false;
  has_recorder = true;
  topology_ttl = 60;
  cache = record { nodes = []; workloads = []; claims = []; pods = [] };
  fabric = ring_fabric;
  pending = [];
  clock = 0;
  calls = [];
}

lone-IsKeyed :
    (key : String) (w : Workload)
    → key_of w ≡ key
    → IsKeyed (record { nodes = []; workloads = (key, some w) ∷ []; claims = []; pods = [] })
unfolding lookup
lone-IsKeyed key w e k workload h = elim (string_eq.dec k key) [
  | yes same ↦
      let is_w : w ≡ workload = ground (arith, h, same) in ap key_of (sym is_w) ∙ (e ∙ sym same)
  | no other ↦ absurd (ground (arith, h, other))
]

cache-IsKeyed : IsKeyed cache
cache-IsKeyed = lone-IsKeyed "default/job" job refl

fresh-IsSound : IsSound fresh
unfolding lookup
fresh-IsSound = record {
  exclusive = λ j k as' bs id n p q t. cc;
  safe = tt;
  keyed = λ key workload h. cc;
}

defaults : KeepsHardened world
defaults = record { keeps = λ spec h. h }

abbrev filled : Controller
filled = record fresh { cache = cache }

one_turn :
    (lookup "default/job" (process_next world "default/job" filled).pending) ≡ some found_devices
unfolding process_next lookup string_eq nat_eq end_turn reconcile_workload_key reconcile_workload
    validate_workload add_int64 follow_unassigned place solve_context reservations device_id_eq
    assign and_then update_workload_status ensure_children set_workload_status
one_turn = refl

Runs-IsSound_example : IsSound (process_next world "default/job" filled)
Runs-IsSound_example =
    Runs-IsSound world defaults fresh-IsSound
      (Runs.turn (Runs.seen Runs.here cache cache-IsKeyed) "default/job")

job_accepted : validate_workload (λ _. true) job ≡ none
unfolding validate_workload string_eq nat_eq add_int64
job_accepted = refl

abbrev first_rank : RankAssignment
first_rank = record { rank = "a"; node_name = "n1"; claim_name = "a"; pod_name = "a"; devices = [] }

build_pod-IsPinned_example :
    (pod : Pod) × (build_pod job 0 first_rank false ≡ some pod) × IsPinned job 0 first_rank pod
build_pod-IsPinned_example =
    build_pod-IsPinned job 0 first_rank false
      (validate_workload-IsAdmitted (λ _. true) job job_accepted).confined

abbrev assigned_job : Workload
assigned_job = record job {
  status = record job.status { phase = "Running"; assignments = found_devices };
}

abbrev pod : String → Pod
pod phase = record {
  name = "a";
  namespace = "default";
  labels = [];
  annotations = [];
  owner_references = [];
  spec = job.spec.pod_template.spec;
  status = record { phase = phase; started = false; conditions = [] };
}

abbrev running : Controller
running = record fresh {
  cache = record {
    nodes = [];
    workloads = [];
    claims = [];
    pods = ("default/a", pod "Running") ∷ [];
  };
}

rank_runs : IsRunning running.cache.pods assigned_job
unfolding lookup string_eq
rank_runs = record {
  before = [];
  rank = _;
  after = _;
  split = refl;
  pod = pod "Running";
  stored = refl;
  begun = inr refl;
  not_ended = refl;
  none_failed = (refl, (refl, tt));
  none_waits = tt;
}

-- A pod that cannot be scheduled hides the start of a rank after it.
abbrev waiting : Pod
waiting = record (pod "Pending") {
  status = record {
    phase = "Pending";
    started = false;
    conditions =
        record { kind = "PodScheduled"; status = "False"; reason = "Unschedulable"; message = "" }
        ∷ [];
  };
}

start_hidden :
    (observed_phase
      (("default/a", waiting) ∷ ("default/b", pod "Running") ∷ [])
      assigned_job).started
    ≡ false
unfolding observed_phase string_eq nat_eq
start_hidden = refl

is_live : terminal_phase "Running" ≡ false
unfolding terminal_phase string_eq
is_live = refl

has_assignment : is_assigned world assigned_job ≡ true
unfolding nat_eq
has_assignment = refl

reconcile_workload-Frozen_example :
    Sends
      (KeepsAssignment found_devices)
      running
      (reconcile_workload world ring_fabric [] assigned_job running).1
reconcile_workload-Frozen_example =
    reconcile_workload-Frozen world ring_fabric [] assigned_job running has_assignment is_live
      rank_runs

reservations-is_taken_example :
    contains (reservations "default/other" filled) (record { pool = "n1"; name = "d1" })
    ≡ is_taken "default/other" filled (record { pool = "n1"; name = "d1" })
reservations-is_taken_example =
    reservations-is_taken "default/other" (record { pool = "n1"; name = "d1" }) filled

observed_phase-succeeds_example :
    ((observed_phase (("default/a", pod "Succeeded") ∷ []) assigned_job).phase ≡ "Succeeded")
    ↔ All (IsDone (("default/a", pod "Succeeded") ∷ []) "default") found_devices
observed_phase-succeeds_example =
    observed_phase-succeeds (("default/a", pod "Succeeded") ∷ []) assigned_job

set_workload_status-again_example :
    (set_workload_status world "Running" true "r" "m"
      (set_workload_status world "Running" true "r" "m" job fresh).0
      running).0
    ≡ (set_workload_status world "Running" true "r" "m" job fresh).0
set_workload_status-again_example =
    set_workload_status-again world "Running" true "r" "m" job fresh running
