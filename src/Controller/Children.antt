-- ===== src/Controller/Children.antt =====
-- internal/controller/children.go: the objects that the controller makes for a workload. A nil map
-- is the empty one.
pub mod Hardened
use tenstorrent_dra_framewor.Base.{
  ℕ, String, ◌<>◌, Bool, true, false, not, ◌&&◌, ◌||◌, List, [], ◌∷◌, ◌++◌, Option, none, some,
  ◌==◌, string_eq, if◌then◌else◌, length, map, any,
}
use tenstorrent_dra_framewor.Base.Text.{show, quote, join_texts}
use tenstorrent_dra_framewor.Base.Dict.{insert}
use tenstorrent_dra_framewor.Api.{Workload, WorkloadRank, RankAssignment, AssignedDevice}
use tenstorrent_dra_framewor.Api.Pod.{
  Capabilities, SecurityContext, Container, PodSecurityContext, Toleration, PodSpec, OwnerReference,
  Pod, DeviceRequest, Claim, PodResourceClaim,
}

-- `owner`
unfoldable pub owner : Workload → List OwnerReference
owner workload =
    record {
      api_version = "scheduling.tenstorrent.com/v1";
      kind = "TenstorrentWorkload";
      name = workload.name;
      uid = workload.uid;
      controller = some true;
    }
    ∷ []

-- The reference is to the controlling object of this uid.
unfoldable pub controls : String → OwnerReference → Bool
controls uid reference = elim reference.controller [
  | none ↦ false
  | some is_controller ↦ is_controller && reference.uid == uid
]

-- `ownedBy`
unfoldable pub owned_by : List OwnerReference → String → Bool
unfolding controls
owned_by references uid = any (controls uid) references

-- The CEL expression of `buildClaim`.
unfoldable pub selector_of : RankAssignment → String
unfolding join_texts
selector_of assignment =
    "device.attributes["
    <> (quote "tenstorrent.com"
        <> ("].nodeName == "
            <> (quote assignment.node_name
                <> (" && device.attributes["
                    <> (quote "tenstorrent.com"
                        <> ("].deviceID in ["
                            <> (join_texts "," (
                                  map (λ (item : AssignedDevice). quote item.stable_id)
                                    assignment.devices)
                                <> "]")))))))

-- `buildClaim`
unfoldable pub build_claim : Workload → WorkloadRank → RankAssignment → Claim
unfolding selector_of owner
build_claim workload rank assignment = record {
  name = assignment.claim_name;
  namespace = workload.namespace;
  labels =
      ("tenstorrent.com/workload-uid", workload.uid)
      ∷ ("tenstorrent.com/workload-name", workload.name)
      ∷ [];
  owner_references = owner workload;
  requests =
      record {
        name = "accelerator";
        device_class_name = rank.device_class_name;
        allocation_mode = "ExactCount";
        count = length assignment.devices;
        selectors = selector_of assignment ∷ [];
      }
      ∷ [];
  allocation = none;
}

-- The body of the loop of `hardenPod`.
unfoldable pub harden_container : Container → Container
harden_container container = record container {
  security_context = some (record {
    privileged = some false;
    allow_privilege_escalation = some false;
    read_only_root_filesystem = some true;
    run_as_non_root = some true;
    capabilities = some (record { add = []; drop = "ALL" ∷ [] });
  });
}

abbrev pub pod_context : PodSpec → PodSecurityContext
pod_context spec = elim spec.security_context [
  | none ↦ record { run_as_non_root = none; seccomp_profile = none; apparmor_profile = none }
  | some context ↦ context
]

-- `hardenPod`
unfoldable pub harden_pod : Bool → PodSpec → PodSpec
unfolding harden_container
harden_pod disable_apparmor spec =
    let context = pod_context spec in
    record spec {
      automount_service_account_token = some false;
      security_context = some (record {
        run_as_non_root = some true;
        seccomp_profile = some "RuntimeDefault";
        apparmor_profile =
            if disable_apparmor then context.apparmor_profile else some "RuntimeDefault";
      });
      init_containers = map harden_container spec.init_containers;
      containers = map harden_container spec.containers;
    }

-- What the loop of `buildPod` appends to the container of the rank.
unfoldable pub give_rank : Workload → ℕ → Container → Container
unfolding show
give_rank workload index container = record container {
  claims = container.claims ++ ("tenstorrent" ∷ []);
  env =
      container.env
      ++ (("TT_RANK", show index) ∷ ("TT_WORLD_SIZE", show (length workload.spec.ranks)) ∷ []);
}

-- The loop of `buildPod` over the containers: the first of the name is changed.
unfoldable pub with_rank : Workload → ℕ → List Container → Option (List Container)
unfolding give_rank
with_rank workload index [] = none
with_rank workload index (container ∷ containers) =
    let rest = with_rank workload index containers in
    if not (container.name == workload.spec.container_name)
    then elim rest as (λ _. Option (List Container)) [
      | none ↦ none
      | some changed ↦ some (container ∷ changed)
    ]
    else some (give_rank workload index container ∷ containers)

-- The pod of `buildPod` before its containers are looked at.
unfoldable pub pinned_pod : Workload → RankAssignment → Pod
unfolding owner insert
pinned_pod workload assignment =
    let template = workload.spec.pod_template in
    record {
      name = assignment.pod_name;
      namespace = workload.namespace;
      labels = insert "tenstorrent.com/workload-uid" workload.uid (
          insert "tenstorrent.com/workload-name" workload.name
            (insert "tenstorrent.com/workload" workload.name template.labels));
      annotations = template.annotations;
      owner_references = owner workload;
      spec = record template.spec {
        node_selector =
            insert "kubernetes.io/hostname" assignment.node_name (template.spec).node_selector;
        resource_claims =
            (template.spec).resource_claims
            ++ (record { name = "tenstorrent"; resource_claim_name = some assignment.claim_name }
                ∷ []);
      };
      status = record { phase = ""; started = false; conditions = [] };
    }

-- The pod with these containers, hardened.
abbrev pub hardened_pod : Bool → Pod → List Container → Pod
unfolding harden_pod
hardened_pod disable_apparmor pod containers = record pod {
  spec = harden_pod disable_apparmor (record pod.spec { containers = containers });
}

-- `buildPod`; `none` where the template has no container of the name.
unfoldable pub build_pod : Workload → ℕ → RankAssignment → Bool → Option Pod
unfolding pinned_pod with_rank harden_pod
build_pod workload index assignment disable_apparmor =
    let pod = pinned_pod workload assignment in
    elim (with_rank workload index pod.spec.containers) as (λ _. Option Pod) [
      | none ↦ none
      | some containers ↦ some (hardened_pod disable_apparmor pod containers)
    ]

abbrev eviction : String → Toleration
eviction key = record {
  key = key;
  operator = "Exists";
  effect = "NoExecute";
  toleration_seconds = some 300;
}

-- The termination message of a container.
abbrev pub pin_container : Container → Container
pin_container container = record container {
  termination_message_path = "/dev/termination-log";
  termination_message_policy = "File";
}

-- `pinAdmissionDefaults`
unfoldable pub pin_admission_defaults : PodSpec → PodSpec
pin_admission_defaults spec = record spec {
  dns_policy = "ClusterFirst";
  scheduler_name = "default-scheduler";
  enable_service_links = some true;
  service_account_name = "default";
  deprecated_service_account = "default";
  priority = some 0;
  preemption_policy = some "PreemptLowerPriority";
  tolerations =
      spec.tolerations
      ++ (eviction "node.kubernetes.io/not-ready" ∷ eviction "node.kubernetes.io/unreachable" ∷ []);
  init_containers = map pin_container spec.init_containers;
  containers = map pin_container spec.containers;
}
