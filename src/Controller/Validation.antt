-- ===== src/Controller/Validation.antt =====
-- internal/controller/validation.go. The DNS label test is the Kubernetes library's,
-- `kvalidation.IsDNS1123Label`, and so a parameter, true for a label.
pub mod Admitted
use text.Mathlib.Text.{starts_with}
use tenstorrent_dra_framewor.Base.{
  ℕ, ◌+◌, String, ◌<>◌, Bool, true, false, not, ◌&&◌, ◌||◌, List, [], ◌∷◌, ◌++◌, Option, none, some,
  ◌==◌, contains, string_eq, nat_eq, if◌then◌else◌, leb, ltb, any, length,
}
use tenstorrent_dra_framewor.Base.Int.{ℤ, pos, ltb_ℤ, add_int64}
use tenstorrent_dra_framewor.Base.Text.{show, show_int, quote}
use tenstorrent_dra_framewor.Base.Dict.{lookup}
use tenstorrent_dra_framewor.Api.{Workload, WorkloadRank}
use tenstorrent_dra_framewor.Api.Pod.{Container, Volume, PodSpec}
use tenstorrent_dra_framewor.Dra.{matches_device_class, supported_device_class}

abbrev pub max_ranks : ℕ
max_ranks = 64

abbrev pub max_devices_per_workload : ℕ
max_devices_per_workload = 128

abbrev pub max_containers : ℕ
max_containers = 16

-- A pointer to a boolean that is set and true.
abbrev pub is_set : Option Bool → Bool
is_set none = false
is_set (some b) = b

-- `SecurityContext.Privileged`, `none` where a pointer on the way is nil.
abbrev pub privileged_of : Container → Option Bool
privileged_of container = elim container.security_context [
  | none ↦ none
  | some context ↦ context.privileged
]

unfoldable pub check_volumes : List Volume → Option String
check_volumes [] = none
check_volumes (volume ∷ volumes) =
    let rest = check_volumes volumes in
    let tokens : Bool = elim volume.projected [
      | none ↦ false
      | some sources ↦ any (λ b. b) sources
    ] in
    if volume.host_path
    then some "Pod template may not use hostPath volumes"
    else if tokens
    then some "Pod template may not project ServiceAccount tokens"
    else rest

unfoldable pub check_containers : List Container → Option String
check_containers [] = none
check_containers (container ∷ containers) =
    let rest = check_containers containers in
    if is_set (privileged_of container)
    then some ("container " <> (quote container.name <> " requests privileged access"))
    else if not (length container.claims == 0)
    then some ("container " <> (quote container.name <> " sets controller-managed DRA claims"))
    else if any (λ (e : String × String). e.0 == "TT_RANK" || e.0 == "TT_WORLD_SIZE") container.env
    then some ("container " <> (quote container.name <> " sets controller-managed environment"))
    else rest

-- `spec.NodeSelector[corev1.LabelHostname]`
abbrev pub selected_host : PodSpec → String
selected_host spec = elim (lookup "kubernetes.io/hostname" spec.node_selector) [
  | none ↦ ""
  | some host ↦ host
]

-- The containers of the template, from the count on.
unfoldable pub check_all_containers : String → PodSpec → Option String
unfolding check_containers show
check_all_containers target spec =
    let containers = spec.init_containers ++ spec.containers in
    let found = any (λ (c : Container). c.name == target) spec.containers in
    let checked = check_containers containers in
    if length spec.containers == 0 || ltb max_containers (length containers)
    then some ("Pod template must contain 1 to " <> (show max_containers <> " containers"))
    else elim checked as (λ _. Option String) [
      | some e ↦ some e
      | none ↦
          if not found
          then some ("container " <> (quote target <> " not found in Pod template"))
          else none
    ]

-- `validatePodTemplate`: `none` for a template that is accepted.
unfoldable pub validate_pod_template : String → PodSpec → Option String
unfolding check_volumes check_all_containers lookup
validate_pod_template target spec =
    let volumes = check_volumes spec.volumes in
    let containers = check_all_containers target spec in
    if not (spec.restart_policy == "Never")
    then some "Pod template restartPolicy must be Never"
    else if not (spec.node_name == "")
        || (not (selected_host spec == "") || not (length spec.resource_claims == 0))
    then some "Pod template sets controller-managed placement or claims"
    else if not (spec.service_account_name == "") || is_set spec.automount_service_account_token
    then some "Pod template may not select or mount a ServiceAccount token"
    else if spec.host_network || (spec.host_pid || spec.host_ipc)
    then some "Pod template may not use host namespaces"
    else if spec.has_affinity
    then some "Pod template may not set controller-managed node affinity"
    else elim volumes as (λ _. Option String) [
      | some e ↦ some e
      | none ↦
          if not (spec.ephemeral_containers == 0)
          then some "Pod template may not define ephemeral containers"
          else containers
    ]

-- An annotation that switches AppArmor off.
unfoldable pub disables_apparmor : String × String → Bool
disables_apparmor (name, value) =
    starts_with name "container.apparmor.security.beta.kubernetes.io/" && value == "unconfined"

module _ (is_dns_label : String → Bool) where
  -- The checks on one rank, after the names seen before it.
  unfoldable pub check_rank : List String → WorkloadRank → Option String
  unfolding matches_device_class supported_device_class
  check_rank seen rank =
      if not (is_dns_label rank.name)
      then some ("rank " <> (quote rank.name <> " is not DNS-safe"))
      else if contains seen rank.name
      then some ("rank " <> (quote rank.name <> " is duplicated"))
      else if (not (matches_device_class rank.device_class_name rank.chip_series)
            && not (rank.chip_series == ""))
          || not (supported_device_class rank.device_class_name)
      then some ("rank " <> (quote rank.name <> " has an unsupported DeviceClass or chip series"))
      else if ltb_ℤ rank.count (pos 1)
      then some ("rank " <> (quote rank.name <> " count must be positive"))
      else none

  -- The loop over the ranks: the error, and the total in int64.
  unfoldable pub check_ranks : List String → ℤ → List WorkloadRank → Option String × ℤ
  unfolding check_rank
  check_ranks seen total [] = (none, total)
  check_ranks seen total (rank ∷ ranks) =
      let rest = check_ranks (rank.name ∷ seen) (add_int64 total rank.count) ranks in
      elim (check_rank seen rank) as (λ _. Option String × ℤ) [
        | some e ↦ (some e, total)
        | none ↦ rest
      ]

  -- `validateWorkload`, on a workload that is not nil.
  unfoldable pub validate_workload : Workload → Option String
  unfolding check_ranks validate_pod_template disables_apparmor show show_int
  validate_workload workload =
      let spec = workload.spec in
      let ranks = check_ranks [] (pos 0) spec.ranks in
      let template = validate_pod_template spec.container_name spec.pod_template.spec in
      if length spec.ranks == 0 || ltb max_ranks (length spec.ranks)
      then some ("rank count must be between 1 and " <> show max_ranks)
      else elim ranks.0 as (λ _. Option String) [
        | some e ↦ some e
        | none ↦
            if ltb_ℤ (pos max_devices_per_workload) ranks.1
            then some (
                "workload requests "
                <> (show_int ranks.1 <> (" devices; maximum is " <> show max_devices_per_workload)))
            else if any disables_apparmor spec.pod_template.annotations
            then some "Pod template may not disable AppArmor"
            else template
      ]
