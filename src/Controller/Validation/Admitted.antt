-- ===== src/Controller/Validation/Admitted.antt =====
-- What a workload that `validateWorkload` accepts looks like.
use tenstorrent_dra_framewor.Base.{
  ◌≤◌, ◌⊎◌, String, Bool, true, false, ◌||◌, List, [], ◌∷◌, ◌++◌, Option, none, some, ◌==◌,
  contains, string_eq, nat_eq, any, length, All, Option-cases, inl, inr, arith, ◌≡◌, refl,
}
use tenstorrent_dra_framewor.Base.Int.{ℤ, pos, ltb_ℤ, add_int64}
use tenstorrent_dra_framewor.Base.Distinct.{Unique}
use tenstorrent_dra_framewor.Base.Dict.{lookup}
use tenstorrent_dra_framewor.Api.{Workload, WorkloadRank}
use tenstorrent_dra_framewor.Api.Pod.{Container, Volume, PodSpec}
use tenstorrent_dra_framewor.Dra.{supported_device_class}
use tenstorrent_dra_framewor.Controller.Validation.{
  max_ranks, max_containers, is_set, privileged_of, check_volumes, check_containers,
  check_all_containers, validate_pod_template, selected_host, disables_apparmor, check_rank,
  check_ranks, validate_workload,
}

-- The container runs without privileges, and leaves claims and its rank to the controller.
pub record IsHarmless (container : Container) : Type 0 where
  pub unprivileged : is_set (privileged_of container) ≡ false
  pub no_claims : length container.claims ≡ 0
  pub no_rank :
      any (λ (e : String × String). e.0 == "TT_RANK" || e.0 == "TT_WORLD_SIZE") container.env
      ≡ false

-- The volume is no path of the host, and projects no token of a service account.
pub record IsOwn (volume : Volume) : Type 0 where
  pub path_free : volume.host_path ≡ false
  pub token_free :
      (sources : List Bool) → volume.projected ≡ some sources → any (λ b. b) sources ≡ false

abbrev pub hostname_of : PodSpec → Option String
hostname_of spec = lookup "kubernetes.io/hostname" spec.node_selector

-- The template keeps to one pod that the controller places and gives its claim, without the host's
-- namespaces, paths or privileges and without a service account.
pub record IsConfined (target : String) (spec : PodSpec) : Type 0 where
  pub never_restarts : spec.restart_policy ≡ "Never"
  pub unplaced : spec.node_name ≡ ""
  pub unselected : (hostname_of spec ≡ none) ⊎ (hostname_of spec ≡ some "")
  pub unattached : spec.has_affinity ≡ false
  pub unclaimed : length spec.resource_claims ≡ 0
  pub accountless : spec.service_account_name ≡ ""
  pub tokenless : is_set spec.automount_service_account_token ≡ false
  pub settled : spec.ephemeral_containers ≡ 0
  pub host_free : (spec.host_network || (spec.host_pid || spec.host_ipc)) ≡ false
  pub path_free : All (λ (v : Volume). v.host_path ≡ false) spec.volumes
  pub own_volumes : All IsOwn spec.volumes
  pub harmless : All IsHarmless (spec.init_containers ++ spec.containers)
  pub few : length (spec.init_containers ++ spec.containers) ≤ max_containers
  pub has_target : any (λ (c : Container). c.name == target) spec.containers ≡ true

check_volumes-free :
    (volumes : List Volume)
    → check_volumes volumes ≡ none
    → All (λ (v : Volume). v.host_path ≡ false) volumes
unfolding check_volumes
check_volumes-free [] h = tt
check_volumes-free (volume ∷ volumes) h =
    (ground (arith, h), check_volumes-free volumes (ground (arith, h)))

check_volumes-IsOwn : (volumes : List Volume) → check_volumes volumes ≡ none → All IsOwn volumes
unfolding check_volumes
check_volumes-IsOwn [] h = tt
check_volumes-IsOwn (volume ∷ volumes) h = (
  record { path_free = ground (arith, h); token_free = λ sources e. ground (arith, h, e) },
  check_volumes-IsOwn volumes (ground (arith, h)),
)

check_containers-IsHarmless :
    (containers : List Container) → check_containers containers ≡ none → All IsHarmless containers
unfolding check_containers
check_containers-IsHarmless [] h = tt
check_containers-IsHarmless (container ∷ containers) h = (
  record {
    unprivileged = ground (arith, h);
    no_claims = ground (arith, h);
    no_rank = ground (arith, h);
  },
  check_containers-IsHarmless containers (ground (arith, h)),
)

unselected_of :
    (spec : PodSpec)
    → (selected_host spec == "") ≡ true
    → (hostname_of spec ≡ none) ⊎ (hostname_of spec ≡ some "")
unselected_of spec h = elim (Option-cases (hostname_of spec)) [
  | inl missing ↦ inl missing
  | inr (host, e) ↦ inr (ground (arith, h, e))
]

pub validate_pod_template-IsConfined :
    (target : String) (spec : PodSpec)
    → validate_pod_template target spec ≡ none
    → IsConfined target spec
unfolding validate_pod_template check_all_containers
validate_pod_template-IsConfined target spec h = record {
  never_restarts = ground (arith, h);
  unplaced = ground (arith, h);
  unselected = unselected_of spec (ground (arith, h));
  unattached = ground (arith, h);
  unclaimed = ground (arith, h);
  accountless = ground (arith, h);
  tokenless = ground (arith, h);
  settled = ground (arith, h);
  host_free = ground (arith, h);
  path_free = check_volumes-free spec.volumes (ground (arith, h));
  own_volumes = check_volumes-IsOwn spec.volumes (ground (arith, h));
  harmless =
      check_containers-IsHarmless (spec.init_containers ++ spec.containers) (ground (arith, h));
  few = ground (arith, h);
  has_target = ground (arith, h);
}

fresh_names :
    (name : String) (seen : List String) (ranks : List WorkloadRank)
    → All (λ (r : WorkloadRank). contains (name ∷ seen) r.name ≡ false) ranks
    → any (λ (r : WorkloadRank). r.name == name) ranks ≡ false
fresh_names name seen [] h = refl
fresh_names name seen (rank ∷ ranks) (new, h) = ground (arith, new, fresh_names name seen ranks h)

older_names :
    (name : String) (seen : List String) (ranks : List WorkloadRank)
    → All (λ (r : WorkloadRank). contains (name ∷ seen) r.name ≡ false) ranks
    → All (λ (r : WorkloadRank). contains seen r.name ≡ false) ranks
older_names name seen [] h = tt
older_names name seen (rank ∷ ranks) (new, h) = (ground (arith, new), older_names name seen ranks h)

module _ (is_dns_label : String → Bool) where
  -- A rank with a name for a pod, a device class that exists, and at least one device.
  pub record IsRank (rank : WorkloadRank) : Type 0 where
    pub label : is_dns_label rank.name ≡ true
    pub class_supported : supported_device_class rank.device_class_name ≡ true
    pub positive : ltb_ℤ rank.count (pos 1) ≡ false

  check_rank-IsRank :
      (seen : List String) (rank : WorkloadRank)
      → check_rank is_dns_label seen rank ≡ none
      → IsRank rank × (contains seen rank.name ≡ false)
  unfolding check_rank
  check_rank-IsRank seen rank h = (
    record {
      label = ground (arith, h);
      class_supported = ground (arith, h);
      positive = ground (arith, h);
    },
    ground (arith, h),
  )

  check_ranks-IsRank :
      (seen : List String) (total : ℤ) (ranks : List WorkloadRank)
      → (check_ranks is_dns_label seen total ranks).0 ≡ none
      → All IsRank ranks
        × Unique (λ (r : WorkloadRank). r.name) ranks
        × All (λ (r : WorkloadRank). contains seen r.name ≡ false) ranks
  unfolding check_ranks
  check_ranks-IsRank seen total [] h = (tt, tt, tt)
  check_ranks-IsRank seen total (rank ∷ ranks) h =
      elim (Option-cases (check_rank is_dns_label seen rank)) [
        | inr (e, fault) ↦ absurd (ground (arith, h, fault))
        | inl fine ↦
            let (ok, new) = check_rank-IsRank seen rank fine in
            let (oks, unique, news) =
              check_ranks-IsRank (rank.name ∷ seen) (add_int64 total rank.count) ranks
                (ground (arith, h, fine)) in
            (
              (ok, oks),
              (fresh_names rank.name seen ranks news, unique),
              (new, older_names rank.name seen ranks news),
            )
      ]

  -- An accepted workload.
  pub record IsAdmitted (workload : Workload) : Type 0 where
    pub some_rank : 1 ≤ length workload.spec.ranks
    pub few_ranks : length workload.spec.ranks ≤ max_ranks
    pub ranks : All IsRank workload.spec.ranks
    pub names_unique : Unique (λ (r : WorkloadRank). r.name) workload.spec.ranks
    pub apparmor_kept : any disables_apparmor workload.spec.pod_template.annotations ≡ false
    pub confined : IsConfined workload.spec.container_name workload.spec.pod_template.spec

  -- A workload that `validateWorkload` accepts has 1 to 64 ranks with distinct DNS names, supported device
  -- classes and positive counts. Its pod template never restarts; it names no node, no hostname, no
  -- affinity, no claim, no service account and no ephemeral container; it uses none of the host's
  -- namespaces, paths or privileges; no container claims a resource or sets its rank; and there are at
  -- most 16 containers, the target among them.
  pub validate_workload-IsAdmitted :
      (workload : Workload) → validate_workload is_dns_label workload ≡ none → IsAdmitted workload
  unfolding validate_workload
  validate_workload-IsAdmitted workload h =
      let checked = check_ranks-IsRank [] (pos 0) workload.spec.ranks (ground (arith, h)) in
      record {
        some_rank = ground (arith, h);
        few_ranks = ground (arith, h);
        ranks = checked.0;
        names_unique = checked.1;
        apparmor_kept = ground (arith, h);
        confined = validate_pod_template-IsConfined _ _ (ground (arith, h));
      }
