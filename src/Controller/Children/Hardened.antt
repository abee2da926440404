-- ===== src/Controller/Children/Hardened.antt =====
-- The pods that the controller makes are confined and pinned.
use tenstorrent_dra_framewor.Base.{
  ℕ, ◌≡◌, refl, subst, String, Bool, true, false, ◌||◌, ◌&&◌, List, [], ◌∷◌, ◌++◌, Option, none,
  some, ◌==◌, string_eq, any, map, contains, length, All, Option-cases, inl, inr, arith, Bool-cases,
}
use tenstorrent_dra_framewor.Base.Dict.{lookup, lookup-insert_same}
use tenstorrent_dra_framewor.Base.Text.{show}
use tenstorrent_dra_framewor.Api.{Workload, RankAssignment}
use tenstorrent_dra_framewor.Api.Pod.{
  SecurityContext, Container, PodSecurityContext, Volume, PodResourceClaim, PodSpec, Pod,
}
use tenstorrent_dra_framewor.Controller.Validation.Admitted.{IsConfined}
use tenstorrent_dra_framewor.Controller.Children.{
  owner, controls, owned_by, harden_container, harden_pod, with_rank, pinned_pod, build_pod,
  pin_admission_defaults, give_rank, hardened_pod,
}

-- The security context that every container gets.
abbrev pub locked_context : SecurityContext
locked_context = record {
  privileged = some false;
  allow_privilege_escalation = some false;
  read_only_root_filesystem = some true;
  run_as_non_root = some true;
  capabilities = some (record { add = []; drop = "ALL" ∷ [] });
}

abbrev pub IsLocked : Container → Type 0
IsLocked container = container.security_context ≡ some locked_context

-- The pod runs as non-root, without privileges, tokens, or the host's namespaces and paths.
pub record IsHardened (spec : PodSpec) : Type 0 where
  pub tokenless : spec.automount_service_account_token ≡ some false
  pub host_free : (spec.host_network || (spec.host_pid || spec.host_ipc)) ≡ false
  pub path_free : All (λ (v : Volume). v.host_path ≡ false) spec.volumes
  pub context : PodSecurityContext
  pub has_context : spec.security_context ≡ some context
  pub non_root : context.run_as_non_root ≡ some true
  pub confined_calls : context.seccomp_profile ≡ some "RuntimeDefault"
  pub init_locked : All IsLocked spec.init_containers
  pub locked : All IsLocked spec.containers

map-IsLocked : (containers : List Container) → All IsLocked (map harden_container containers)
unfolding harden_container
map-IsLocked [] = tt
map-IsLocked (container ∷ containers) = (refl, map-IsLocked containers)

harden_pod-IsHardened :
    (spec : PodSpec) (disable : Bool)
    → (spec.host_network || (spec.host_pid || spec.host_ipc)) ≡ false
    → All (λ (v : Volume). v.host_path ≡ false) spec.volumes
    → IsHardened (harden_pod disable spec)
unfolding harden_pod
harden_pod-IsHardened spec disable host_free path_free = record {
  tokenless = refl;
  host_free = host_free;
  path_free = path_free;
  context = _;
  has_context = refl;
  non_root = refl;
  confined_calls = refl;
  init_locked = map-IsLocked spec.init_containers;
  locked = map-IsLocked spec.containers;
}

map-pinned :
    (f : Container → Container)
    → ((c : Container) → (f c).security_context ≡ c.security_context)
    → (containers : List Container) → All IsLocked containers
    → All IsLocked (map f containers)
map-pinned f same [] h = tt
map-pinned f same (c ∷ containers) (p, h) = (rw (same c) p, map-pinned f same containers h)

pub pin_admission_defaults-IsHardened :
    (spec : PodSpec) → IsHardened spec → IsHardened (pin_admission_defaults spec)
unfolding pin_admission_defaults
pin_admission_defaults-IsHardened spec h = record {
  tokenless = h.tokenless;
  host_free = h.host_free;
  path_free = h.path_free;
  context = h.context;
  has_context = h.has_context;
  non_root = h.non_root;
  confined_calls = h.confined_calls;
  init_locked = map-pinned _ (λ c. refl) spec.init_containers h.init_locked;
  locked = map-pinned _ (λ c. refl) spec.containers h.locked;
}

with_rank-some :
    (workload : Workload) (index : ℕ) (containers : List Container)
    → any (λ (c : Container). c.name == workload.spec.container_name) containers ≡ true
    → (changed : List Container) × (with_rank workload index containers ≡ some changed)
unfolding with_rank
with_rank-some workload index [] h = cc
with_rank-some workload index (c ∷ containers) h =
    elim (Bool-cases (c.name == workload.spec.container_name)) [
      | inl same ↦ (give_rank workload index c ∷ containers, rw same refl)
      | inr other ↦
          let (changed, e) = with_rank-some workload index containers (ground (arith, h, other)) in
          (c ∷ changed, rw (other, e) refl)
    ]

abbrev is_named : String → Option String → Bool
is_named name none = false
is_named name (some other) = other == name

-- The container of the workload that knows its rank and asks for the claim.
abbrev pub is_ranked : Workload → ℕ → Container → Bool
unfolding show
is_ranked workload index c =
    c.name == workload.spec.container_name
    && (contains c.claims "tenstorrent"
        && any (λ (v : String × String). v.0 == "TT_RANK" && v.1 == show index) c.env)

any-last :
    {A : Type 0} (p : A → Bool) (xs : List A) (x y : A)
    → p x ≡ true
    → any p (xs ++ (x ∷ y ∷ [])) ≡ true
any-last p [] x y h = ground (arith, h)
any-last p (z ∷ xs) x y h = ground (arith, any-last p xs x y h)

contains-last : (xs : List String) (x : String) → contains (xs ++ (x ∷ [])) x ≡ true
contains-last [] x = ground arith
contains-last (z ∷ xs) x = ground (arith, contains-last xs x)

give_rank-is_ranked :
    (workload : Workload) (index : ℕ) (c : Container)
    → (c.name == workload.spec.container_name) ≡ true
    → is_ranked workload index (harden_container (give_rank workload index c)) ≡ true
unfolding give_rank harden_container
give_rank-is_ranked workload index c same =
    let known =
      any-last (λ (v : String × String). v.0 == "TT_RANK" && v.1 == show index) c.env
        ("TT_RANK", show index) ("TT_WORLD_SIZE", show (length workload.spec.ranks))
        (ground arith) in
    ground (arith, same, known, contains-last c.claims "tenstorrent")

with_rank-is_ranked :
    (workload : Workload) (index : ℕ) (containers changed : List Container)
    → with_rank workload index containers ≡ some changed
    → any (is_ranked workload index) (map harden_container changed) ≡ true
unfolding with_rank
with_rank-is_ranked workload index [] changed h = cc
with_rank-is_ranked workload index (c ∷ containers) changed h =
    let goal : List Container → Type 0 =
      λ xs. any (is_ranked workload index) (map harden_container xs) ≡ true in
    elim (Bool-cases (c.name == workload.spec.container_name)) [
      | inl same ↦
          let known = give_rank-is_ranked workload index c same in
          let e : give_rank workload index c ∷ containers ≡ changed = ground (arith, h, same) in
          subst goal e (rw known refl)
      | inr other ↦ elim (Option-cases (with_rank workload index containers)) [
        | inl missing ↦ absurd (ground (arith, h, other, missing))
        | inr (rest, found) ↦
            let e : c ∷ rest ≡ changed = ground (arith, h, other, found) in
            subst goal e (ground (arith, with_rank-is_ranked workload index containers rest found))
      ]
    ]

-- The pod's entry for the claim, under the name that the container asks for.
abbrev pub is_claim_of : String → PodResourceClaim → Bool
is_claim_of name c = c.name == "tenstorrent" && is_named name c.resource_claim_name

any-end :
    {A : Type 0} (p : A → Bool) (xs : List A) (x : A) → p x ≡ true → any p (xs ++ (x ∷ [])) ≡ true
any-end p [] x h = ground (arith, h)
any-end p (z ∷ xs) x h = ground (arith, any-end p xs x h)

-- The pod runs on the node of the assignment, with its claim, and belongs to the workload; a container
-- knows its rank; and the pod is hardened.
pub record IsPinned (workload : Workload) (index : ℕ) (assignment : RankAssignment) (pod : Pod)
    : Type 0 where
  pub named : pod.name ≡ assignment.pod_name
  pub within : pod.namespace ≡ workload.namespace
  pub on_node : lookup "kubernetes.io/hostname" pod.spec.node_selector ≡ some assignment.node_name
  pub owned : owned_by pod.owner_references workload.uid ≡ true
  pub claimed : any (is_claim_of assignment.claim_name) pod.spec.resource_claims ≡ true
  pub ranked : any (is_ranked workload index) pod.spec.containers ≡ true
  pub hardened : IsHardened pod.spec

-- For a workload whose pod template was admitted, `buildPod` answers a pod: it is named and placed by
-- the assignment, belongs to the workload, refers to the claim of the assignment, its container knows its
-- rank and asks for that claim, and it is hardened.
pub build_pod-IsPinned :
    (workload : Workload) (index : ℕ) (assignment : RankAssignment) (disable : Bool)
    → IsConfined workload.spec.container_name workload.spec.pod_template.spec
    → (pod : Pod) × (build_pod workload index assignment disable ≡ some pod)
      × IsPinned workload index assignment pod
unfolding build_pod pinned_pod owner owned_by controls harden_pod
build_pod-IsPinned workload index assignment disable h =
    let (changed, e) = with_rank-some workload index _ h.has_target in
    (
      hardened_pod disable (pinned_pod workload assignment) changed,
      rw (build_pod, e) refl,
      record {
        named = refl;
        within = refl;
        on_node = lookup-insert_same _ _ _;
        owned = ground arith;
        claimed = any-end (is_claim_of assignment.claim_name) _ _ (ground arith);
        ranked = with_rank-is_ranked workload index _ changed e;
        hardened =
            harden_pod-IsHardened
              (record (pinned_pod workload assignment).spec { containers = changed }) disable
              h.host_free h.path_free;
      },
    )
