-- ===== src/Lifecycle/Recovery/Allocated.antt =====
-- The recorded claims after the start, against the claims of the API server.
use mathlib.Core.List.{Mem, mem-cons_self, mem-cons_of_mem}
use tenstorrent_dra_framewor.Base.{
  ℕ, ◌≡◌, refl, sym, ap, ◌∙◌, ◌⊎◌, inl, inr, String, Bool, true, false, not, ◌&&◌, ◌||◌, List, [],
  ◌∷◌, Option, none, some, ◌==◌, string_eq, nat_eq, All, Option-cases, Bool-cases, arith, length,
}
use tenstorrent_dra_framewor.Base.Dict.{Dict, lookup, insert, has, lookup-insert_other}
use tenstorrent_dra_framewor.Device.{InventoryDevice, InventorySnapshot}
use tenstorrent_dra_framewor.Lifecycle.State.{
  ClaimPhase, preparing, prepared, releasing, recovered, ClaimDevice, PreparedClaim, Env, Config,
  Manager, tick,
}
use tenstorrent_dra_framewor.Lifecycle.Observe.{by_name}
use tenstorrent_dra_framewor.Lifecycle.Observe.Grows.{IsFenced}
use tenstorrent_dra_framewor.Lifecycle.Claims.{ResourceClaim, Allocation, AllocationResult}
use tenstorrent_dra_framewor.Lifecycle.Startup.{
  Start, Listed, listed, is_prepared, fill_requests, local_devices, local_claims, local_allocations,
  adopt_claims, revise_claim,
}
use tenstorrent_dra_framewor.Lifecycle.Recovery.{reconcile_claims}
use tenstorrent_dra_framewor.Lifecycle.Recovery.Checked.{IsIntact, IsVetted, IsClaimVetted}
use tenstorrent_dra_framewor.Lifecycle.Recovery.Vetted.{reconcile_claims-IsVetted}

-- A result of this driver on this node.
abbrev pub is_local : Config → AllocationResult → Bool
is_local cfg result = result.driver == cfg.driver && result.pool == cfg.node_name

-- A listed claim of the uid is allocated a device of this driver on this node.
pub record IsLive (cfg : Config) (claims : List (Option ResourceClaim)) (uid : String)
    : Type 0 where
  pub claim : ResourceClaim
  pub among : Mem (some claim) claims
  pub same_uid : claim.uid ≡ uid
  pub allocation : Allocation
  pub allocated : claim.allocation ≡ some allocation
  pub result : AllocationResult
  pub given : Mem result allocation.results
  pub here : is_local cfg result ≡ true

-- The device of a recorded claim is in quarantine, or as it was claimed, of a claim that was prepared and
-- is live.
abbrev pub IsKept :
    Config
    → Dict String InventoryDevice
    → List (Option ResourceClaim)
    → Manager
    → String × PreparedClaim
    → ClaimDevice
    → Type 0
IsKept cfg inventory claims m (uid, claim) claimed =
    IsFenced m claimed.device
    ⊎ (IsIntact cfg inventory claimed × (claim.phase ≡ prepared) × IsLive cfg claims uid)

prepared_of : (phase : ClaimPhase) → is_prepared phase ≡ true → phase ≡ prepared
prepared_of preparing h = cc
prepared_of prepared h = refl
prepared_of releasing h = cc
prepared_of recovered h = cc

insert-All :
    (P : String × PreparedClaim → Type 0) (k : String) (v : PreparedClaim)
    (d : Dict String PreparedClaim)
    → has k d ≡ false
    → All P (insert k v d)
    → All P d
unfolding insert lookup
insert-All P k v [] out h = tt
insert-All P k v ((j, w) ∷ d) out h = elim (Bool-cases (k == j)) [
  | inl same ↦ absurd (ground (arith, out, same))
  | inr other ↦
      let kept = rw other at h in (kept.0, insert-All P k v d (rw (has, other) at out) kept.1)
]

module _ (cfg : Config) (env : Env) (start : Start) where
  pub adopt_claims-All :
      (P : String × PreparedClaim → Type 0) (allocated claims : Dict String PreparedClaim)
      → All P (adopt_claims cfg env start allocated claims)
      → All P claims
  unfolding adopt_claims
  adopt_claims-All P [] claims h = h
  adopt_claims-All P ((uid, live) ∷ allocated) claims h = elim (Bool-cases (has uid claims)) [
    | inl known ↦ adopt_claims-All P allocated claims (rw (adopt_claims, known) at h)
    | inr new ↦
        insert-All P uid (record live { phase = recovered }) claims new
          (adopt_claims-All P allocated _ (rw (adopt_claims, new) at h))
  ]

  local_devices-some :
      (uid : String) (inventory : Dict String InventoryDevice) (results : List AllocationResult)
      → (length (local_devices cfg env start uid inventory results) == 0) ≡ false
      → (r : AllocationResult) × Mem r results × (is_local cfg r ≡ true)
  unfolding local_devices
  local_devices-some uid inventory [] h = absurd (ground (arith, h))
  local_devices-some uid inventory (result ∷ results) h =
      elim (Bool-cases (not (result.driver == cfg.driver) || not (result.pool == cfg.node_name))) [
        | inl other ↦
            let (r, m, e) =
              local_devices-some uid inventory results (rw (local_devices, other) at h) in
            (r, mem-cons_of_mem result m, e)
        | inr mine ↦ (result, mem-cons_self, ground (arith, mine))
      ]

  local_claims-IsLive :
      (inventory : Dict String InventoryDevice) (claims total : List (Option ResourceClaim))
      (found : Dict String PreparedClaim)
      → ((c : ResourceClaim) → Mem (some c) claims → Mem (some c) total)
      → ((uid : String) (live : PreparedClaim)
          → lookup uid found ≡ some live
          → IsLive cfg total uid)
      → (uid : String) (live : PreparedClaim)
      → lookup uid (local_claims cfg env start inventory claims found) ≡ some live
      → IsLive cfg total uid
  unfolding local_claims
  local_claims-IsLive inventory [] total found inside h uid live e = h uid live e
  local_claims-IsLive inventory (none ∷ claims) total found inside h uid live e =
      local_claims-IsLive inventory claims total found (λ c m. inside c (mem-cons_of_mem none m)) h
        uid live e
  local_claims-IsLive inventory (some claim ∷ claims) total found inside h uid live e =
      let later : (c : ResourceClaim) → Mem (some c) claims → Mem (some c) total =
        λ c m. inside c (mem-cons_of_mem (some claim) m) in
      elim (Option-cases claim.allocation) [
        | inl missing ↦
            local_claims-IsLive inventory claims total found later h uid live
              (rw (local_claims, missing) at e)
        | inr (allocation, allocated) ↦
            let devices = local_devices cfg env start claim.uid inventory allocation.results in
            let held : PreparedClaim = record {
              uid = claim.uid;
              namespace = claim.namespace;
              name = claim.name;
              phase = recovered;
              devices = devices;
            } in
            let e' = rw (local_claims, allocated) at e in
            elim (Bool-cases (length devices == 0)) [
              | inl empty ↦
                  local_claims-IsLive inventory claims total found later h uid live (rw empty at e')
              | inr full ↦
                  let (r, m, here) =
                    local_devices-some claim.uid inventory allocation.results full in
                  local_claims-IsLive inventory claims total (insert claim.uid held found) later
                    (λ u l e''. elim (string_eq.dec u claim.uid) [
                      | yes same ↦ record {
                        claim = claim;
                        among = inside claim mem-cons_self;
                        same_uid = sym same;
                        allocation = allocation;
                        allocated = allocated;
                        result = r;
                        given = m;
                        here = here;
                      }
                      | no other ↦ h u l (sym (lookup-insert_other held found other) ∙ e'')
                    ])
                    uid live (rw full at e')
            ]
      ]

  -- The requests of a device do not matter to it.
  same_device :
      (m : Manager) (inventory : Dict String InventoryDevice) (phase : ClaimPhase)
      (claimed : ClaimDevice) (requests : List String)
      → IsVetted cfg inventory phase m (record claimed { requests = requests })
      → IsVetted cfg inventory phase m claimed
  same_device m inventory phase claimed requests (inl f) = inl f
  same_device m inventory phase claimed requests (inr (intact, fit)) = inr (
    record {
      item = intact.item;
      found = intact.found;
      same_hardware = intact.same_hardware;
      same_path = intact.same_path;
      same_major = intact.same_major;
      same_minor = intact.same_minor;
      safe = intact.safe;
    },
    fit,
  )

  pub fill_requests-All :
      (m : Manager) (inventory : Dict String InventoryDevice) (phase : ClaimPhase)
      (live devices : List ClaimDevice)
      → All (IsVetted cfg inventory phase m) (fill_requests live devices)
      → All (IsVetted cfg inventory phase m) devices
  unfolding fill_requests
  fill_requests-All m inventory phase live [] h = tt
  fill_requests-All m inventory phase live (claimed ∷ devices) (here, h) = (
    elim (Bool-cases (length claimed.requests == 0)) [
      | inl bare ↦ same_device m inventory phase claimed _ (rw bare at here)
      | inr full ↦ rw full at here
    ],
    fill_requests-All m inventory phase live devices h,
  )

  All-IsKept :
      (m : Manager) (inventory : Dict String InventoryDevice) (claims : List (Option ResourceClaim))
      (uid : String) (claim : PreparedClaim) (phase : ClaimPhase) (devices : List ClaimDevice)
      → (is_prepared phase ≡ true → (claim.phase ≡ prepared) × IsLive cfg claims uid)
      → All (IsVetted cfg inventory phase m) devices
      → All (IsKept cfg inventory claims m (uid, claim)) devices
  All-IsKept m inventory claims uid claim phase [] fit h = tt
  All-IsKept m inventory claims uid claim phase (claimed ∷ devices) fit (inl f, h) =
      (inl f, All-IsKept m inventory claims uid claim phase devices fit h)
  All-IsKept m inventory claims uid claim phase (claimed ∷ devices) fit (inr (intact, p), h) =
      let (is_prepared_then, live) = fit p in
      (
        inr (intact, is_prepared_then, live),
        All-IsKept m inventory claims uid claim phase devices fit h,
      )

  module _ (list : ℕ → Listed) (lists : start.allocations ≡ some list) where
    IsClaimVetted-IsKept :
        (m : Manager) (inventory : Dict String InventoryDevice)
        (claims : List (Option ResourceClaim)) (allocated : Dict String PreparedClaim)
        → ((uid : String) (live : PreparedClaim)
            → lookup uid allocated ≡ some live
            → IsLive cfg claims uid)
        → (uid : String) (claim : PreparedClaim)
        → IsClaimVetted cfg env start inventory allocated m (uid, claim)
        → All (IsKept cfg inventory claims m (uid, claim)) claim.devices
    unfolding revise_claim
    IsClaimVetted-IsKept m inventory claims allocated lives uid claim h =
        elim (Option-cases (lookup uid allocated)) [
          | inr (live, found) ↦
              All-IsKept m inventory claims uid claim claim.phase claim.devices
                (λ p. (prepared_of claim.phase p, lives uid live found))
                (fill_requests-All m inventory claim.phase live.devices claim.devices
                  (rw (revise_claim, found) at h))
          | inl missing ↦
              All-IsKept m inventory claims uid claim releasing claim.devices (λ p. cc)
                (rw (revise_claim, missing, lists) at h)
        ]

    All-claims :
        (m : Manager) (inventory : Dict String InventoryDevice) (live : List (Option ResourceClaim))
        (allocated claims : Dict String PreparedClaim)
        → ((uid : String) (found : PreparedClaim)
            → lookup uid allocated ≡ some found
            → IsLive cfg live uid)
        → All (IsClaimVetted cfg env start inventory allocated m) claims
        → All
            (λ (e : String × PreparedClaim). All (IsKept cfg inventory live m e) e.1.devices)
            claims
    All-claims m inventory live allocated [] lives h = tt
    All-claims m inventory live allocated ((uid, claim) ∷ claims) lives (here, h) = (
      IsClaimVetted-IsKept m inventory live allocated lives uid claim here,
      All-claims m inventory live allocated claims lives h,
    )

    -- Where the API server lists these claims at the start, after it each device of a recorded claim is in
    -- quarantine, or else it is in the inventory with the identity and the node that were recorded and
    -- safe, and the claim was recorded as prepared and is one of those listed, still with a device of
    -- this driver on this node.
    pub reconcile_claims-IsKept :
        (s : InventorySnapshot) (m : Manager) (live : List (Option ResourceClaim))
        → list m.clock ≡ listed live
        → All
            (λ (e : String × PreparedClaim).
              All
                (IsKept cfg
                  (by_name cfg env s.devices [])
                  live
                  (reconcile_claims cfg env start s m).1
                  e)
                e.1.devices)
            m.claims
    unfolding local_allocations
    reconcile_claims-IsKept s m live answered =
        let inventory = by_name cfg env s.devices [] in
        let found = local_claims cfg env start inventory live [] in
        let listing : local_allocations cfg env start inventory m ≡ ((found, none), tick m) =
          rw (local_allocations, lists, answered) refl in
        let vetted = reconcile_claims-IsVetted cfg env start s m (ap (λ x. x.0.1) listing) in
        All-claims (reconcile_claims cfg env start s m).1 inventory live found m.claims
          (local_claims-IsLive inventory live live [] (λ c i. i)
            (λ uid l e. absurd (ground (arith, e))))
          (adopt_claims-All _ found m.claims (rw listing at vetted))
