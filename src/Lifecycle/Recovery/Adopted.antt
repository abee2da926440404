-- ===== src/Lifecycle/Recovery/Adopted.antt =====
-- The live claims that the file lacks, after the start.
use tenstorrent_dra_framewor.Base.{
  ℕ, ◌≡◌, refl, sym, ap, subst, ◌∙◌, inl, inr, String, Bool, true, false, not, ◌||◌, List, [], ◌∷◌,
  ◌++◌, Option, none, some, ◌==◌, string_eq, nat_eq, All, any, keep, Option-cases, Bool-cases,
  arith, length,
}
use tenstorrent_dra_framewor.Base.Dict.{
  Dict, lookup, insert, has, lookup-insert_same, lookup-insert_other,
}
use tenstorrent_dra_framewor.Device.{InventoryDevice, InventorySnapshot}
use tenstorrent_dra_framewor.Lifecycle.State.{
  recovered, ClaimDevice, PreparedClaim, Env, Config, Manager, tick,
}
use tenstorrent_dra_framewor.Lifecycle.Observe.{by_name}
use tenstorrent_dra_framewor.Lifecycle.Observe.Grows.{IsFenced}
use tenstorrent_dra_framewor.Lifecycle.Claims.{ResourceClaim, Allocation, AllocationResult}
use tenstorrent_dra_framewor.Lifecycle.Startup.{
  Start, Listed, listed, local_devices, local_claims, local_allocations, adopt_claims, revise_claim,
}
use tenstorrent_dra_framewor.Lifecycle.Recovery.{reconcile_claims}
use tenstorrent_dra_framewor.Lifecycle.Recovery.Checked.{IsVetted, IsClaimVetted}
use tenstorrent_dra_framewor.Lifecycle.Recovery.Vetted.{reconcile_claims-IsVetted}
use tenstorrent_dra_framewor.Lifecycle.Recovery.Allocated.{
  is_local, adopt_claims-All, fill_requests-All,
}

-- The claim is one of this uid.
abbrev pub is_of : String → Option ResourceClaim → Bool
is_of uid none = false
is_of uid (some claim) = claim.uid == uid

-- What `localAllocations` holds of a claim.
abbrev held_claim : ResourceClaim → List ClaimDevice → PreparedClaim
held_claim claim devices = record {
  uid = claim.uid;
  namespace = claim.namespace;
  name = claim.name;
  phase = recovered;
  devices = devices;
}

insert_at :
    (P : String × PreparedClaim → Type 0) (k : String) (v : PreparedClaim)
    (d : Dict String PreparedClaim)
    → All P (insert k v d)
    → P (k, v)
unfolding insert
insert_at P k v [] h = h.0
insert_at P k v ((j, w) ∷ d) h = elim (Bool-cases (k == j)) [
  | inl same ↦ (rw same at h).0
  | inr other ↦ insert_at P k v d (rw other at h).1
]

not_has : (k : String) (d : Dict String PreparedClaim) → lookup k d ≡ none → has k d ≡ false
not_has k d h = rw (has, h) refl

All-empty :
    (P : ClaimDevice → Type 0) (items : List ClaimDevice) → (length items == 0) ≡ true → All P items
All-empty P [] h = tt
All-empty P (x ∷ items) h = absurd (ground (arith, h))

vetted-IsFenced :
    (cfg : Config) (inventory : Dict String InventoryDevice) (m : Manager) (item : ClaimDevice)
    → IsVetted cfg inventory recovered m item
    → IsFenced m item.device
vetted-IsFenced cfg inventory m item (inl f) = f
vetted-IsFenced cfg inventory m item (inr (intact, p)) = cc

module _ (cfg : Config) (env : Env) (start : Start) where
  local_devices-IsFenced :
      (uid : String) (inventory : Dict String InventoryDevice) (m : Manager)
      (results : List AllocationResult)
      → All (IsVetted cfg inventory recovered m) (local_devices cfg env start uid inventory results)
      → All (λ (r : AllocationResult). IsFenced m r.device) (keep (is_local cfg) results)
  unfolding local_devices keep
  local_devices-IsFenced uid inventory m [] h = tt
  local_devices-IsFenced uid inventory m (result ∷ results) h =
      elim (Bool-cases (not (result.driver == cfg.driver) || not (result.pool == cfg.node_name))) [
        | inl other ↦
            let skipped : is_local cfg result ≡ false = ground (arith, other) in
            rw skipped
              (local_devices-IsFenced uid inventory m results (rw (local_devices, other) at h))
        | inr mine ↦
            let here : is_local cfg result ≡ true = ground (arith, mine) in
            let (first, rest) = rw (local_devices, mine) at h in
            let fenced : IsFenced m result.device =
              elim (Option-cases (lookup result.device inventory)) [
                | inl missing ↦ vetted-IsFenced cfg inventory m _ (rw missing at first)
                | inr (item, found) ↦ vetted-IsFenced cfg inventory m _ (rw found at first)
              ] in
            rw here (fenced, local_devices-IsFenced uid inventory m results rest)
      ]

  -- A live claim that is not recorded is adopted.
  adopt_claims-adopts :
      (P : String × PreparedClaim → Type 0) (allocated claims : Dict String PreparedClaim)
      (uid : String) (live : PreparedClaim)
      → lookup uid allocated ≡ some live
      → lookup uid claims ≡ none
      → All P (adopt_claims cfg env start allocated claims)
      → P (uid, record live { phase = recovered })
  unfolding adopt_claims lookup
  adopt_claims-adopts P [] claims uid live found out h = absurd (ground (arith, found))
  adopt_claims-adopts P ((k, other) ∷ allocated) claims uid live found out h =
      elim (string_eq.dec uid k) [
        | yes same ↦
            let is_live : other ≡ live = ground (arith, found, same) in
            let new : has k claims ≡ false =
              subst (λ j. has j claims ≡ false) same (not_has uid claims out) in
            let added =
              adopt_claims-All cfg env start P allocated
                (insert k (record other { phase = recovered }) claims)
                (rw (adopt_claims, new) at h) in
            let here = insert_at P k (record other { phase = recovered }) claims added in
            subst (λ j. P (j, record live { phase = recovered })) (sym same)
              (subst (λ l. P (k, record l { phase = recovered })) is_live here)
        | no differ ↦
            let later : lookup uid allocated ≡ some live = ground (arith, found, differ) in
            elim (Bool-cases (has k claims)) [
              | inl known ↦
                  adopt_claims-adopts P allocated claims uid live later out
                    (rw (adopt_claims, known) at h)
              | inr new ↦
                  adopt_claims-adopts P allocated
                    (insert k (record other { phase = recovered }) claims) uid live later
                    (lookup-insert_other (record other { phase = recovered }) claims differ ∙ out)
                    (rw (adopt_claims, new) at h)
            ]
      ]

  -- The claims after it in the list leave its entry alone, where none has its uid.
  local_claims-stays :
      (inventory : Dict String InventoryDevice) (claims : List (Option ResourceClaim))
      (found : Dict String PreparedClaim) (uid : String)
      → any (is_of uid) claims ≡ false
      → lookup uid (local_claims cfg env start inventory claims found) ≡ lookup uid found
  unfolding local_claims
  local_claims-stays inventory [] found uid out = refl
  local_claims-stays inventory (none ∷ claims) found uid out =
      local_claims-stays inventory claims found uid out
  local_claims-stays inventory (some claim ∷ claims) found uid out =
      let later : any (is_of uid) claims ≡ false = ground (arith, out) in
      elim (Option-cases claim.allocation) [
        | inl missing ↦
            rw (local_claims, missing) (local_claims-stays inventory claims found uid later)
        | inr (allocation, allocated) ↦
            let devices = local_devices cfg env start claim.uid inventory allocation.results in
            let differ : ¬ (uid ≡ claim.uid) = λ same. ground (arith, out, same) in
            rw (local_claims, allocated)
              (elim (Bool-cases (length devices == 0)) [
                | inl empty ↦ rw empty (local_claims-stays inventory claims found uid later)
                | inr full ↦ rw full (
                    local_claims-stays inventory claims
                      (insert claim.uid (held_claim claim devices) found) uid later
                    ∙ lookup-insert_other (held_claim claim devices) found differ)
              ])
      ]

  local_claims-last :
      (inventory : Dict String InventoryDevice) (before after : List (Option ResourceClaim))
      (found : Dict String PreparedClaim) (claim : ResourceClaim) (allocation : Allocation)
      → claim.allocation ≡ some allocation
      → any (is_of claim.uid) after ≡ false
      → (length (local_devices cfg env start claim.uid inventory allocation.results) == 0) ≡ false
      → lookup claim.uid
          (local_claims cfg env start inventory (before ++ (some claim ∷ after)) found)
        ≡ some
            (held_claim claim (local_devices cfg env start claim.uid inventory allocation.results))
  unfolding local_claims
  local_claims-last inventory [] after found claim allocation allocated out full =
      let devices = local_devices cfg env start claim.uid inventory allocation.results in
      rw (local_claims, allocated, full)
        (local_claims-stays inventory after (insert claim.uid (held_claim claim devices) found)
            claim.uid out
          ∙ lookup-insert_same claim.uid (held_claim claim devices) found)
  local_claims-last inventory (none ∷ before) after found claim allocation allocated out full =
      local_claims-last inventory before after found claim allocation allocated out full
  local_claims-last inventory (some other ∷ before) after found claim allocation allocated out
        full =
      elim (Option-cases other.allocation) [
        | inl missing ↦
            rw (local_claims, missing)
              (local_claims-last inventory before after found claim allocation allocated out full)
        | inr (given, e) ↦
            rw (local_claims, e)
              (local_claims-last inventory before after _ claim allocation allocated out full)
      ]

  -- Where the API server lists these claims at the start, and one of them has an allocation, a uid that
  -- no recorded claim has and no later one in the list, then after the start every device that the
  -- allocation gives of this driver on this node is in quarantine.
  pub reconcile_claims-AllFenced :
      (list : ℕ → Listed) (s : InventorySnapshot) (m : Manager)
      (before after : List (Option ResourceClaim)) (claim : ResourceClaim) (allocation : Allocation)
      → start.allocations ≡ some list
      → list m.clock ≡ listed (before ++ (some claim ∷ after))
      → claim.allocation ≡ some allocation
      → any (is_of claim.uid) after ≡ false
      → lookup claim.uid m.claims ≡ none
      → All
          (λ (r : AllocationResult). IsFenced (reconcile_claims cfg env start s m).1 r.device)
          (keep (is_local cfg) allocation.results)
  unfolding local_allocations revise_claim
  reconcile_claims-AllFenced list s m before after claim allocation lists answered allocated last
        new =
      let inventory = by_name cfg env s.devices [] in
      let live = before ++ (some claim ∷ after) in
      let found = local_claims cfg env start inventory live [] in
      let devices = local_devices cfg env start claim.uid inventory allocation.results in
      let held = held_claim claim devices in
      let end = (reconcile_claims cfg env start s m).1 in
      let listing : local_allocations cfg env start inventory m ≡ ((found, none), tick m) =
        rw (local_allocations, lists, answered) refl in
      let vetted = reconcile_claims-IsVetted cfg env start s m (ap (λ x. x.0.1) listing) in
      let checked : All (IsVetted cfg inventory recovered end) devices =
        elim (Bool-cases (length devices == 0)) [
          | inl empty ↦ All-empty (IsVetted cfg inventory recovered end) devices empty
          | inr full ↦
              let there =
                local_claims-last inventory before after [] claim allocation allocated last full in
              let adopted =
                adopt_claims-adopts (IsClaimVetted cfg env start inventory found end) found m.claims
                  claim.uid held there new (rw listing at vetted) in
              fill_requests-All cfg env start end inventory recovered devices devices
                (rw (revise_claim, there) at adopted)
        ] in
      local_devices-IsFenced claim.uid inventory end allocation.results checked
