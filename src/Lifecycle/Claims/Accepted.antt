-- ===== src/Lifecycle/Claims/Accepted.antt =====
-- What `claimFromAllocation` accepts.
use tenstorrent_dra_framewor.Base.{
  String, true, false, List, [], ◌∷◌, ◌++◌, none, some, string_eq, nat_eq, Option-cases, Bool-cases,
  ◌≡◌, ◌≢◌, refl, sym, subst, arith, ◌==◌, contains, inl, inr, ap, ◌∙◌, map, keep, All, All-append,
  any,
}
use mathlib.Core.List.{append-nil}
use tenstorrent_dra_framewor.Base.Distinct.{Unique, Unique-concat, any-append}
use tenstorrent_dra_framewor.Base.Dict.{Dict, lookup}
use tenstorrent_dra_framewor.Device.{InventoryDevice}
use tenstorrent_dra_framewor.Lifecycle.State.{ClaimDevice, PreparedClaim, Config}
use tenstorrent_dra_framewor.Lifecycle.Janitor.{device_unsafe_reason}
use tenstorrent_dra_framewor.Lifecycle.Claims.{
  AllocationResult, ResourceClaim, Allocation, accepted, is_taken, check_item, check_result,
  claimed, claimed_device, Claimed, devices, stopped, check_results, foreign_config,
  claim_from_allocation,
}

abbrev pub device_of : ClaimDevice → String
device_of item = item.device

module _ (cfg : Config) (uid : String) (by_name : Dict String InventoryDevice)
    (owners : Dict String String) where
  -- The device is in the inventory of this node under its name and with its identity, it is safe to
  -- use, and no other claim holds it.
  pub record IsLocal (item : ClaimDevice) : Type 0 where
    pub entry : InventoryDevice
    pub found : lookup item.device by_name ≡ some entry
    pub eligible : entry.eligible ≡ true
    pub safe : device_unsafe_reason cfg entry ≡ ""
    pub free : is_taken cfg uid by_name owners item.device ≡ false
    pub pool_same : item.pool ≡ cfg.node_name
    pub id_same : item.stable_id ≡ entry.stable_id

  -- The devices found so far, among the names that were seen.
  record Found (seen : List String) (items : List ClaimDevice) : Type 0 where
    local : All IsLocal items
    unique : Unique device_of items
    covered :
        (name : String) → contains seen name ≡ false → any (λ y. y.device == name) items ≡ false

  check_item-IsLocal :
      (seen : List String) (result : AllocationResult) (item : InventoryDevice)
      → lookup result.device by_name ≡ some item
      → result.pool ≡ cfg.node_name
      → check_item cfg uid by_name owners seen result item ≡ none
      → IsLocal (claimed cfg uid by_name owners result item) × (contains seen result.device ≡ false)
  unfolding check_item
  check_item-IsLocal seen result item hit pool h = (
    record {
      entry = item;
      found = hit;
      eligible = ground (arith, h);
      safe = ground (arith, h);
      free = ground (arith, h);
      pool_same = pool;
      id_same = refl;
    },
    ground (arith, h),
  )

  check_result-IsLocal :
      (seen : List String) (result : AllocationResult)
      → check_result cfg uid by_name owners seen result ≡ none
      → (item : InventoryDevice) × (lookup result.device by_name ≡ some item)
        × IsLocal (claimed cfg uid by_name owners result item)
        × (contains seen result.device ≡ false)
  unfolding check_result
  check_result-IsLocal seen result h = elim (Option-cases (lookup result.device by_name)) [
    | inl miss ↦ absurd (ground (arith, h, miss))
    | inr (item, hit) ↦
        let local =
          check_item-IsLocal seen result item hit (ground (arith, h, hit))
            (ground (arith, h, hit)) in
        (item, hit, local.0, local.1)
  ]

  add-Found :
      (seen : List String) (items : List ClaimDevice) (item : ClaimDevice)
      → Found seen items
      → IsLocal item
      → contains seen item.device ≡ false
      → Found (item.device ∷ seen) (items ++ (item ∷ []))
  add-Found seen items item f local new = record {
    local = All-append IsLocal items (item ∷ []) f.local (local, tt);
    unique = Unique-concat device_of items item (f.covered item.device new) f.unique;
    covered = λ name out. ground (
      arith,
      out,
      any-append device_of (λ y. y.device == name) items (item ∷ []),
      f.covered name,
    );
  }

  check_results-Found :
      (seen : List String) (found : List ClaimDevice) (results : List AllocationResult)
      (ds : List ClaimDevice)
      → Found seen found
      → check_results cfg uid by_name owners seen found results ≡ devices ds
      → All IsLocal ds × Unique device_of ds
  unfolding check_results claimed_device
  check_results-Found seen found [] ds f h =
      let same : found ≡ ds = ground (arith, h) in
      subst (λ x. All IsLocal x × Unique device_of x) same (f.local, f.unique)
  check_results-Found seen found (result ∷ results) ds f h =
      elim (Bool-cases (result.driver == cfg.driver)) [
        | inr other ↦ check_results-Found seen found results ds f (ground (arith, h, other))
        | inl mine ↦ elim (Option-cases (check_result cfg uid by_name owners seen result)) [
          | inr (e, fault) ↦ absurd (ground (arith, h, fault, mine))
          | inl fine ↦
              let (item, hit, local, new) = check_result-IsLocal seen result fine in
              let one : claimed_device cfg uid by_name owners result
                  ≡ claimed cfg uid by_name owners result item ∷ [] =
                rw (hit, claimed_device) refl in
              check_results-Found (result.device ∷ seen) _ results ds
                (add-Found seen found _ f local new) (ground (arith, h, fine, mine, one))
        ]
      ]

-- The requests, pool and name of a device, as claimed and as allocated.
abbrev pub asked : ClaimDevice → List String × String × String
asked item = (item.requests, item.pool, item.device)

abbrev pub allotted : AllocationResult → List String × String × String
allotted result = (result.request ∷ [], result.pool, result.device)

-- The results of an allocation that are for the driver.
abbrev pub results_for : String → Allocation → List AllocationResult
results_for driver allocation =
    keep (λ (r : AllocationResult). r.driver == driver) allocation.results

module _ (cfg : Config) (uid : String) (by_name : Dict String InventoryDevice)
    (owners : Dict String String) where
  add-asked :
      (items : List ClaimDevice) (item : ClaimDevice) (more : List (List String × String × String))
      → map asked (items ++ (item ∷ [])) ++ more ≡ map asked items ++ (asked item ∷ more)
  add-asked [] item more = refl
  add-asked (x ∷ items) item more = ap (◌∷◌ (asked x)) (add-asked items item more)

  check_results-asked :
      (seen : List String) (found : List ClaimDevice) (results : List AllocationResult)
      (ds : List ClaimDevice)
      → check_results cfg uid by_name owners seen found results ≡ devices ds
      → map asked ds
        ≡ map asked found
          ++ map allotted (keep (λ (r : AllocationResult). r.driver == cfg.driver) results)
  unfolding check_results claimed_device keep
  check_results-asked seen found [] ds h =
      let same : found ≡ ds = ground (arith, h) in
      ap (map asked) (sym same) ∙ sym (append-nil (map asked found))
  check_results-asked seen found (result ∷ results) ds h =
      elim (Bool-cases (result.driver == cfg.driver)) [
        | inr other ↦
            rw other (check_results-asked seen found results ds (ground (arith, h, other)))
        | inl mine ↦ elim (Option-cases (check_result cfg uid by_name owners seen result)) [
          | inr (e, fault) ↦ absurd (ground (arith, h, fault, mine))
          | inl fine ↦
              let (item, hit, local, new) =
                check_result-IsLocal cfg uid by_name owners seen result fine in
              let one : claimed_device cfg uid by_name owners result
                  ≡ claimed cfg uid by_name owners result item ∷ [] =
                rw (hit, claimed_device) refl in
              rw mine (
                check_results-asked (result.device ∷ seen)
                  (found ++ (claimed cfg uid by_name owners result item ∷ [])) results ds
                  (ground (arith, h, fine, mine, one))
                ∙ add-asked found _ _)
        ]
      ]

module _ (cfg : Config) (by_name : Dict String InventoryDevice) (owners : Dict String String) where
  -- A claim that `claimFromAllocation` accepts: its devices are those of the results for this driver, in
  -- their order.
  pub record IsAcceptable (claim : ResourceClaim) (allocation : Allocation) (wanted : PreparedClaim)
      : Type 0 where
    pub allocated : map asked wanted.devices ≡ map allotted (results_for cfg.driver allocation)
    pub uid_same : wanted.uid ≡ claim.uid
    pub some_device : wanted.devices ≢ []
    pub local : All (IsLocal cfg claim.uid by_name owners) wanted.devices
    pub unique : Unique device_of wanted.devices

  results-IsAcceptable :
      (claim : ResourceClaim) (allocation : Allocation) (wanted : PreparedClaim)
      (ds : Claimed cfg claim.uid by_name owners)
      → check_results cfg claim.uid by_name owners [] [] allocation.results ≡ ds
      → foreign_config cfg.driver allocation.configs ≡ none
      → claim_from_allocation cfg by_name owners claim allocation ≡ accepted wanted
      → IsAcceptable claim allocation wanted
  unfolding claim_from_allocation
  results-IsAcceptable claim allocation wanted (stopped e) r fine h =
      absurd (ground (arith, h, fine, r))
  results-IsAcceptable claim allocation wanted (devices []) r fine h =
      absurd (ground (arith, h, fine, r))
  results-IsAcceptable claim allocation wanted (devices (item ∷ items)) r fine h =
      let checked =
        check_results-Found cfg claim.uid by_name owners [] [] allocation.results (item ∷ items)
          (record { local = tt; unique = tt; covered = λ name out. refl }) r in
      let same : wanted.devices ≡ item ∷ items = ground (arith, h, fine, r) in
      record {
        allocated =
            ap (map asked) same
            ∙ check_results-asked cfg claim.uid by_name owners [] [] allocation.results
                (item ∷ items) r;
        uid_same = ground (arith, h, fine, r);
        some_device = λ e. ground (arith, e, same);
        local = subst (λ ds. All (IsLocal cfg claim.uid by_name owners) ds) (sym same) checked.0;
        unique = subst (λ ds. Unique device_of ds) (sym same) checked.1;
      }

  no_config :
      (claim : ResourceClaim) (allocation : Allocation) (wanted : PreparedClaim)
      → claim_from_allocation cfg by_name owners claim allocation ≡ accepted wanted
      → foreign_config cfg.driver allocation.configs ≡ none
  unfolding claim_from_allocation
  no_config claim allocation wanted h = ground (arith, h)

  -- The devices of an accepted claim are those of the results of its allocation for this driver, with
  -- their requests, pools and names, in their order. Each is in the inventory of this node under its name and with its
  -- identity, eligible and safe, and `owners` names no other claim for it; there is at least one, and none
  -- twice.
  pub claim_from_allocation-IsAcceptable :
      (claim : ResourceClaim) (allocation : Allocation) (wanted : PreparedClaim)
      → claim_from_allocation cfg by_name owners claim allocation ≡ accepted wanted
      → IsAcceptable claim allocation wanted
  claim_from_allocation-IsAcceptable claim allocation wanted h =
      results-IsAcceptable claim allocation wanted _ refl (no_config claim allocation wanted h) h
