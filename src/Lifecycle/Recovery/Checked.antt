-- ===== src/Lifecycle/Recovery/Checked.antt =====
-- The devices of the claims after the start: in quarantine, or as they were.
use tenstorrent_dra_framewor.Base.{
  ◌≡◌, refl, ◌⊎◌, inl, inr, String, true, false, ◌||◌, List, [], ◌∷◌, none, some, ◌==◌, string_eq,
  nat_eq, All, Option-cases, Bool-cases, arith, ◌<>◌,
}
use tenstorrent_dra_framewor.Base.Dict.{Dict, lookup}
use tenstorrent_dra_framewor.Device.{InventoryDevice}
use tenstorrent_dra_framewor.Lifecycle.State.{
  ClaimPhase, preparing, prepared, releasing, recovered, ClaimDevice, PreparedClaim, Env, Config,
  Manager, set_claims,
}
use tenstorrent_dra_framewor.Lifecycle.Janitor.{device_unsafe_reason}
use tenstorrent_dra_framewor.Lifecycle.Observe.Grows.{
  IsFenced, Grows, stays, joined, one_of, quarantine-IsFenced, quarantine-Grows,
}
use tenstorrent_dra_framewor.Lifecycle.Cdi.{write_cdi}
use tenstorrent_dra_framewor.Lifecycle.Startup.{
  Start, phase_text, is_prepared, hardware_reason, claim_reason, phase_after, repair_device,
  repair_devices, fence_devices, is_complete, repair_cdi, revise_claim, repair_claim, repair_claims,
}

-- The device is the one that was claimed, and safe.
pub record IsIntact (cfg : Config) (inventory : Dict String InventoryDevice) (claimed : ClaimDevice)
    : Type 0 where
  pub item : InventoryDevice
  pub found : lookup claimed.device inventory ≡ some item
  pub same_hardware : (claimed.stable_id == "" || claimed.stable_id == item.stable_id) ≡ true
  pub same_path : claimed.path ≡ item.node.path
  pub same_major : claimed.major ≡ item.node.major
  pub same_minor : claimed.minor ≡ item.node.minor
  pub safe : device_unsafe_reason cfg item ≡ ""

-- The device is in quarantine, or intact and of a claim that was prepared.
abbrev pub IsVetted :
    Config → Dict String InventoryDevice → ClaimPhase → Manager → ClaimDevice → Type 0
IsVetted cfg inventory phase m claimed =
    IsFenced m claimed.device ⊎ (IsIntact cfg inventory claimed × (is_prepared phase ≡ true))

pub IsVetted-Grows :
    (a b : Manager) (cfg : Config) (inventory : Dict String InventoryDevice) (phase : ClaimPhase)
    (devices : List ClaimDevice)
    → Grows a b
    → All (IsVetted cfg inventory phase a) devices
    → All (IsVetted cfg inventory phase b) devices
IsVetted-Grows a b cfg inventory phase [] g h = tt
IsVetted-Grows a b cfg inventory phase (claimed ∷ devices) g (inl f, h) =
    (inl (g.kept claimed.device f), IsVetted-Grows a b cfg inventory phase devices g h)
IsVetted-Grows a b cfg inventory phase (claimed ∷ devices) g (inr intact, h) =
    (inr intact, IsVetted-Grows a b cfg inventory phase devices g h)

not_empty : (s : String) → (s == "") ≡ false → ¬ ◌≡◌ {A = String} s ""
not_empty s h e = ground (arith, h, e)

missing-reason : ¬ ◌≡◌ {A = String} "persisted device is not present" ""
unfolding string_eq
missing-reason = not_empty _ refl

hardware-reason : ¬ ◌≡◌ {A = String} "persisted hardware identity changed" ""
unfolding string_eq
hardware-reason = not_empty _ refl

node-reason : ¬ ◌≡◌ {A = String} "persisted device node identity changed" ""
unfolding string_eq
node-reason = not_empty _ refl

request-reason : ¬ ◌≡◌ {A = String} "persisted request association is unavailable" ""
unfolding string_eq
request-reason = not_empty _ refl

interrupted-reason :
    (phase : ClaimPhase)
    → ¬ ◌≡◌ {A = String} ("interrupted " <> (phase_text phase <> " transition")) ""
unfolding string_eq
interrupted-reason preparing = not_empty _ refl
interrupted-reason prepared = not_empty _ refl
interrupted-reason releasing = not_empty _ refl
interrupted-reason recovered = not_empty _ refl

no_reason-is_prepared :
    (phase : ClaimPhase) (claimed : ClaimDevice) (hardware : String)
    → claim_reason phase claimed hardware ≡ ""
    → (hardware ≡ "") × (is_prepared phase ≡ true)
unfolding claim_reason
no_reason-is_prepared preparing claimed hardware h =
    ground (arith, h, request-reason, interrupted-reason preparing)
no_reason-is_prepared prepared claimed hardware h = ground (arith, h, request-reason)
no_reason-is_prepared releasing claimed hardware h =
    ground (arith, h, request-reason, interrupted-reason releasing)
no_reason-is_prepared recovered claimed hardware h =
    ground (arith, h, request-reason, interrupted-reason recovered)

no_reason-IsIntact :
    (cfg : Config) (inventory : Dict String InventoryDevice) (claimed : ClaimDevice)
    → hardware_reason cfg claimed (lookup claimed.device inventory) ≡ ""
    → IsIntact cfg inventory claimed
unfolding hardware_reason
no_reason-IsIntact cfg inventory claimed h = elim (Option-cases (lookup claimed.device inventory)) [
  | inl missing ↦ absurd (missing-reason (rw missing at h))
  | inr (item, found) ↦
      let quiet = rw (hardware_reason, found) at h in
      record {
        item = item;
        found = found;
        same_hardware = ground (arith, quiet, hardware-reason);
        same_path = ground (arith, quiet, hardware-reason, node-reason);
        same_major = ground (arith, quiet, hardware-reason, node-reason);
        same_minor = ground (arith, quiet, hardware-reason, node-reason);
        safe = ground (arith, quiet, hardware-reason, node-reason);
      }
]

prepared_after :
    (phase : ClaimPhase) (claimed : ClaimDevice) (hardware : String)
    → is_prepared (phase_after phase claimed hardware) ≡ true
    → is_prepared phase ≡ true
unfolding phase_after
prepared_after phase claimed hardware h = ground (arith, h)

IsVetted-earlier :
    (m : Manager) (cfg : Config) (inventory : Dict String InventoryDevice) (claimed : ClaimDevice)
    (hardware : String) (phase : ClaimPhase) (devices : List ClaimDevice)
    → All (IsVetted cfg inventory (phase_after phase claimed hardware) m) devices
    → All (IsVetted cfg inventory phase m) devices
IsVetted-earlier m cfg inventory claimed hardware phase [] h = tt
IsVetted-earlier m cfg inventory claimed hardware phase (item ∷ devices) (inl f, h) =
    (inl f, IsVetted-earlier m cfg inventory claimed hardware phase devices h)
IsVetted-earlier m cfg inventory claimed hardware phase (item ∷ devices) (inr (intact, fit), h) = (
  inr (intact, prepared_after phase claimed hardware fit),
  IsVetted-earlier m cfg inventory claimed hardware phase devices h,
)

module _ (cfg : Config) (env : Env) (start : Start) where
  fence_devices-Grows :
      (claim : PreparedClaim) (reason : String) (devices : List ClaimDevice) (m : Manager)
      → Grows m (fence_devices cfg env start claim reason devices m).1
  unfolding fence_devices
  fence_devices-Grows claim reason [] m = stays
  fence_devices-Grows claim reason (claimed ∷ devices) m =
      joined (quarantine-Grows cfg env _ _ _ (some claim) _ m)
        (fence_devices-Grows claim reason devices _)

  write_cdi-Grows : (claim : PreparedClaim) (m : Manager) → Grows m (write_cdi env claim m).1
  unfolding write_cdi
  write_cdi-Grows claim m = record { kept = λ name f. f }

  repair_cdi-Grows :
      (claim : PreparedClaim) (m : Manager) → Grows m (repair_cdi cfg env start claim m).1
  unfolding repair_cdi
  repair_cdi-Grows claim m =
      let written = write_cdi env claim m in
      elim (Option-cases written.0) [
        | inl fine ↦
            rw (repair_cdi, fine)
              (one_of (is_complete claim) (none, written.1) (none, m) (write_cdi-Grows claim m)
                stays)
        | inr (e, fault) ↦
            let fenced =
              fence_devices cfg env start claim ("CDI repair failed: " <> e) claim.devices
                written.1 in
            rw (repair_cdi, fault)
              (one_of (is_complete claim) fenced (none, m)
                (joined (write_cdi-Grows claim m) (fence_devices-Grows claim _ claim.devices _))
                stays)
      ]

  module _ (claim : PreparedClaim) (inventory : Dict String InventoryDevice) where
    repair_device-Grows :
        (claimed : ClaimDevice) (phase : ClaimPhase) (m : Manager)
        → Grows m (repair_device cfg env start claim inventory claimed phase m).1
    unfolding repair_device
    repair_device-Grows claimed phase m = one_of _ _ _ stays (quarantine-Grows cfg env _ _ _ _ _ m)

    repair_device-IsVetted :
        (claimed : ClaimDevice) (phase : ClaimPhase) (m : Manager)
        → IsVetted cfg inventory phase
            (repair_device cfg env start claim inventory claimed phase m).1
            claimed
    unfolding repair_device
    repair_device-IsVetted claimed phase m =
        let hardware = hardware_reason cfg claimed (lookup claimed.device inventory) in
        elim (Bool-cases (claim_reason phase claimed hardware == "")) [
          | inl quiet ↦
              let (whole, fit) =
                no_reason-is_prepared phase claimed hardware (ground (arith, quiet)) in
              inr (no_reason-IsIntact cfg inventory claimed whole, fit)
          | inr loud ↦ rw (repair_device, loud) (inl (quarantine-IsFenced cfg env _ _ _ _ _ m))
        ]

    repair_devices-Grows :
        (devices : List ClaimDevice) (phase : ClaimPhase) (m : Manager)
        → Grows m (repair_devices cfg env start claim inventory devices phase m).1
    unfolding repair_devices
    repair_devices-Grows [] phase m = stays
    repair_devices-Grows (claimed ∷ devices) phase m =
        joined (repair_device-Grows claimed phase m) (repair_devices-Grows devices _ _)

    repair_devices-IsVetted :
        (devices : List ClaimDevice) (phase : ClaimPhase) (m : Manager)
        → All
            (IsVetted cfg inventory phase
              (repair_devices cfg env start claim inventory devices phase m).1)
            devices
    unfolding repair_devices
    repair_devices-IsVetted [] phase m = tt
    repair_devices-IsVetted (claimed ∷ devices) phase m =
        let hardware = hardware_reason cfg claimed (lookup claimed.device inventory) in
        let phase' = phase_after phase claimed hardware in
        let fenced = (repair_device cfg env start claim inventory claimed phase m).1 in
        let end = (repair_devices cfg env start claim inventory devices phase' fenced).1 in
        let here =
          IsVetted-Grows fenced end cfg inventory phase (claimed ∷ [])
            (repair_devices-Grows devices phase' fenced)
            (repair_device-IsVetted claimed phase m, tt) in
        (
          here.0,
          IsVetted-earlier end cfg inventory claimed hardware phase devices
              (repair_devices-IsVetted devices phase' fenced),
        )

  module _ (inventory : Dict String InventoryDevice) (allocated : Dict String PreparedClaim) where
    set_claims-Grows :
        (claims : Dict String PreparedClaim) (m : Manager) → Grows m (set_claims claims m)
    set_claims-Grows claims m = record { kept = λ name f. f }

    -- After the repair of a claim.
    abbrev pub IsClaimVetted : Manager → String × PreparedClaim → Type 0
    IsClaimVetted m (uid, claim) =
        let revised = revise_claim cfg env start allocated uid claim in
        All (IsVetted cfg inventory revised.phase m) revised.devices

    repair_claim-Grows :
        (uid : String) (claim : PreparedClaim) (m : Manager)
        → Grows m (repair_claim cfg env start inventory allocated uid claim m).1
    unfolding repair_claim
    repair_claim-Grows uid claim m =
        let revised = revise_claim cfg env start allocated uid claim in
        joined (repair_devices-Grows revised inventory revised.devices revised.phase m)
          (joined (set_claims-Grows _ _) (repair_cdi-Grows _ _))

    repair_claim-IsVetted :
        (uid : String) (claim : PreparedClaim) (m : Manager)
        → IsClaimVetted (repair_claim cfg env start inventory allocated uid claim m).1 (uid, claim)
    unfolding repair_claim
    repair_claim-IsVetted uid claim m =
        let revised = revise_claim cfg env start allocated uid claim in
        let repaired =
          (repair_devices cfg env start revised inventory revised.devices revised.phase m).1 in
        IsVetted-Grows repaired _ cfg inventory revised.phase revised.devices
          (joined (set_claims-Grows _ _) (repair_cdi-Grows _ _))
          (repair_devices-IsVetted revised inventory revised.devices revised.phase m)

    repair_claims-Grows :
        (claims : Dict String PreparedClaim) (m : Manager)
        → Grows m (repair_claims cfg env start inventory allocated claims m).1
    unfolding repair_claims
    repair_claims-Grows [] m = stays
    repair_claims-Grows ((uid, claim) ∷ claims) m =
        joined (repair_claim-Grows uid claim m) (repair_claims-Grows claims _)

    -- After the start's pass over the claims, each device of a claim, as `revise_claim` makes it, is in
    -- quarantine, or intact and the claim prepared.
    pub repair_claims-IsVetted :
        (claims : Dict String PreparedClaim) (m : Manager)
        → All (IsClaimVetted (repair_claims cfg env start inventory allocated claims m).1) claims
    unfolding repair_claims
    repair_claims-IsVetted [] m = tt
    repair_claims-IsVetted ((uid, claim) ∷ claims) m =
        let revised = revise_claim cfg env start allocated uid claim in
        (
          IsVetted-Grows _ _ cfg inventory revised.phase revised.devices
              (repair_claims-Grows claims _) (repair_claim-IsVetted uid claim m),
          repair_claims-IsVetted claims _,
        )
