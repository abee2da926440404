-- ===== src/Lifecycle/Startup.antt =====
-- internal/lifecycle/recovery.go and `NewManager` of manager.go: the start of a manager from its file,
-- the live allocations, the CDI files and the inventory.
use tenstorrent_dra_framewor.Base.{
  ℕ, String, ◌<>◌, Bool, true, false, not, ◌&&◌, ◌||◌, List, [], ◌∷◌, Option, none, some, ◌==◌,
  string_eq, nat_eq, if◌then◌else◌, length, all, ltb,
}
use tenstorrent_dra_framewor.Base.Dict.{Dict, lookup, insert, has}
use tenstorrent_dra_framewor.Device.{InventoryDevice}
use tenstorrent_dra_framewor.Lifecycle.State.{
  ClaimPhase, preparing, prepared, releasing, recovered, ClaimDevice, PreparedClaim, PersistedState,
  state_version, Env, Config, Manager, M, tick, join, set_claims,
}
use tenstorrent_dra_framewor.Lifecycle.Janitor.{device_unsafe_reason, quarantine}
use tenstorrent_dra_framewor.Lifecycle.Cdi.{cdi_id, write_cdi}
use tenstorrent_dra_framewor.Lifecycle.Claims.{ResourceClaim, AllocationResult}

-- The listing of the claims by the API server, of the CDI directory, and the rename of the bad file.
pub data Listed : Type 0 where
  listed : List (Option ResourceClaim) → Listed
  unlisted : String → Listed

pub data Directory : Type 0 where
  present absent : Directory
  unreadable : String → Directory

-- `allocations` is `none` where the callback is nil; a directory that is there holds the CDI files.
pub record Start : Type 0 where
  pub allocations : Option (ℕ → Listed)
  pub directory : ℕ → Directory
  pub rename : ℕ → Option String

abbrev pub empty_state : PersistedState
empty_state = record { version = state_version; claims = []; quarantined = []; known = [] }

-- `strings.ToLower(string(claim.Phase))`
abbrev pub phase_text : ClaimPhase → String
phase_text preparing = "preparing"
phase_text prepared = "prepared"
phase_text releasing = "releasing"
phase_text recovered = "recovered"

abbrev pub is_prepared : ClaimPhase → Bool
is_prepared preparing = false
is_prepared prepared = true
is_prepared releasing = false
is_prepared recovered = false

-- What is wrong with the hardware of a claimed device: the `switch` of `reconcileStartup`.
unfoldable pub hardware_reason : Config → ClaimDevice → Option InventoryDevice → String
unfolding device_unsafe_reason
hardware_reason cfg claimed none = "persisted device is not present"
hardware_reason cfg claimed (some item) =
    if not (claimed.stable_id == "") && not (claimed.stable_id == item.stable_id)
    then "persisted hardware identity changed"
    else if not (claimed.path == item.node.path)
        || (not (claimed.major == item.node.major) || not (claimed.minor == item.node.minor))
    then "persisted device node identity changed"
    else device_unsafe_reason cfg item

-- The identity that an older record lacks.
unfoldable pub identified : ClaimDevice → Option InventoryDevice → ClaimDevice
identified claimed none = claimed
identified claimed (some item) =
    if claimed.stable_id == "" then record claimed { stable_id = item.stable_id } else claimed

-- What is wrong with the claim of a device whose hardware is in order.
unfoldable pub claim_reason : ClaimPhase → ClaimDevice → String → String
claim_reason phase claimed reason =
    if not (is_prepared phase) && reason == ""
    then "interrupted " <> (phase_text phase <> " transition")
    else if length claimed.requests == 0 && reason == ""
    then "persisted request association is unavailable"
    else reason

-- A device without a request makes the claim `Recovered`.
unfoldable pub phase_after : ClaimPhase → ClaimDevice → String → ClaimPhase
phase_after phase claimed reason =
    if is_prepared phase && (reason == "" && length claimed.requests == 0) then recovered else phase

-- `requests[claimed.Device]` of the live claim, a later device first.
unfoldable pub requests_of : String → List ClaimDevice → List String → List String
requests_of device [] found = found
requests_of device (claimed ∷ live) found =
    requests_of device live (if device == claimed.device then claimed.requests else found)

unfoldable pub fill_requests : List ClaimDevice → List ClaimDevice → List ClaimDevice
unfolding requests_of
fill_requests live [] = []
fill_requests live (claimed ∷ devices) =
    (if length claimed.requests == 0
      then record claimed { requests = requests_of claimed.device live [] }
      else claimed)
    ∷ fill_requests live devices

-- There are devices, and each has its node.
unfoldable pub is_complete : PreparedClaim → Bool
is_complete claim =
    ltb 0 (length claim.devices)
    && all (λ (claimed : ClaimDevice). not (claimed.path == "")) claim.devices

module _ (cfg : Config) (env : Env) (start : Start) where
  -- The loop of `localAllocations` over the results of a claim.
  unfoldable pub local_devices :
      String → Dict String InventoryDevice → List AllocationResult → List ClaimDevice
  unfolding cdi_id lookup
  local_devices uid inventory [] = []
  local_devices uid inventory (result ∷ results) =
      let rest = local_devices uid inventory results in
      let claimed : ClaimDevice = record {
        requests = result.request ∷ [];
        pool = result.pool;
        device = result.device;
        stable_id = "";
        path = "";
        major = 0;
        minor = 0;
        cdi_id = cdi_id uid result.device;
      } in
      let located : ClaimDevice = elim (lookup result.device inventory) [
        | none ↦ claimed
        | some item ↦ record claimed {
          stable_id = item.stable_id;
          path = item.node.path;
          major = item.node.major;
          minor = item.node.minor;
        }
      ] in
      if not (result.driver == cfg.driver) || not (result.pool == cfg.node_name)
      then rest
      else located ∷ rest

  -- The loop of `localAllocations` over the claims.
  unfoldable pub local_claims :
      Dict String InventoryDevice
      → List (Option ResourceClaim)
      → Dict String PreparedClaim
      → Dict String PreparedClaim
  unfolding local_devices insert
  local_claims inventory [] found = found
  local_claims inventory (none ∷ claims) found = local_claims inventory claims found
  local_claims inventory (some claim ∷ claims) found =
      elim claim.allocation as (λ _. Dict String PreparedClaim) [
        | none ↦ local_claims inventory claims found
        | some allocation ↦
            let devices = local_devices claim.uid inventory allocation.results in
            let live : PreparedClaim = record {
              uid = claim.uid;
              namespace = claim.namespace;
              name = claim.name;
              phase = recovered;
              devices = devices;
            } in
            local_claims inventory claims
              (if length devices == 0 then found else insert claim.uid live found)
      ]

  -- `localAllocations`: the claims, and the error.
  unfoldable pub local_allocations :
      Dict String InventoryDevice → M (Dict String PreparedClaim × Option String)
  unfolding local_claims
  local_allocations inventory m =
      elim start.allocations as (λ _. (Dict String PreparedClaim × Option String) × Manager) [
        | none ↦ (([], none), m)
        | some list ↦
            elim (list m.clock) as (λ _. (Dict String PreparedClaim × Option String) × Manager) [
              | unlisted e ↦ (([], some ("list startup allocations: " <> e)), tick m)
              | listed claims ↦ ((local_claims inventory claims [], none), tick m)
            ]
      ]

  -- The claims that the file lacks.
  unfoldable pub adopt_claims :
      Dict String PreparedClaim → Dict String PreparedClaim → Dict String PreparedClaim
  unfolding lookup insert
  adopt_claims [] claims = claims
  adopt_claims ((uid, live) ∷ allocated) claims =
      adopt_claims allocated
        (if has uid claims then claims else insert uid (record live { phase = recovered }) claims)

  -- The body of the loop over the devices of a claim, from the phase before it.
  unfoldable pub repair_device :
      PreparedClaim → Dict String InventoryDevice → ClaimDevice → ClaimPhase → M (Option String)
  repair_device claim inventory claimed phase m =
      let hardware = hardware_reason cfg claimed (lookup claimed.device inventory) in
      let reason = claim_reason phase claimed hardware in
      let current = record claim { phase = phase_after phase claimed hardware } in
      if reason == ""
      then (none, m)
      else quarantine cfg env claimed.device claimed.path reason (some current) "startup-recovery" m

  -- The loop over the devices of a claim: the devices and the phase after it, and the error.
  unfoldable pub repair_devices :
      PreparedClaim
      → Dict String InventoryDevice
      → List ClaimDevice
      → ClaimPhase
      → M ((List ClaimDevice × ClaimPhase) × Option String)
  repair_devices claim inventory [] phase m = ((([], phase), none), m)
  repair_devices claim inventory (claimed ∷ devices) phase m =
      let item = lookup claimed.device inventory in
      let fenced = repair_device claim inventory claimed phase m in
      let rest =
        repair_devices claim inventory devices
          (phase_after phase claimed (hardware_reason cfg claimed item)) fenced.1 in
      (((identified claimed item ∷ rest.0.0.0, rest.0.0.1), join fenced.0 rest.0.1), rest.1)

  -- The devices of a claim whose CDI file could not be written.
  unfoldable pub fence_devices : PreparedClaim → String → List ClaimDevice → M (Option String)
  fence_devices claim reason [] m = (none, m)
  fence_devices claim reason (claimed ∷ devices) m =
      let first =
        quarantine cfg env claimed.device claimed.path reason (some claim) "startup-recovery" m in
      let rest = fence_devices claim reason devices first.1 in (join first.0 rest.0, rest.1)

  -- The CDI file of a claim whose devices have their nodes.
  unfoldable pub repair_cdi : PreparedClaim → M (Option String)
  repair_cdi claim m =
      let (error, m₁) = write_cdi env claim m in
      let repaired : Option String × Manager = elim error [
        | none ↦ (none, m₁)
        | some e ↦ fence_devices claim ("CDI repair failed: " <> e) claim.devices m₁
      ] in
      if is_complete claim then repaired else (none, m)

  -- A claim with the requests of its live allocation, or `Releasing` without one.
  unfoldable pub revise_claim : Dict String PreparedClaim → String → PreparedClaim → PreparedClaim
  revise_claim allocated uid claim = elim (lookup uid allocated) as (λ _. PreparedClaim) [
    | some live ↦ record claim { devices = fill_requests live.devices claim.devices }
    | none ↦ elim start.allocations as (λ _. PreparedClaim) [
      | none ↦ claim
      | some _ ↦ record claim { phase = releasing }
    ]
  ]

  -- The body of the loop over the claims.
  unfoldable pub repair_claim :
      Dict String InventoryDevice
      → Dict String PreparedClaim
      → String
      → PreparedClaim
      → M (Option String)
  repair_claim inventory allocated uid claim m =
      let revised = revise_claim allocated uid claim in
      let (((devices, phase), error), m₁) =
        repair_devices revised inventory revised.devices revised.phase m in
      let final = record revised { devices = devices; phase = phase } in
      let (unwritten, m₂) = repair_cdi final (set_claims (insert uid final m₁.claims) m₁) in
      (join error unwritten, m₂)

  unfoldable pub repair_claims :
      Dict String InventoryDevice
      → Dict String PreparedClaim
      → Dict String PreparedClaim
      → M (Option String)
  repair_claims inventory allocated [] m = (none, m)
  repair_claims inventory allocated ((uid, claim) ∷ claims) m =
      let first = repair_claim inventory allocated uid claim m in
      let rest = repair_claims inventory allocated claims first.1 in (join first.0 rest.0, rest.1)
