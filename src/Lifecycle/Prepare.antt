-- ===== src/Lifecycle/Prepare.antt =====
-- internal/lifecycle/manager.go: `prepareOne`.
pub mod Batches
pub mod Verified
pub mod Granted
use tenstorrent_dra_framewor.Base.{
  ℕ, suc, ◌+◌, String, ◌<>◌, Bool, true, false, not, ◌&&◌, ◌||◌, List, [], ◌∷◌, ◌++◌, Option, none,
  some, ◌==◌, string_eq, nat_eq, if◌then◌else◌,
}
use tenstorrent_dra_framewor.Base.Text.{quote}
use tenstorrent_dra_framewor.Base.Dict.{Dict, lookup, insert, erase, has}
use tenstorrent_dra_framewor.Device.{InventoryDevice, InventorySnapshot, is_healthy}
use tenstorrent_dra_framewor.Lifecycle.State.{
  ClaimPhase, preparing, prepared, releasing, recovered, ClaimDevice, PreparedClaim,
  QuarantineRecord, CdiNode, Env, Config, Manager, M, tick, join, prefixed, now, persist,
  lock_and_reload, snapshot, failure, set_claims, set_quarantined,
}
use tenstorrent_dra_framewor.Lifecycle.Janitor.{
  device_owners, plain_event, inventory_fresh, audit, quarantine, sanitize,
}
use tenstorrent_dra_framewor.Lifecycle.Observe.{Report, observe, by_name}
use tenstorrent_dra_framewor.Lifecycle.Cdi.{PluginDevice, cdi_results, cdi_filename, write_cdi}
use tenstorrent_dra_framewor.Lifecycle.Claims.{
  ResourceClaim, Allocation, accepted, refused, claim_from_allocation, same_claim,
}

-- `kubeletplugin.PrepareResult`
pub data Outcome : Type 0 where
  granted : List PluginDevice → Outcome
  rejected : String → Outcome

abbrev set_phase : ClaimPhase → PreparedClaim → PreparedClaim
set_phase phase claim = record claim { phase = phase }

abbrev pub store_claim : PreparedClaim → Manager → Manager
store_claim claim m = set_claims (insert claim.uid claim m.claims) m

-- `_ = os.Remove(...)`
abbrev remove_cdi_file : Env → String → Manager → Manager
unfolding erase cdi_filename
remove_cdi_file env uid m = record (tick m) {
  cdi = elim (env.remove_cdi m.clock) as (λ _. Dict String (List CdiNode)) [
    | none ↦ erase (cdi_filename uid) m.cdi
    | some e ↦ m.cdi
  ];
}

-- The first device of a claim that is in quarantine.
unfoldable pub first_quarantined :
    Dict String QuarantineRecord → List ClaimDevice → Option (String × String)
unfolding lookup
first_quarantined quarantined [] = none
first_quarantined quarantined (item ∷ items) =
    let rest = first_quarantined quarantined items in
    elim (lookup item.device quarantined) as (λ _. Option (String × String)) [
      | none ↦ rest
      | some r ↦ some (item.device, r.reason)
    ]

-- Every device of the claim goes into quarantine for the reason, each at its time.
unfoldable pub quarantine_all : Env → String → List ClaimDevice → Manager → Manager
unfolding insert
quarantine_all env reason [] m = m
quarantine_all env reason (item ∷ items) m =
    let (time, m₁) = now env m in
    quarantine_all env reason items (
      set_quarantined
        (insert item.device (record { reason = reason; since = time; awaiting_health = false })
          m₁.quarantined)
        m₁)

module _ (cfg : Config) (env : Env) where
  -- `config.Inventory`, then `inventoryFresh` and `observeLocked` with no recovery of idle devices.
  -- The two contexts stand before the errors of the first and of the last step.
  unfoldable pub refresh :
      String → String → M (Option String × InventorySnapshot × InventorySnapshot)
  unfolding inventory_fresh observe
  refresh reading watching m = elim (env.inventory m.clock) [
    | failure e ↦ (
      (
        some (reading <> e),
        record { devices = []; observed_at = 0 },
        record { devices = []; observed_at = 0 },
      ),
      tick m,
    )
    | snapshot s ↦
        let (stale, m₁) = inventory_fresh cfg env s (tick m) in
        let (report, m₂) = observe cfg env s false m₁ in
        elim stale [
          | some e ↦ ((some e, s, s), m₁)
          | none ↦ ((prefixed watching report.error, s, report.filtered), m₂)
        ]
  ]

  -- The loop that sanitizes the devices, up to the first failure.
  unfoldable pub sanitize_devices : PreparedClaim → List ClaimDevice → M (Option String)
  unfolding sanitize
  sanitize_devices claim [] m = (none, m)
  sanitize_devices claim (item ∷ items) m =
      let (error, m₁) =
        sanitize cfg env "preflight-sanitize" item.device item.path (some claim) m in
      let rest = sanitize_devices claim items m₁ in
      elim error [
        | some e ↦ (some ("sanitize device " <> (quote item.device <> (": " <> e))), m₁)
        | none ↦ rest
      ]

  -- The device came back as the same healthy device.
  unfoldable pub is_verified : Dict String InventoryDevice → ClaimDevice → Bool
  unfolding lookup
  is_verified verified item = elim (lookup item.device verified) as (λ _. Bool) [
    | none ↦ false
    | some seen ↦ seen.eligible && (is_healthy seen.health && seen.stable_id == item.stable_id)
  ]

  unfoldable pub verify_devices :
      PreparedClaim → Dict String InventoryDevice → List ClaimDevice → M (Option String)
  unfolding is_verified quarantine
  verify_devices claim verified [] m = (none, m)
  verify_devices claim verified (item ∷ items) m =
      let reason : String = "device did not return with the same healthy identity" in
      let rest = verify_devices claim verified items m in
      if is_verified verified item then rest else (
        some ("sanitized device " <> (quote item.device <> (" " <> reason))),
        (quarantine cfg env item.device item.path reason (some claim) "preflight-verify" m).1,
      )

  -- From the claim's phase on: the commit of a prepared claim.
  unfoldable pub commit : PreparedClaim → M Outcome
  unfolding persist cdi_results insert erase cdi_filename
  commit claim m =
      let (error, m₁) = persist env (store_claim (set_phase prepared claim) m) in
      elim error [
        | some e ↦ (
          rejected ("commit prepared claim: " <> e),
          remove_cdi_file env claim.uid (store_claim (set_phase preparing claim) m₁),
        )
        | none ↦ (granted (cdi_results claim), m₁)
      ]

  -- The approval in the audit log; without it the devices are quarantined.
  unfoldable pub approve : PreparedClaim → M Outcome
  unfolding commit audit quarantine_all
  approve claim m =
      let (error, m₁) =
        audit cfg env (plain_event "claim-prepare" "approved" "" "" "") (some claim) m in
      elim error [
        | none ↦ commit claim m₁
        | some e ↦
            let m₂ = remove_cdi_file env claim.uid m₁ in
            (
              rejected e,
              quarantine_all env ("claim preparation audit failed: " <> e) claim.devices m₂,
            )
      ]

  -- After sanitizing: the second look at the hardware, and the CDI file.
  unfoldable pub verify_and_expose : PreparedClaim → M Outcome
  unfolding refresh verify_devices write_cdi approve by_name
  verify_and_expose claim m =
      let (seen, m₁) = refresh "" "" m in
      let (unverified, m₂) =
        verify_devices claim (by_name cfg env (seen.2).devices []) claim.devices m₁ in
      let (unwritten, m₃) = write_cdi env claim m₂ in
      elim seen.0 [
        | some e ↦ (rejected ("verify sanitized inventory: " <> e), m₁)
        | none ↦ elim unverified [
          | some e ↦ (rejected e, m₂)
          | none ↦ elim unwritten [ some e ↦ (rejected e, m₃) | none ↦ approve claim m₃ ]
        ]
      ]

  unfoldable pub expose : PreparedClaim → M Outcome
  unfolding sanitize_devices verify_and_expose
  expose claim m =
      let (error, m₁) = sanitize_devices claim claim.devices m in
      elim error [ some e ↦ (rejected e, m₁) | none ↦ verify_and_expose claim m₁ ]

  -- A claim that is not recorded yet: the intent goes to disk and to the audit log first.
  unfoldable pub begin : PreparedClaim → M Outcome
  unfolding persist audit expose insert erase
  begin claim m =
      let (error, m₁) = persist env (store_claim claim m) in
      let (audit_error, m₂) =
        audit cfg env (plain_event "claim-prepare-intent" "recorded" "" "" "") (some claim) m₁ in
      elim error [
        | some e ↦
            (rejected ("persist prepare intent: " <> e), set_claims (erase claim.uid m₁.claims) m₁)
        | none ↦ elim audit_error [ some e ↦ (rejected e, m₂) | none ↦ expose claim m₂ ]
      ]

  -- A claim that is prepared already: its CDI file is written again.
  unfoldable pub repeat : PreparedClaim → M Outcome
  unfolding first_quarantined write_cdi cdi_results
  repeat claim m =
      let (error, m₁) = write_cdi env claim m in
      elim (first_quarantined m.quarantined claim.devices) as (λ _. Outcome × Manager) [
        | some (name, reason) ↦
            (rejected ("prepared device " <> (quote name <> (" is quarantined: " <> reason))), m)
        | none ↦ elim error [
          | some e ↦ (rejected ("repair CDI: " <> e), m₁)
          | none ↦ (granted (cdi_results claim), m₁)
        ]
      ]

  -- A claim that is recorded, by its phase.
  unfoldable pub resume : PreparedClaim → M Outcome
  unfolding repeat expose
  resume claim m = elim claim.phase [
    | preparing ↦ expose claim m
    | prepared ↦ repeat claim m
    | releasing ↦ (rejected "claim is in Releasing recovery", m)
    | recovered ↦ (rejected "claim is in Recovered recovery", m)
  ]

  -- `prepareOne`, on a claim that is not nil. The owners are written by the caller, `own_granted`.
  unfoldable pub prepare_one :
      ResourceClaim → Dict String InventoryDevice → Dict String String → M Outcome
  unfolding claim_from_allocation lookup same_claim resume begin
  prepare_one claim inventory owners m = elim claim.allocation [
    | none ↦ (rejected "claim has no allocation", m)
    | some allocation ↦ elim (claim_from_allocation cfg inventory owners claim allocation) [
      | refused e ↦ (rejected e, m)
      | accepted wanted ↦ elim (lookup claim.uid m.claims) [
        | none ↦ begin wanted m
        | some existing ↦
            if same_claim existing wanted
            then resume existing m
            else (rejected "repeated prepare does not match persisted allocation", m)
      ]
    ]
  ]
