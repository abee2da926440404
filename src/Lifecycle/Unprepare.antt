-- ===== src/Lifecycle/Unprepare.antt =====
-- internal/lifecycle/manager.go: `UnprepareResourceClaims` and `SnapshotStats`.
pub mod Released
use tenstorrent_dra_framewor.Base.{
  ℕ, ◌+◌, String, ◌<>◌, Bool, true, false, not, ◌||◌, List, [], ◌∷◌, Option, none, some, string_eq,
  if◌then◌else◌, length,
}
use tenstorrent_dra_framewor.Base.Text.{quote}
use tenstorrent_dra_framewor.Base.Dict.{Dict, lookup, insert, erase}
use tenstorrent_dra_framewor.Device.{InventoryDevice}
use tenstorrent_dra_framewor.Lifecycle.State.{
  ClaimPhase, preparing, prepared, releasing, recovered, ClaimDevice, PreparedClaim, Env, Config,
  Manager, M, tick, join, now, persist, lock_and_reload, set_claims, set_quarantined,
}
use tenstorrent_dra_framewor.Lifecycle.Janitor.{plain_event, audit, quarantine, sanitize}
use tenstorrent_dra_framewor.Lifecycle.Observe.{by_name}
use tenstorrent_dra_framewor.Lifecycle.Cdi.{cdi_filename}
use tenstorrent_dra_framewor.Lifecycle.Prepare.{refresh, quarantine_all}
use tenstorrent_dra_framewor.Lifecycle.Prepare.Batches.{Batch, answered, aborted}

abbrev pub release : PreparedClaim → PreparedClaim
release claim = record claim { phase = releasing }

abbrev pub is_releasing : ClaimPhase → Bool
is_releasing preparing = false
is_releasing prepared = false
is_releasing releasing = true
is_releasing recovered = false

module _ (cfg : Config) (env : Env) where
  -- The claim is moved to `Releasing`, on disk and in the audit log.
  unfoldable pub intend : String → PreparedClaim → M (Option String)
  unfolding persist audit insert
  intend uid claim m =
      let (error, m₁) = persist env (set_claims (insert uid (release claim) m.claims) m) in
      let (unrecorded, m₂) =
        audit cfg env (plain_event "claim-release-intent" "recorded" "" "" "")
          (some (release claim)) m₁ in
      if is_releasing claim.phase then (none, m) else elim error as (λ _. Option String × Manager) [
        | some e ↦ (some ("persist release intent: " <> e), m₁)
        | none ↦ (unrecorded, m₂)
      ]

  -- One device: a device that is gone is quarantined, any other is sanitized.
  unfoldable pub clean_device :
      PreparedClaim → Dict String InventoryDevice → ClaimDevice → Option String → M (Option String)
  unfolding lookup quarantine sanitize join
  clean_device claim inventory item before m =
      let reason : String = "allocated device is unavailable during post-use sanitization" in
      let action : String = "postflight-sanitize" in
      let (unrecorded, lost) =
        quarantine cfg env item.device item.path reason (some claim) action m in
      let gone : Option String × Manager = (
        join (join before (some ("device " <> (quote item.device <> (": " <> reason))))) unrecorded,
        lost,
      ) in
      elim (lookup item.device inventory) as (λ _. Option String × Manager) [
        | none ↦ gone
        | some found ↦
            let (error, m₁) = sanitize cfg env action item.device found.node.path (some claim) m in
            if found.character_device_present then (join before error, m₁) else gone
      ]

  unfoldable pub clean_devices :
      PreparedClaim
      → Dict String InventoryDevice
      → List ClaimDevice
      → Option String
      → M (Option String)
  unfolding clean_device
  clean_devices claim inventory [] error m = (error, m)
  clean_devices claim inventory (item ∷ items) error m =
      let (error', m₁) = clean_device claim inventory item error m in
      clean_devices claim inventory items error' m₁

  -- The end: the CDI file and then the claim go, and the claim comes back where that is not written.
  unfoldable pub forget : String → PreparedClaim → M (Option String)
  unfolding persist insert erase cdi_filename
  forget uid claim m =
      let m₁ = tick m in
      let m₂ = record m₁ { cdi = erase (cdi_filename claim.uid) m.cdi } in
      let (error, m₃) = persist env (set_claims (erase uid m.claims) m₂) in
      elim (env.remove_cdi m.clock) as (λ _. Option String × Manager) [
        | some e ↦ (some e, m₁)
        | none ↦ elim error as (λ _. Option String × Manager) [
          | some e ↦
              (some ("commit released claim: " <> e), set_claims (insert uid claim m₃.claims) m₃)
          | none ↦ (none, m₃)
        ]
      ]

  unfoldable pub approve_release : String → PreparedClaim → M (Option String)
  unfolding audit forget quarantine_all
  approve_release uid claim m =
      let (error, m₁) =
        audit cfg env (plain_event "claim-release" "approved" "" "" "") (some claim) m in
      elim error as (λ _. Option String × Manager) [
        | none ↦ forget uid claim m₁
        | some e ↦
            (some e, quarantine_all env ("claim release audit failed: " <> e) claim.devices m₁)
      ]

  unfoldable pub release_claim :
      String → PreparedClaim → Dict String InventoryDevice → M (Option String)
  unfolding clean_devices approve_release persist
  release_claim uid claim inventory m =
      let (error, m₁) = clean_devices claim inventory claim.devices none m in
      elim error as (λ _. Option String × Manager) [
        | some e ↦ (some e, (persist env m₁).1)
        | none ↦ approve_release uid claim m₁
      ]

  -- The body of the loop over the claims.
  unfoldable pub unprepare_one : String → Dict String InventoryDevice → M (Option String)
  unfolding lookup intend release_claim
  unprepare_one uid inventory m = elim (lookup uid m.claims) as (λ _. Option String × Manager) [
    | none ↦ (none, m)
    | some claim ↦
        let (error, m₁) = intend uid claim m in
        elim error as (λ _. Option String × Manager) [
          | some e ↦ (some e, m₁)
          | none ↦ release_claim uid (release claim) inventory m₁
        ]
  ]

  unfoldable pub unprepare_all :
      List String
      → Dict String InventoryDevice
      → Dict String (Option String)
      → M (Dict String (Option String))
  unfolding unprepare_one insert
  unprepare_all [] inventory results m = (results, m)
  unprepare_all (uid ∷ uids) inventory results m =
      let (error, m₁) = unprepare_one uid inventory m in
      unprepare_all uids inventory (insert uid error results) m₁

  -- `UnprepareResourceClaims`
  unfoldable pub unprepare_resource_claims : List String → M (Batch (Option String))
  unfolding lock_and_reload refresh unprepare_all persist by_name
  unprepare_resource_claims uids m =
      let (locked, m₁) = lock_and_reload env m in
      let (seen, m₂) = refresh cfg env "refresh inventory: " "monitor inventory: " m₁ in
      let (results, m₃) = unprepare_all uids (by_name cfg env (seen.1).devices []) [] m₂ in
      let (unwritten, m₄) = persist env m₃ in
      elim locked as (λ _. Batch (Option String) × Manager) [
        | some e ↦ (aborted e, m₁)
        | none ↦ elim seen.0 as (λ _. Batch (Option String) × Manager) [
          | some e ↦ (aborted e, m₂)
          | none ↦ elim unwritten as (λ _. Batch (Option String) × Manager) [
            | some e ↦ (aborted e, m₄)
            | none ↦ (answered results, m₄)
          ]
        ]
      ]

-- `Stats`
pub record Stats : Type 0 where
  pub allocated : ℕ
  pub quarantined : ℕ

count_devices : Dict String PreparedClaim → ℕ
count_devices [] = 0
count_devices ((uid, claim) ∷ claims) = length claim.devices + count_devices claims

-- `SnapshotStats`: an error of the reload is passed over.
unfoldable pub snapshot_stats : Env → M Stats
unfolding lock_and_reload count_devices
snapshot_stats env m =
    let m₁ = (lock_and_reload env m).1 in
    (record { allocated = count_devices m₁.claims; quarantined = length m₁.quarantined }, m₁)
