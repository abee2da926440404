-- ===== src/Lifecycle/Recovery.antt =====
-- internal/lifecycle/recovery.go and manager.go: orphan CDI files, a corrupt file, and the start of the
-- manager. The path of the backup of a corrupt file is left out.
pub mod Cleaned
pub mod Checked
pub mod Rescued
pub mod Vetted
pub mod Allocated
pub mod Adopted
use text.Mathlib.Text.{starts_with}
use tenstorrent_dra_framewor.Base.{
  ℕ, String, ◌<>◌, Bool, true, false, not, ◌&&◌, ◌||◌, List, [], ◌∷◌, Option, none, some, ◌==◌,
  contains, string_eq, nat_eq, if◌then◌else◌, length, map, ltb,
}
use tenstorrent_dra_framewor.Base.Text.{ends_with}
use tenstorrent_dra_framewor.Base.Dict.{Dict, keys, insert, erase}
use tenstorrent_dra_framewor.Device.{InventoryDevice, InventorySnapshot}
use tenstorrent_dra_framewor.Lifecycle.State.{
  PreparedClaim, missing, Observed, snapshot, failure, Env, Config, Manager, M, tick, join, now,
  persist, load, lock_state, dra_name, set_claims, set_known, set_quarantined,
}
use tenstorrent_dra_framewor.Lifecycle.Janitor.{plain_event, audit, inventory_fresh}
use tenstorrent_dra_framewor.Lifecycle.Observe.{by_name}
use tenstorrent_dra_framewor.Lifecycle.Cdi.{cdi_filename}
use tenstorrent_dra_framewor.Lifecycle.Startup.{
  Start, Directory, present, absent, unreadable, empty_state, local_allocations, adopt_claims,
  repair_claims,
}

-- A file of the driver in the CDI directory.
unfoldable pub is_claim_file : String → Bool
unfolding ends_with
is_claim_file name = starts_with name "claim-" && ends_with name ".json"

-- The names of the files that claims have.
unfoldable pub expected_files : Dict String PreparedClaim → List String
unfolding cdi_filename
expected_files claims = map (λ (e : String × PreparedClaim). cdi_filename e.1.uid) claims

module _ (env : Env) where
  -- The loop of `removeOrphanCDI`.
  unfoldable pub remove_orphans : List String → List String → M (Option String)
  unfolding is_claim_file erase
  remove_orphans expected [] m = (none, m)
  remove_orphans expected (name ∷ names) m =
      let m₁ = tick m in
      let removed = remove_orphans expected names (record m₁ { cdi = erase name m.cdi }) in
      let kept = remove_orphans expected names m in
      if not (is_claim_file name) || contains expected name
      then kept
      else elim (env.remove_cdi m.clock) as (λ _. Option String × Manager) [
        | some e ↦ (some e, m₁)
        | none ↦ removed
      ]

module _ (cfg : Config) (env : Env) (start : Start) where
  -- `removeOrphanCDI`
  unfoldable pub remove_orphan_cdi : M (Option String)
  unfolding remove_orphans expected_files
  remove_orphan_cdi m = elim (start.directory m.clock) as (λ _. Option String × Manager) [
    | absent ↦ (none, tick m)
    | unreadable e ↦ (some e, tick m)
    | present ↦ remove_orphans env (expected_files m.claims) (keys m.cdi) (tick m)
  ]

  -- The end of `reconcileStartup`, after the claims.
  unfoldable pub finish_startup : InventorySnapshot → Option String → M (Option String)
  unfolding persist
  finish_startup s error m =
      let (uncleaned, m₁) = remove_orphan_cdi m in
      let (unwritten, m₂) = persist env (record m₁ { last_snapshot = s }) in
      elim uncleaned as (λ _. Option String × Manager) [
        | some e ↦ (some e, m₁)
        | none ↦ (join error unwritten, m₂)
      ]

  -- `reconcileStartup` with a fresh inventory.
  unfoldable pub reconcile_claims : InventorySnapshot → M (Option String)
  unfolding by_name
  reconcile_claims s m =
      let inventory = by_name cfg env s.devices [] in
      let ((allocated, unlisted), m₁) = local_allocations cfg env start inventory m in
      let adopted = adopt_claims cfg env start allocated m₁.claims in
      let (error, m₂) =
        repair_claims cfg env start inventory allocated adopted (set_claims adopted m₁) in
      elim unlisted as (λ _. Option String × Manager) [
        | some e ↦ (some e, m₁)
        | none ↦ finish_startup s error m₂
      ]

  -- `reconcileStartup`
  unfoldable pub reconcile_startup : M (Option String)
  unfolding inventory_fresh
  reconcile_startup m = elim (env.inventory m.clock) as (λ _. Option String × Manager) [
    | failure e ↦ (some ("startup inventory: " <> e), tick m)
    | snapshot s ↦
        let (stale, m₁) = inventory_fresh cfg env s (tick m) in
        elim stale as (λ _. Option String × Manager) [
          | some e ↦ (some e, m₁)
          | none ↦ reconcile_claims s m₁
        ]
  ]

  -- The body of the loop of `recoverCorruptState`.
  unfoldable pub fence_one : ℕ → InventoryDevice → Manager → Manager
  unfolding insert
  fence_one observed_at item m =
      let name = dra_name env item in
      let known =
        set_known (insert name (record { path = item.node.path; last_seen = observed_at }) m.known)
          m in
      let (time, m₁) = now env known in
      set_quarantined
        (insert name
          (record { reason = "lifecycle state was corrupt"; since = time; awaiting_health = false })
          m₁.quarantined)
        m₁

  unfoldable pub fence_all : ℕ → List InventoryDevice → Manager → Manager
  unfolding fence_one
  fence_all observed_at [] m = m
  fence_all observed_at (item ∷ items) m =
      fence_all observed_at items (fence_one observed_at item m)

  -- `recoverCorruptState`
  unfoldable pub recover_corrupt_state : String → M (Option String)
  unfolding fence_all audit persist
  recover_corrupt_state load_error m =
      let (stamp, m₁) = now env m in
      let m₂ = record (tick m₁) { disk = missing; state = empty_state } in
      let failed = join (some load_error) in
      elim (start.rename m₁.clock) as (λ _. Option String × Manager) [
        | some e ↦ (failed (some ("preserve corrupt state: " <> e)), tick m₁)
        | none ↦ elim (env.inventory m₂.clock) as (λ _. Option String × Manager) [
          | failure e ↦ (failed (some ("inventory for state recovery: " <> e)), tick m₂)
          | snapshot s ↦
              let m₃ = fence_all s.observed_at s.devices (tick m₂) in
              let (unrecorded, m₄) =
                audit cfg env (plain_event "state-recovery" "quarantined" "" "" load_error) none
                  m₃ in
              let (unwritten, m₅) = persist env m₄ in (join unrecorded unwritten, m₅)
        ]
      ]

  -- `NewManager` after it has the lock: the state is loaded, or rescued, and brought up to date.
  unfoldable pub start_manager : M (Option String)
  unfolding load
  start_manager m =
      let (undecoded, m₁) = load m in
      let rescued : Option String × Manager = elim undecoded [
        | none ↦ (none, m₁)
        | some e ↦ recover_corrupt_state e m₁
      ] in
      let m₂ = rescued.1 in
      let has_allocations : Bool = elim start.allocations [ none ↦ false | some _ ↦ true ] in
      elim rescued.0 as (λ _. Option String × Manager) [
        | some e ↦ (some e, m₂)
        | none ↦
            let updated = reconcile_startup m₂ in
            if has_allocations || ltb 0 (length m₂.claims) then updated else (none, m₂)
      ]
