-- ===== src/Lifecycle/Recovery/Rescued.antt =====
-- A start with a corrupt file.
use tenstorrent_dra_framewor.Base.{
  ℕ, suc, ◌≡◌, refl, ap, ◌∙◌, String, List, [], ◌∷◌, none, string_eq, All, arith,
}
use tenstorrent_dra_framewor.Base.Dict.{lookup, lookup-insert_same, lookup-insert_other}
use tenstorrent_dra_framewor.Device.{InventoryDevice, InventorySnapshot}
use tenstorrent_dra_framewor.Lifecycle.State.{
  AuditEvent, missing, tick, snapshot, Env, Config, Manager, persist, dra_name,
}
use tenstorrent_dra_framewor.Lifecycle.Janitor.{audit, plain_event}
use tenstorrent_dra_framewor.Lifecycle.Observe.Grows.{IsFenced, Grows, stays, joined}
use tenstorrent_dra_framewor.Lifecycle.Frame.{SameClaims, here, after, audit-SameClaims}
use tenstorrent_dra_framewor.Lifecycle.Startup.{Start, empty_state}
use tenstorrent_dra_framewor.Lifecycle.Recovery.{fence_one, fence_all, recover_corrupt_state}

module _ (cfg : Config) (env : Env) (start : Start) where
  fence_one-IsFenced :
      (t : ℕ) (item : InventoryDevice) (m : Manager)
      → IsFenced (fence_one cfg env start t item m) (dra_name env item)
  unfolding fence_one
  fence_one-IsFenced t item m = (_, lookup-insert_same (dra_name env item) _ m.quarantined)

  fence_one-Grows :
      (t : ℕ) (item : InventoryDevice) (m : Manager) → Grows m (fence_one cfg env start t item m)
  unfolding fence_one
  fence_one-Grows t item m =
      let fenced = fence_one cfg env start t item m in
      let here = fence_one-IsFenced t item m in
      record {
        kept = λ other f. elim (string_eq.dec other (dra_name env item)) [
          | yes same ↦ (here.0, ap (λ n. lookup n fenced.quarantined) same ∙ here.1)
          | no differ ↦ (f.0, lookup-insert_other _ _ differ ∙ f.1)
        ];
      }

  fence_all-Grows :
      (t : ℕ) (items : List InventoryDevice) (m : Manager)
      → Grows m (fence_all cfg env start t items m)
  unfolding fence_all
  fence_all-Grows t [] m = stays
  fence_all-Grows t (item ∷ items) m = joined (fence_one-Grows t item m) (fence_all-Grows t items _)

  -- The devices of the list are in quarantine.
  abbrev pub AllFenced : List InventoryDevice → Manager → Type 0
  AllFenced items m = All (λ (item : InventoryDevice). IsFenced m (dra_name env item)) items

  fence_all-AllFenced :
      (t : ℕ) (items : List InventoryDevice) (m : Manager)
      → AllFenced items (fence_all cfg env start t items m)
  unfolding fence_all
  fence_all-AllFenced t [] m = tt
  fence_all-AllFenced t (item ∷ items) m =
      let fenced = fence_one cfg env start t item m in
      (
        (fence_all-Grows t items fenced).kept (dra_name env item) (fence_one-IsFenced t item m),
        fence_all-AllFenced t items fenced,
      )

  fence_all-SameClaims :
      (t : ℕ) (items : List InventoryDevice) (m : Manager)
      → SameClaims m (fence_all cfg env start t items m)
  unfolding fence_all
  fence_all-SameClaims t [] m = here
  fence_all-SameClaims t (item ∷ items) m =
      after (record { same = refl }) (fence_all-SameClaims t items _)

  audit-quarantined :
      (event : AuditEvent) (m : Manager)
      → (audit cfg env event none m).1.quarantined ≡ m.quarantined
  unfolding audit
  audit-quarantined event m = ground arith

  audit-Grows : (event : AuditEvent) (m : Manager) → Grows m (audit cfg env event none m).1
  audit-Grows event m =
      let same : (audit cfg env event none m).1.quarantined ≡ m.quarantined =
        audit-quarantined event m in
      record { kept = λ name f. (f.0, ap (lookup name) same ∙ f.1) }

  -- Where devices are fenced, an audit and a write leave them so.
  AllFenced-Grows :
      (a b : Manager) (items : List InventoryDevice)
      → Grows a b
      → AllFenced items a
      → AllFenced items b
  AllFenced-Grows a b [] g h = tt
  AllFenced-Grows a b (item ∷ items) g (f, h) =
      (g.kept (dra_name env item) f, AllFenced-Grows a b items g h)

  -- After the rescue of a corrupt file that could be renamed, with the inventory read, every visible device
  -- is in quarantine, and there is no claim.
  pub recover_corrupt_state-AllFenced :
      (load_error : String) (s : InventorySnapshot) (m : Manager)
      → start.rename (suc m.clock) ≡ none
      → env.inventory (suc (suc m.clock)) ≡ snapshot s
      → AllFenced s.devices (recover_corrupt_state cfg env start load_error m).1
        × ((recover_corrupt_state cfg env start load_error m).1.claims ≡ [])
  unfolding recover_corrupt_state persist
  recover_corrupt_state-AllFenced load_error s m renamed seen =
      let m₁ = tick m in
      let emptied : Manager = record (tick (tick m₁)) { disk = missing; state = empty_state } in
      let fenced = fence_all cfg env start s.observed_at s.devices emptied in
      let event = plain_event "state-recovery" "quarantined" "" "" load_error in
      let audited = (audit cfg env event none fenced).1 in
      rw (recover_corrupt_state, renamed, seen)
        (
          AllFenced-Grows fenced audited s.devices (audit-Grows event fenced)
              (fence_all-AllFenced s.observed_at s.devices emptied),
          (audit-SameClaims cfg env event none fenced).same
              ∙ (fence_all-SameClaims s.observed_at s.devices emptied).same,
        )
