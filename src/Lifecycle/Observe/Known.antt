-- ===== src/Lifecycle/Observe/Known.antt =====
-- A look at the hardware for missing devices changes no known device.
use tenstorrent_dra_framewor.Base.{
  String, [], ◌∷◌, Option, string_eq, ◌==◌, ◌≡◌, refl, ◌∙◌, arith, inl, inr, Option-cases, branch,
}
use tenstorrent_dra_framewor.Base.Dict.{Dict, lookup, has}
use tenstorrent_dra_framewor.Device.{InventoryDevice}
use tenstorrent_dra_framewor.Lifecycle.State.{
  PreparedClaim, KnownDevice, AuditEvent, Env, Config, Manager,
}
use tenstorrent_dra_framewor.Lifecycle.Janitor.{audit, quarantine_new, quarantine}
use tenstorrent_dra_framewor.Lifecycle.Observe.{observe_missing}
use tenstorrent_dra_framewor.Lifecycle.Observe.Grows.{missing_one}

module _ (cfg : Config) (env : Env) where
  pub audit-known :
      (event : AuditEvent) (claim : Option PreparedClaim) (m : Manager)
      → (audit cfg env event claim m).1.known ≡ m.known
  unfolding audit
  audit-known event claim m = ground arith

  pub quarantine-known :
      (name path reason : String) (claim : Option PreparedClaim) (action : String) (m : Manager)
      → (quarantine cfg env name path reason claim action m).1.known ≡ m.known
  unfolding quarantine quarantine_new
  quarantine-known name path reason claim action m =
      elim (Option-cases (lookup name m.quarantined)) [
        | inl miss ↦ rw (miss, quarantine) (audit-known _ claim _)
        | inr (r, hit) ↦
            rw (hit, quarantine)
              (branch (λ (x : Option String × Manager). x.1.known ≡ m.known) (r.reason == reason)
                (λ _. refl) (λ _. audit-known _ claim _))
      ]

  pub observe_missing-known :
      (observed : Dict String InventoryDevice) (owners : Dict String String)
      (known : Dict String KnownDevice) (m : Manager)
      → (observe_missing cfg env observed owners known m).1.known ≡ m.known
  unfolding observe_missing missing_one
  observe_missing-known observed owners [] m = refl
  observe_missing-known observed owners ((name, known) ∷ rest) m =
      let first = missing_one cfg env observed owners name known m in
      observe_missing-known observed owners rest first.1
      ∙ branch (λ (x : Option String × Manager). x.1.known ≡ m.known) (has name observed)
          (λ _. refl) (λ _. quarantine-known _ _ _ _ _ _)
