-- ===== src/Lifecycle/Frame.antt =====
-- What the steps of internal/lifecycle leave alone: quarantine, sanitizing and the watch over the
-- hardware change no claim.
use tenstorrent_dra_framewor.Base.{
  ℕ, String, Bool, true, false, List, [], ◌∷◌, Option, none, some, string_eq, nat_eq, Option-cases,
  ◌≡◌, refl, ◌∙◌, if◌then◌else◌, arith, ◌==◌, not, ◌&&◌, inl, inr,
}
use tenstorrent_dra_framewor.Base.Dict.{Dict, lookup, has}
use tenstorrent_dra_framewor.Device.{InventoryDevice, InventorySnapshot}
use tenstorrent_dra_framewor.Lifecycle.State.{
  PreparedClaim, QuarantineRecord, KnownDevice, AuditEvent, Env, Config, Manager, persist, dra_name,
}
use tenstorrent_dra_framewor.Lifecycle.Janitor.{
  device_owners, audit, quarantine_new, quarantine, settle, sanitize, inventory_fresh,
  device_unsafe_reason,
}
use tenstorrent_dra_framewor.Lifecycle.Observe.{
  check_path, observe_health, observe_item, observe_items, observe_missing, observe, by_name,
}

pub record SameClaims (before after : Manager) : Type 0 where
  pub same : after.claims ≡ before.claims

abbrev pub here : {m : Manager} → SameClaims m m
here = record { same = refl }

pub after : {a b c : Manager} → SameClaims a b → SameClaims b c → SameClaims a c
after p q = record { same = q.same ∙ p.same }

pub either {ℓ} :
    {A : Type ℓ} {m : Manager} (b : Bool) (x y : A × Manager)
    → SameClaims m x.1
    → SameClaims m y.1
    → SameClaims m (if b then x else y).1
either true x y p q = p
either false x y p q = q

module _ (cfg : Config) (env : Env) where
  pub audit-SameClaims :
      (event : AuditEvent) (claim : Option PreparedClaim) (m : Manager)
      → SameClaims m (audit cfg env event claim m).1
  unfolding audit
  audit-SameClaims event claim m = record { same = ground arith }

  quarantine_new-SameClaims :
      (name path reason : String) (claim : Option PreparedClaim) (action : String)
      (current : Option QuarantineRecord) (m : Manager)
      → SameClaims m (quarantine_new cfg env name path reason claim action current m).1
  unfolding quarantine_new
  quarantine_new-SameClaims name path reason claim action current m = record {
    same = (audit-SameClaims _ claim _).same;
  }

  pub quarantine-SameClaims :
      (name path reason : String) (claim : Option PreparedClaim) (action : String) (m : Manager)
      → SameClaims m (quarantine cfg env name path reason claim action m).1
  unfolding quarantine
  quarantine-SameClaims name path reason claim action m =
      elim (Option-cases (lookup name m.quarantined)) [
        | inl e ↦
            rw (e, quarantine) (quarantine_new-SameClaims name path reason claim action none m)
        | inr (r, e) ↦
            rw (e, quarantine)
              (either (r.reason == reason) (none, m) _ here
                (quarantine_new-SameClaims name path reason claim action (some r) m))
      ]

  pub settle-SameClaims :
      (name : String) (e₁ e₂ : Option String) (m : Manager)
      → SameClaims m (settle cfg env name e₁ e₂ m).1
  unfolding settle
  settle-SameClaims name none none m = record { same = refl }
  settle-SameClaims name none (some e) m = record { same = ground arith }
  settle-SameClaims name (some e) e₂ m = record { same = ground arith }

  pub sanitize-SameClaims :
      (action name path : String) (claim : Option PreparedClaim) (m : Manager)
      → SameClaims m (sanitize cfg env action name path claim m).1
  unfolding sanitize
  sanitize-SameClaims action name path claim m = record {
    same = (after (audit-SameClaims _ claim _) (settle-SameClaims name _ _ _)).same;
  }

  pub persist-SameClaims : (m : Manager) → SameClaims m (persist env m).1
  unfolding persist
  persist-SameClaims m = record { same = refl }

  pub inventory_fresh-SameClaims :
      (s : InventorySnapshot) (m : Manager) → SameClaims m (inventory_fresh cfg env s m).1
  unfolding inventory_fresh
  inventory_fresh-SameClaims s m = record { same = ground arith }

  check_path-SameClaims :
      (name path : String) (known : Dict String KnownDevice) (m : Manager)
      → SameClaims m (check_path cfg env name path known m).1
  unfolding check_path
  check_path-SameClaims name path [] m = here
  check_path-SameClaims name path ((prior_name, prior) ∷ rest) m =
      after
        (either (not (prior_name == name) && prior.path == path) _ _
          (quarantine-SameClaims name path "hardware identity changed on device path" none "hotplug"
            m)
          here)
        (check_path-SameClaims name path rest _)

  observe_health-SameClaims :
      (t : ℕ) (owners : Dict String String) (item : InventoryDevice) (m : Manager)
      → SameClaims m (observe_health cfg env t owners item m).1
  unfolding observe_health
  observe_health-SameClaims t owners item m =
      either (device_unsafe_reason cfg item == "") _ _ (record { same = refl })
        (record { same = (quarantine-SameClaims _ _ _ _ _ _).same })

  observe_item-SameClaims :
      (t : ℕ) (owners : Dict String String) (recover_idle : Bool) (item : InventoryDevice)
      (m : Manager)
      → SameClaims m (observe_item cfg env t owners recover_idle item m).1
  unfolding observe_item
  observe_item-SameClaims t owners recover_idle item m =
      let name = dra_name env item in
      let path = item.node.path in
      let isnt_known = not (has name m.known) && recover_idle in
      let new = quarantine cfg env name path "new device requires sanitization" none "hotplug" m in
      after (either isnt_known new (none, m) (quarantine-SameClaims _ _ _ none _ _) here) (
        after (check_path-SameClaims name path (if isnt_known then new else (none, m)).1.known _)
          (observe_health-SameClaims t owners item _))

  pub observe_items-SameClaims :
      (t : ℕ) (owners : Dict String String) (recover_idle : Bool) (items : List InventoryDevice)
      (m : Manager)
      → SameClaims m (observe_items cfg env t owners recover_idle items m).1
  unfolding observe_items
  observe_items-SameClaims t owners recover_idle [] m = here
  observe_items-SameClaims t owners recover_idle (item ∷ items) m =
      after (observe_item-SameClaims t owners recover_idle item m)
        (observe_items-SameClaims t owners recover_idle items _)

  pub observe_missing-SameClaims :
      (observed : Dict String InventoryDevice) (owners : Dict String String)
      (known : Dict String KnownDevice) (m : Manager)
      → SameClaims m (observe_missing cfg env observed owners known m).1
  unfolding observe_missing
  observe_missing-SameClaims observed owners [] m = here
  observe_missing-SameClaims observed owners ((name, known) ∷ rest) m =
      after (either (has name observed) _ _ here (quarantine-SameClaims _ _ _ _ _ _))
        (observe_missing-SameClaims observed owners rest _)

  -- Without recovery.
  pub observe-SameClaims :
      (s : InventorySnapshot) (m : Manager) → SameClaims m (observe cfg env s false m).1
  unfolding observe
  observe-SameClaims s m =
      let owners = device_owners m in
      let watched = observe_items cfg env s.observed_at owners false s.devices m in
      after (observe_items-SameClaims s.observed_at owners false s.devices m)
        (observe_missing-SameClaims (by_name cfg env s.devices []) owners watched.1.known _)
