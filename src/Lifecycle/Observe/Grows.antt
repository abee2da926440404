-- ===== src/Lifecycle/Observe/Grows.antt =====
-- A look at the hardware takes no device out of quarantine.
use tenstorrent_dra_framewor.Base.{
  ℕ, String, Bool, true, false, not, ◌&&◌, List, [], ◌∷◌, Option, none, some, string_eq, ◌==◌, ◌≡◌,
  ◌∙◌, ap, if◌then◌else◌,
}
use tenstorrent_dra_framewor.Base.Dict.{Dict, lookup, has}
use tenstorrent_dra_framewor.Device.{InventoryDevice}
use tenstorrent_dra_framewor.Lifecycle.State.{
  PreparedClaim, QuarantineRecord, KnownDevice, Env, Config, Manager, dra_name,
}
use tenstorrent_dra_framewor.Lifecycle.Janitor.{
  device_unsafe_reason, claim_for_owner, owner_of, health_action, quarantine,
}
use tenstorrent_dra_framewor.Lifecycle.Janitor.Quarantined.{OthersKept, quarantine-IsQuarantined}
use tenstorrent_dra_framewor.Lifecycle.Observe.{
  check_path, observe_health, observe_item, observe_items, observe_missing,
}

-- The device is in quarantine.
abbrev pub IsFenced : Manager → String → Type 0
IsFenced m name = (r : QuarantineRecord) × (lookup name m.quarantined ≡ some r)

-- No device leaves the quarantine.
pub record Grows (before after : Manager) : Type 0 where
  pub kept : (name : String) → IsFenced before name → IsFenced after name

abbrev pub stays : {m : Manager} → Grows m m
stays = record { kept = λ name f. f }

pub joined : {a b c : Manager} → Grows a b → Grows b c → Grows a c
joined p q = record { kept = λ name f. q.kept name (p.kept name f) }

pub one_of {ℓ} :
    {A : Type ℓ} {m : Manager} (b : Bool) (x y : A × Manager)
    → Grows m x.1
    → Grows m y.1
    → Grows m (if b then x else y).1
one_of true x y p q = p
one_of false x y p q = q

module _ (cfg : Config) (env : Env) where
  pub quarantine-IsFenced :
      (name path reason : String) (claim : Option PreparedClaim) (action : String) (m : Manager)
      → IsFenced (quarantine cfg env name path reason claim action m).1 name
  quarantine-IsFenced name path reason claim action m =
      let q = quarantine-IsQuarantined cfg env name path reason claim action m in (q.entry, q.found)

  pub quarantine-Grows :
      (name path reason : String) (claim : Option PreparedClaim) (action : String) (m : Manager)
      → Grows m (quarantine cfg env name path reason claim action m).1
  unfolding OthersKept
  quarantine-Grows name path reason claim action m =
      let q = quarantine-IsQuarantined cfg env name path reason claim action m in
      record {
        kept = λ other f. elim (string_eq.dec other name) [
          | yes same ↦ (
            q.entry,
            ap (λ n. lookup n (quarantine cfg env name path reason claim action m).1.quarantined)
                  same
                ∙ q.found,
          )
          | no differ ↦ (f.0, q.others other differ ∙ f.1)
        ];
      }

  pub check_path-Grows :
      (name path : String) (known : Dict String KnownDevice) (m : Manager)
      → Grows m (check_path cfg env name path known m).1
  unfolding check_path
  check_path-Grows name path [] m = stays
  check_path-Grows name path ((prior_name, prior) ∷ rest) m =
      joined
        (one_of (not (prior_name == name) && prior.path == path) _ _
          (quarantine-Grows name path "hardware identity changed on device path" none "hotplug" m)
          stays)
        (check_path-Grows name path rest _)

  pub observe_health-Grows :
      (t : ℕ) (owners : Dict String String) (item : InventoryDevice) (m : Manager)
      → Grows m (observe_health cfg env t owners item m).1
  unfolding observe_health
  observe_health-Grows t owners item m =
      one_of (device_unsafe_reason cfg item == "") _ _ (record { kept = λ name f. f })
        (record { kept = (quarantine-Grows _ _ _ _ _ _).kept })

  pub observe_item-Grows :
      (t : ℕ) (owners : Dict String String) (idle : Bool) (item : InventoryDevice) (m : Manager)
      → Grows m (observe_item cfg env t owners idle item m).1
  unfolding observe_item
  observe_item-Grows t owners idle item m =
      let name = dra_name env item in
      let path = item.node.path in
      let isnt_known = not (has name m.known) && idle in
      let new = quarantine cfg env name path "new device requires sanitization" none "hotplug" m in
      joined (one_of isnt_known new (none, m) (quarantine-Grows _ _ _ none _ _) stays) (
        joined (check_path-Grows name path (if isnt_known then new else (none, m)).1.known _)
          (observe_health-Grows t owners item _))

  pub observe_items-Grows :
      (t : ℕ) (owners : Dict String String) (idle : Bool) (items : List InventoryDevice)
      (m : Manager)
      → Grows m (observe_items cfg env t owners idle items m).1
  unfolding observe_items
  observe_items-Grows t owners idle [] m = stays
  observe_items-Grows t owners idle (item ∷ items) m =
      joined (observe_item-Grows t owners idle item m) (observe_items-Grows t owners idle items _)

  -- The look at one known device.
  unfoldable pub missing_one :
      Dict String InventoryDevice
      → Dict String String
      → String
      → KnownDevice
      → Manager
      → Option String × Manager
  missing_one observed owners name known m =
      if has name observed
      then (none, m)
      else quarantine cfg env name known.path "device is no longer observed"
          (claim_for_owner m (owner_of name owners)) (health_action (owner_of name owners)) m

  pub observe_missing-Grows :
      (observed : Dict String InventoryDevice) (owners : Dict String String)
      (known : Dict String KnownDevice) (m : Manager)
      → Grows m (observe_missing cfg env observed owners known m).1
  unfolding observe_missing
  observe_missing-Grows observed owners [] m = stays
  observe_missing-Grows observed owners ((name, known) ∷ rest) m =
      joined (one_of (has name observed) _ _ stays (quarantine-Grows _ _ _ _ _ _))
        (observe_missing-Grows observed owners rest _)
