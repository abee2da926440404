-- ===== src/Lifecycle/State.antt =====
-- internal/lifecycle/state.go and the types of manager.go, janitor.go and cdi.go; the transaction
-- prologue of recovery.go. Each call of the outside world advances `clock`, and `Env` says what the
-- call at that count does, so that two calls of one kind may end differently.
pub mod Reloaded
unfoldable pub use tenstorrent_dra_framewor.Base.Text.{join}
use tenstorrent_dra_framewor.Base.{
  ℕ, suc, ◌+◌, String, ◌<>◌, Bool, true, false, not, ◌&&◌, ◌||◌, List, [], ◌∷◌, ◌++◌, Option, none,
  some, ◌==◌, string_eq, nat_eq, if◌then◌else◌, leb, ltb, map,
}
use tenstorrent_dra_framewor.Base.Text.{show}
use tenstorrent_dra_framewor.Base.Dict.{Dict, insert}
use tenstorrent_dra_framewor.Device.{InventoryDevice, InventorySnapshot}
use tenstorrent_dra_framewor.Device.Name.{dra_label}

pub data ClaimPhase : Type 0 where
  preparing prepared releasing recovered : ClaimPhase

pub record ClaimDevice : Type 0 where
  pub requests : List String
  pub pool : String
  pub device : String
  pub stable_id : String
  pub path : String
  pub major : ℕ
  pub minor : ℕ
  pub cdi_id : String

pub record PreparedClaim : Type 0 where
  pub uid : String
  pub namespace : String
  pub name : String
  pub phase : ClaimPhase
  pub devices : List ClaimDevice

pub record QuarantineRecord : Type 0 where
  pub reason : String
  pub since : ℕ
  pub awaiting_health : Bool

pub record KnownDevice : Type 0 where
  pub path : String
  pub last_seen : ℕ

pub record PersistedState : Type 0 where
  pub version : ℕ
  pub claims : Dict String PreparedClaim
  pub quarantined : Dict String QuarantineRecord
  pub known : Dict String KnownDevice

abbrev pub state_version : ℕ
state_version = 4

pub record AuditEvent : Type 0 where
  pub time : ℕ
  pub action : String
  pub outcome : String
  pub device : String
  pub path : String
  pub claim_uid : String
  pub namespace : String
  pub claim_name : String
  pub reason : String

-- `claims.json`: not there, unreadable, not JSON, or a state with its three maps, as `persist` writes
-- them.
pub data StateFile : Type 0 where
  missing : StateFile
  unreadable corrupt : String → StateFile
  stored : PersistedState → StateFile

-- What a durable write did: all of it, nothing, or the content with an error from the last sync.
pub data Written : Type 0 where
  complete : Written
  lost unsynced : String → Written

-- The error of a write, and whether its content is there.
abbrev pub write_error : Written → Option String
write_error complete = none
write_error (lost e) = some e
write_error (unsynced e) = some e

abbrev pub has_content : Written → Bool
has_content complete = true
has_content (lost _) = false
has_content (unsynced _) = true

-- An inventory callback's answer.
pub data Observed : Type 0 where
  snapshot : InventorySnapshot → Observed
  failure : String → Observed

-- The outside world at each count of calls, and the texts of library calls.
pub record Env : Type 0 where
  pub digest : String → String
  pub duration_text : ℕ → String
  pub now : ℕ → ℕ
  pub lock : ℕ → Option String
  pub inventory : ℕ → Observed
  pub reset : ℕ → String → Option String
  pub audit : ℕ → Written
  pub persist : ℕ → Written
  pub write_cdi : ℕ → Written
  pub remove_cdi : ℕ → Option String

pub record Config : Type 0 where
  pub node_name : String
  pub driver : String
  pub require_iommu : Bool
  pub max_inventory_age : ℕ

pub record CdiNode : Type 0 where
  pub name : String
  pub path : String
  pub major : ℕ
  pub minor : ℕ

pub record Manager : Type 0 where
  pub state : PersistedState
  pub open state use *
  pub disk : StateFile
  pub audit_log : List AuditEvent
  pub cdi : Dict String (List CdiNode)
  pub last_snapshot : InventorySnapshot
  pub lock_open : Bool
  pub clock : ℕ

abbrev pub M : Type 0 → Type 0
M A = Manager → A × Manager

-- One more call of the outside world.
abbrev pub tick : Manager → Manager
tick m = record m { clock = suc m.clock }

-- An error with a text before it.
abbrev pub prefixed : String → Option String → Option String
prefixed context none = none
prefixed context (some e) = some (context <> e)

-- `fmt.Errorf("...: %w", err)`
abbrev pub wrap : String → Option String → Option String
wrap context none = none
wrap context (some e) = some (context <> (": " <> e))

-- Unmarshalling into a map that is there already keeps its other entries.
unfoldable pub merge {ℓ} : {V : Type ℓ} → Dict String V → Dict String V → Dict String V
unfolding insert
merge [] memory = memory
merge ((k, v) ∷ file) memory = merge file (insert k v memory)

-- Claims of an older version count as prepared.
migrate : PersistedState → PersistedState
migrate s =
    if leb 1 s.version && ltb s.version state_version
    then record s {
      version = state_version;
      claims = map (λ (uid, c). (uid, record c { phase = prepared })) s.claims;
    }
    else s

unsupported : ℕ → Option String
unsupported version = some ("unsupported claim state version " <> show version)

-- `load`
unfoldable pub load : M (Option String)
unfolding merge migrate unsupported
load m = elim m.disk [
  | missing ↦ (none, m)
  | unreadable e ↦ (some e, m)
  | corrupt e ↦ (some ("decode claim state: " <> e), m)
  | stored file ↦
      let s = migrate (record {
        version = file.version;
        claims = merge file.claims m.claims;
        quarantined = merge file.quarantined m.quarantined;
        known = merge file.known m.known;
      }) in
      (if s.version == state_version then none else unsupported s.version, record m { state = s })
]

module _ (env : Env) where
  -- `time.Now()`
  abbrev pub now : M ℕ
  now m = (env.now m.clock, tick m)

  -- `persist`: the file holds the state, unless the write is lost.
  unfoldable pub persist : M (Option String)
  persist m =
      let w = env.persist m.clock in
      let m' = tick m in
      (write_error w, record m' { disk = if has_content w then stored m.state else m.disk })

  -- `lockState`
  unfoldable pub lock_state : M (Option String)
  lock_state m =
      if m.lock_open
      then (wrap "lock lifecycle state" (env.lock m.clock), tick m)
      else (some "lifecycle state lock is closed", m)

  -- `lockAndReload`
  unfoldable pub lock_and_reload : M (Option String)
  unfolding lock_state load
  lock_and_reload m =
      let (e, m') = lock_state m in elim e [ some err ↦ (some err, m') | none ↦ load m' ]

  -- `device.DRAName`
  abbrev pub dra_name : InventoryDevice → String
  dra_name item = dra_label env.digest item.stable_id item.node.chip_series item.node.id

abbrev pub set_claims : Dict String PreparedClaim → Manager → Manager
set_claims c m = record m { state = record m.state { claims = c } }

abbrev pub set_quarantined : Dict String QuarantineRecord → Manager → Manager
set_quarantined q m = record m { state = record m.state { quarantined = q } }

abbrev pub set_known : Dict String KnownDevice → Manager → Manager
set_known k m = record m { state = record m.state { known = k } }
