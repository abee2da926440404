-- ===== src/Lifecycle/Janitor/Quarantined.antt =====
-- What `quarantineLocked` and `sanitizeLocked` of internal/lifecycle/janitor.go do to the quarantine.
use tenstorrent_dra_framewor.Base.{
  ℕ, String, false, Option, none, some, string_eq, nat_eq, Option-cases, ◌≡◌, refl, sym, ◌∙◌, ap,
  arith, ◌==◌, inl, inr, ◌≢◌, branch,
}
use tenstorrent_dra_framewor.Base.Dict.{
  lookup, lookup-insert_same, lookup-insert_other, lookup-erase_same, lookup-erase_other,
}
use tenstorrent_dra_framewor.Lifecycle.State.{
  PreparedClaim, QuarantineRecord, AuditEvent, Env, Config, Manager, join,
}
use tenstorrent_dra_framewor.Lifecycle.Janitor.{audit, quarantine_new, quarantine, settle, sanitize}

-- From `before` to `after` no record but that of `name` changes.
unfoldable pub OthersKept : String → Manager → Manager → Type 0
OthersKept name before after =
    (other : String)
    → other ≢ name
    → lookup other after.quarantined ≡ lookup other before.quarantined

-- The device is in quarantine for the reason, since the time of the record that it had before, or
-- without one since the time given.
pub record IsQuarantined (name reason : String) (time : ℕ) (before after : Manager) : Type 0 where
  pub entry : QuarantineRecord
  pub found : lookup name after.quarantined ≡ some entry
  pub reason_same : entry.reason ≡ reason
  pub since_same :
      (r : QuarantineRecord) → lookup name before.quarantined ≡ some r → entry.since ≡ r.since
  pub since_new : lookup name before.quarantined ≡ none → entry.since ≡ time
  pub others : OthersKept name before after

abbrev since_of : ℕ → Option QuarantineRecord → ℕ
since_of time none = time
since_of time (some r) = r.since

module _ (cfg : Config) (env : Env) where
  pub audit-quarantined :
      (event : AuditEvent) (claim : Option PreparedClaim) (m : Manager)
      → (audit cfg env event claim m).1.quarantined ≡ m.quarantined
  unfolding audit
  audit-quarantined event claim m = ground arith

  quarantine_new-IsQuarantined :
      (name path reason : String) (claim : Option PreparedClaim) (action : String) (m : Manager)
      (current : Option QuarantineRecord)
      → lookup name m.quarantined ≡ current
      → IsQuarantined name reason
          (env.now m.clock)
          m
          (quarantine_new cfg env name path reason claim action current m).1
  unfolding quarantine_new OthersKept
  quarantine_new-IsQuarantined name path reason claim action m current h =
      let since : ℕ = since_of (env.now m.clock) current in
      let entry : QuarantineRecord = record {
        reason = reason;
        since = since;
        awaiting_health = false;
      } in
      let same = audit-quarantined _ claim _ in
      record {
        entry = entry;
        found = ap (lookup name) same ∙ lookup-insert_same name entry m.quarantined;
        reason_same = refl;
        since_same = λ r e. ap (since_of (env.now m.clock)) (sym h ∙ e);
        since_new = λ e. ap (since_of (env.now m.clock)) (sym h ∙ e);
        others =
            λ other differ. ap (lookup other) same ∙ lookup-insert_other entry m.quarantined differ;
      }

  -- After `quarantineLocked` the device is in quarantine for the reason given, since the time of the
  -- record that it had, or since now if it had none, and no other device's record changes.
  pub quarantine-IsQuarantined :
      (name path reason : String) (claim : Option PreparedClaim) (action : String) (m : Manager)
      → IsQuarantined name reason
          (env.now m.clock)
          m
          (quarantine cfg env name path reason claim action m).1
  unfolding quarantine OthersKept
  quarantine-IsQuarantined name path reason claim action m =
      elim (Option-cases (lookup name m.quarantined)) [
        | inl miss ↦
            rw (miss, quarantine)
              (quarantine_new-IsQuarantined name path reason claim action m none miss)
        | inr (r, hit) ↦
            rw (hit, quarantine)
              (branch
                (λ (x : Option String × Manager). IsQuarantined name reason (env.now m.clock) m x.1)
                (r.reason == reason)
                (λ same. record {
                  entry = r;
                  found = hit;
                  reason_same = ground arith;
                  since_same = λ r' e. ap (since_of 0) (sym hit ∙ e);
                  since_new = λ e. ground (arith, hit, e);
                  others = λ other differ. refl;
                })
                (λ _. quarantine_new-IsQuarantined name path reason claim action m (some r) hit))
      ]

-- The outcome of sanitizing: without an error the reset was done and the device is out of quarantine;
-- with an error, and with it whenever the reset fails, the device is in quarantine.
pub record IsSanitized (name : String) (reset : Option String) (before : Manager)
    (x : Option String × Manager) : Type 0 where
  pub done : x.0 ≡ none → (reset ≡ none) × (lookup name x.1.quarantined ≡ none)
  pub failed : x.0 ≢ none → (r : QuarantineRecord) × (lookup name x.1.quarantined ≡ some r)
  pub others : OthersKept name before x.1

join-ne-none : (e : String) (f : Option String) → join (some e) f ≢ none
unfolding join
join-ne-none e none h = ground arith
join-ne-none e (some f) h = ground arith

module _ (cfg : Config) (env : Env) where
  settle-IsSanitized :
      (name : String) (reset unrecorded : Option String) (m : Manager)
      → IsSanitized name reset m (settle cfg env name reset unrecorded m)
  unfolding settle OthersKept join
  settle-IsSanitized name none none m = record {
    done = λ e. (refl, lookup-erase_same name m.quarantined);
    failed = λ n. absurd (n refl);
    others = λ other differ. lookup-erase_other m.quarantined differ;
  }
  settle-IsSanitized name none (some e) m = record {
    done = λ h. ground (arith, h);
    failed = λ _. (_, lookup-insert_same name _ m.quarantined);
    others = λ other differ. lookup-insert_other _ m.quarantined differ;
  }
  settle-IsSanitized name (some e) unrecorded m = record {
    done = λ h. absurd (join-ne-none e unrecorded h);
    failed = λ _. (_, lookup-insert_same name _ m.quarantined);
    others = λ other differ. lookup-insert_other _ m.quarantined differ;
  }

  -- `sanitizeLocked` answers no error only if the reset of the device succeeded, and the device is out of
  -- quarantine then; if it answers an error, the device is in quarantine. No other record changes.
  pub sanitize-IsSanitized :
      (action name path : String) (claim : Option PreparedClaim) (m : Manager)
      → IsSanitized name (env.reset m.clock path) m (sanitize cfg env action name path claim m)
  unfolding sanitize OthersKept
  sanitize-IsSanitized action name path claim m =
      let settled = settle-IsSanitized name (env.reset m.clock path) _ _ in
      record {
        done = settled.done;
        failed = settled.failed;
        others = λ other differ.
            settled.others other differ ∙ ap (lookup other) (audit-quarantined cfg env _ claim _);
      }
