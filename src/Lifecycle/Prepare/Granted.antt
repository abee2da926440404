-- ===== src/Lifecycle/Prepare/Granted.antt =====
-- What a claim that `prepareOne` grants can count on.
use tenstorrent_dra_framewor.Base.{
  String, true, List, [], ◌∷◌, none, some, string_eq, nat_eq, Option-cases, ◌≡◌, refl, sym, ◌∙◌, ap,
  subst, arith, inl, inr, branch,
}
use tenstorrent_dra_framewor.Base.Dict.{Dict, lookup, lookup-insert_same}
use tenstorrent_dra_framewor.Device.{InventoryDevice}
use tenstorrent_dra_framewor.Lifecycle.State.{
  ClaimPhase, preparing, prepared, releasing, recovered, ClaimDevice, PreparedClaim,
  QuarantineRecord, Env, Config, Manager, persist, write_error,
}
use tenstorrent_dra_framewor.Lifecycle.Janitor.{audit, plain_event}
use tenstorrent_dra_framewor.Lifecycle.Janitor.Quarantined.{audit-quarantined}
use tenstorrent_dra_framewor.Lifecycle.Observe.{by_name}
use tenstorrent_dra_framewor.Lifecycle.Cdi.{PluginDevice, cdi_results, write_cdi}
use tenstorrent_dra_framewor.Lifecycle.Claims.{
  ResourceClaim, Allocation, Checked, accepted, refused, claim_from_allocation, same_claim,
}
use tenstorrent_dra_framewor.Lifecycle.Claims.Accepted.{
  IsAcceptable, claim_from_allocation-IsAcceptable,
}
use tenstorrent_dra_framewor.Lifecycle.Prepare.{
  Outcome, granted, rejected, first_quarantined, refresh, sanitize_devices, verify_devices, commit,
  approve, verify_and_expose, expose, store_claim, begin, repeat, resume, prepare_one,
}
use tenstorrent_dra_framewor.Lifecycle.Prepare.Verified.{
  IsClean, refresh-FitFor, verify_devices-IsClean,
}

-- The claim is recorded as prepared, its devices are those granted, and none is in quarantine.
pub record IsPrepared (uid : String) (ds : List ClaimDevice) (items : List PluginDevice)
    (m : Manager) : Type 0 where
  pub claim : PreparedClaim
  pub found : lookup uid m.claims ≡ some claim
  pub phase_prepared : claim.phase ≡ prepared
  pub devices_same : claim.devices ≡ ds
  pub items_same : items ≡ cdi_results claim
  pub clean : IsClean m.quarantined claim.devices

-- If the outcome grants devices, then to a prepared claim.
pub data Grants (uid : String) (ds : List ClaimDevice) : Outcome × Manager → Type 0 where
  grants :
      (items : List PluginDevice) (m : Manager)
      → IsPrepared uid ds items m
      → Grants uid ds (granted items, m)
  rejects : (e : String) (m : Manager) → Grants uid ds (rejected e, m)

module _ (cfg : Config) (env : Env) where
  commit-Grants :
      (claim : PreparedClaim) (m : Manager)
      → IsClean m.quarantined claim.devices
      → Grants claim.uid claim.devices (commit cfg env claim m)
  unfolding commit persist cdi_results
  commit-Grants claim m clean = elim (Option-cases (write_error (env.persist m.clock))) [
    | inr (e, fault) ↦ rw (fault, commit) (rejects _ _)
    | inl fine ↦
        rw (fine, commit)
          (grants _ _ (record {
            claim = record claim { phase = prepared };
            found = lookup-insert_same claim.uid _ m.claims;
            phase_prepared = refl;
            devices_same = refl;
            items_same = refl;
            clean = clean;
          }))
  ]

  approve-Grants :
      (claim : PreparedClaim) (m : Manager)
      → IsClean m.quarantined claim.devices
      → Grants claim.uid claim.devices (approve cfg env claim m)
  unfolding approve
  approve-Grants claim m clean =
      let approved =
        audit cfg env (plain_event "claim-prepare" "approved" "" "" "") (some claim) m in
      elim (Option-cases approved.0) [
        | inr (e, fault) ↦ rw (fault, approve) (rejects _ _)
        | inl fine ↦
            rw (fine, approve)
              (commit-Grants claim approved.1 (
                subst (λ q. IsClean q claim.devices)
                  (sym (audit-quarantined cfg env _ (some claim) m)) clean))
      ]

  verify_and_expose-Grants :
      (claim : PreparedClaim) (m : Manager)
      → Grants claim.uid claim.devices (verify_and_expose cfg env claim m)
  unfolding verify_and_expose write_cdi
  verify_and_expose-Grants claim m =
      let seen = refresh cfg env "" "" m in
      let inventory = by_name cfg env (seen.0.2).devices [] in
      let verified = verify_devices cfg env claim inventory claim.devices seen.1 in
      let written = write_cdi env claim verified.1 in
      elim (Option-cases seen.0.0) [
        | inr (e, fault) ↦ rw (fault, verify_and_expose) (rejects _ _)
        | inl fine ↦ elim (Option-cases verified.0) [
          | inr (e, fault) ↦ rw (fine, verify_and_expose) (rw fault (rejects _ _))
          | inl known ↦ elim (Option-cases written.0) [
            | inr (e, fault) ↦ rw (fine, verify_and_expose) (rw known (rw fault (rejects _ _)))
            | inl exposed ↦
                let fit = refresh-FitFor cfg env m _ refl fine in
                let (clean, same) =
                  verify_devices-IsClean cfg env claim inventory claim.devices seen.1 fit known in
                rw (fine, verify_and_expose)
                  (rw known (
                    rw exposed (
                      approve-Grants claim written.1 (
                        subst (λ (m' : Manager). IsClean m'.quarantined claim.devices) (sym same)
                          clean))))
          ]
        ]
      ]

  expose-Grants :
      (claim : PreparedClaim) (m : Manager)
      → Grants claim.uid claim.devices (expose cfg env claim m)
  unfolding expose
  expose-Grants claim m = elim (Option-cases (sanitize_devices cfg env claim claim.devices m).0) [
    | inr (e, fault) ↦ rw (fault, expose) (rejects _ _)
    | inl fine ↦ rw (fine, expose) (verify_and_expose-Grants claim _)
  ]

  begin-Grants :
      (claim : PreparedClaim) (m : Manager) → Grants claim.uid claim.devices (begin cfg env claim m)
  unfolding begin
  begin-Grants claim m =
      let stored = persist env (store_claim claim m) in
      let noted =
        audit cfg env (plain_event "claim-prepare-intent" "recorded" "" "" "") (some claim)
          stored.1 in
      elim (Option-cases stored.0) [
        | inr (e, fault) ↦ rw (fault, begin) (rejects _ _)
        | inl fine ↦ elim (Option-cases noted.0) [
          | inr (e, fault) ↦ rw (fine, begin) (rw fault (rejects _ _))
          | inl recorded ↦ rw (fine, begin) (rw recorded (expose-Grants claim noted.1))
        ]
      ]

  first_quarantined-IsClean :
      (q : Dict String QuarantineRecord) (items : List ClaimDevice)
      → first_quarantined q items ≡ none
      → IsClean q items
  unfolding first_quarantined
  first_quarantined-IsClean q [] h = tt
  first_quarantined-IsClean q (item ∷ items) h = elim (Option-cases (lookup item.device q)) [
    | inl miss ↦ (miss, first_quarantined-IsClean q items (ground (arith, h, miss)))
    | inr (r, hit) ↦ absurd (ground (arith, h, hit))
  ]

  repeat-Grants :
      (claim : PreparedClaim) (m : Manager)
      → lookup claim.uid m.claims ≡ some claim
      → claim.phase ≡ prepared
      → Grants claim.uid claim.devices (repeat cfg env claim m)
  unfolding repeat write_cdi
  repeat-Grants claim m stored phase =
      elim (Option-cases (first_quarantined m.quarantined claim.devices)) [
        | inr (bad, hit) ↦ rw (hit, repeat) (rejects _ _)
        | inl none_bad ↦ elim (Option-cases (write_cdi env claim m).0) [
          | inr (e, fault) ↦ rw (none_bad, repeat) (rw fault (rejects _ _))
          | inl fine ↦
              rw (none_bad, repeat)
                (rw fine (
                  grants _ _ (record {
                    claim = claim;
                    found = stored;
                    phase_prepared = phase;
                    devices_same = refl;
                    items_same = refl;
                    clean = first_quarantined-IsClean m.quarantined claim.devices none_bad;
                  })))
        ]
      ]

  resume-Grants :
      (claim : PreparedClaim) (m : Manager) (p : ClaimPhase)
      → claim.phase ≡ p
      → lookup claim.uid m.claims ≡ some claim
      → Grants claim.uid claim.devices (resume cfg env claim m)
  unfolding resume
  resume-Grants claim m preparing e stored = rw (e, resume) (expose-Grants claim m)
  resume-Grants claim m prepared e stored = rw (e, resume) (repeat-Grants claim m stored e)
  resume-Grants claim m releasing e stored = rw (e, resume) (rejects _ _)
  resume-Grants claim m recovered e stored = rw (e, resume) (rejects _ _)

  Grants-IsPrepared :
      (uid : String) (ds : List ClaimDevice) (x : Outcome × Manager)
      → Grants uid ds x
      → (items : List PluginDevice) → x.0 ≡ granted items
      → IsPrepared uid ds items x.1
  Grants-IsPrepared uid ds x (grants items m p) items' h =
      let same : items ≡ items' = ground (arith, h) in subst (λ i. IsPrepared uid ds i m) same p
  Grants-IsPrepared uid ds x (rejects e m) items' h = ground (arith, h)

  same_claim-same :
      (existing wanted : PreparedClaim)
      → same_claim existing wanted ≡ true
      → (existing.uid ≡ wanted.uid) × (existing.devices ≡ wanted.devices)
  unfolding same_claim
  same_claim-same existing wanted h = (ground (arith, h), ground (arith, h))

  recorded-Grants :
      (uid : String) (wanted existing : PreparedClaim) (m : Manager)
      → wanted.uid ≡ uid
      → lookup uid m.claims ≡ some existing
      → same_claim existing wanted ≡ true
      → Grants uid wanted.devices (resume cfg env existing m)
  recorded-Grants uid wanted existing m named stored same =
      let (uids, devices) = same_claim-same existing wanted same in
      subst (λ ds. Grants uid ds (resume cfg env existing m)) devices
        (subst (λ u. Grants u existing.devices (resume cfg env existing m)) (uids ∙ named)
          (resume-Grants existing m _ refl (ap (λ u. lookup u m.claims) (uids ∙ named) ∙ stored)))

  prepare_one-Grants :
      (claim : ResourceClaim) (inventory : Dict String InventoryDevice)
      (owners : Dict String String) (m : Manager) (allocation : Allocation) (wanted : PreparedClaim)
      → claim.allocation ≡ some allocation
      → claim_from_allocation cfg inventory owners claim allocation ≡ accepted wanted
      → wanted.uid ≡ claim.uid
      → Grants claim.uid wanted.devices (prepare_one cfg env claim inventory owners m)
  unfolding prepare_one
  prepare_one-Grants claim inventory owners m allocation wanted found fine named =
      elim (Option-cases (lookup claim.uid m.claims)) [
        | inl new ↦
            rw (found, prepare_one)
              (rw fine (
                rw new (
                  subst (λ u. Grants u wanted.devices (begin cfg env wanted m)) named
                    (begin-Grants wanted m))))
        | inr (existing, stored) ↦
            rw (found, prepare_one)
              (rw fine (
                rw stored (
                  branch (Grants claim.uid wanted.devices) (same_claim existing wanted)
                    (λ same. recorded-Grants claim.uid wanted existing m named stored same)
                    (λ _. rejects _ _))))
      ]

  allocated-IsPrepared :
      (claim : ResourceClaim) (inventory : Dict String InventoryDevice)
      (owners : Dict String String) (m : Manager) (items : List PluginDevice)
      (allocation : Allocation) (r : Checked)
      → claim.allocation ≡ some allocation
      → claim_from_allocation cfg inventory owners claim allocation ≡ r
      → (prepare_one cfg env claim inventory owners m).0 ≡ granted items
      → (wanted : PreparedClaim) × IsAcceptable cfg inventory owners claim allocation wanted
        × IsPrepared claim.uid wanted.devices items (prepare_one cfg env claim inventory owners m).1
  unfolding prepare_one
  allocated-IsPrepared claim inventory owners m items allocation (refused e) found fine h =
      absurd (ground (arith, h, found, fine))
  allocated-IsPrepared claim inventory owners m items allocation (accepted wanted) found fine h =
      let acceptable =
        claim_from_allocation-IsAcceptable cfg inventory owners claim allocation wanted fine in
      let outcome =
        prepare_one-Grants claim inventory owners m allocation wanted found fine
          acceptable.uid_same in
      (wanted, acceptable, Grants-IsPrepared claim.uid wanted.devices _ outcome items h)

  -- A claim that `prepareOne` grants has an allocation, and is recorded as prepared with exactly the
  -- devices of the results that are for this driver: all of them local and safe, given to no other claim
  -- by the `owners` of the call, and none twice. It gets exactly these, and none of them is in
  -- quarantine.
  pub prepare_one-IsPrepared :
      (claim : ResourceClaim) (inventory : Dict String InventoryDevice)
      (owners : Dict String String) (m : Manager) (items : List PluginDevice)
      → (prepare_one cfg env claim inventory owners m).0 ≡ granted items
      → (allocation : Allocation) × (claim.allocation ≡ some allocation)
        × (wanted : PreparedClaim) × IsAcceptable cfg inventory owners claim allocation wanted
        × IsPrepared claim.uid wanted.devices items (prepare_one cfg env claim inventory owners m).1
  unfolding prepare_one
  prepare_one-IsPrepared claim inventory owners m items h = elim (Option-cases claim.allocation) [
    | inl missing ↦ absurd (ground (arith, h, missing))
    | inr (allocation, found) ↦
        let (wanted, acceptable, done) =
          allocated-IsPrepared claim inventory owners m items allocation _ found refl h in
        (allocation, found, wanted, acceptable, done)
  ]
