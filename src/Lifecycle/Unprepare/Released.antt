-- ===== src/Lifecycle/Unprepare/Released.antt =====
-- What `UnprepareResourceClaims` does to the claims that it works on.
use tenstorrent_dra_framewor.Base.{
  String, ◌<>◌, true, List, [], ◌∷◌, Option, none, some, string_eq, nat_eq, Option-cases,
  Bool-cases, suc, ◌⊎◌, ◌≡◌, refl, sym, ◌∙◌, ap, arith, inl, inr, ◌≢◌,
}
use tenstorrent_dra_framewor.Base.Dict.{
  Dict, lookup, insert, erase, lookup-insert_same, lookup-insert_other, lookup-erase_same,
  lookup-erase_other,
}
use tenstorrent_dra_framewor.Device.{InventoryDevice}
use tenstorrent_dra_framewor.Lifecycle.State.{
  preparing, prepared, releasing, recovered, ClaimDevice, PreparedClaim, Env, Config, Manager,
  ClaimPhase, persist, set_claims, write_error,
}
use tenstorrent_dra_framewor.Lifecycle.Janitor.{plain_event, audit}
use tenstorrent_dra_framewor.Lifecycle.Frame.{
  SameClaims, here, after, either, audit-SameClaims, quarantine-SameClaims, sanitize-SameClaims,
}
use tenstorrent_dra_framewor.Lifecycle.Prepare.{quarantine_all}
use tenstorrent_dra_framewor.Lifecycle.Unprepare.{
  release, is_releasing, intend, clean_device, clean_devices, forget, approve_release,
  release_claim, unprepare_one,
}

-- The claim after a release that ended with this error.
abbrev pub remaining : PreparedClaim → Option String → Option PreparedClaim
remaining claim none = none
remaining claim (some e) = some (release claim)

-- The step `x` from `before` is a release of the claim `uid`, done or failed, and no more.
pub record IsRelease (uid : String) (claim : PreparedClaim) (before : Manager)
    (x : Option String × Manager) : Type 0 where
  pub claim_left : lookup uid x.1.claims ≡ remaining claim x.0
  pub others : (other : String) → other ≢ uid → lookup other x.1.claims ≡ lookup other before.claims

releasing-phase : (p : ClaimPhase) → is_releasing p ≡ true → releasing ≡ p
releasing-phase preparing h = ground arith
releasing-phase prepared h = ground arith
releasing-phase releasing h = refl
releasing-phase recovered h = ground arith

release-Releasing :
    (claim : PreparedClaim) → is_releasing claim.phase ≡ true → release claim ≡ claim
release-Releasing claim h = ap (λ p. record claim { phase = p }) (releasing-phase claim.phase h)

module _ (cfg : Config) (env : Env) where
  clean_device-SameClaims :
      (claim : PreparedClaim) (inventory : Dict String InventoryDevice) (item : ClaimDevice)
      (e : Option String) (m : Manager)
      → SameClaims m (clean_device cfg env claim inventory item e m).1
  unfolding clean_device
  clean_device-SameClaims claim inventory item e m =
      elim (Option-cases (lookup item.device inventory)) [
        | inl miss ↦ rw (miss, clean_device) (quarantine-SameClaims cfg env _ _ _ (some claim) _ m)
        | inr (found, hit) ↦
            rw (hit, clean_device)
              (either found.character_device_present _ _
                (sanitize-SameClaims cfg env _ _ _ (some claim) m)
                (quarantine-SameClaims cfg env _ _ _ (some claim) _ m))
      ]

  clean_devices-SameClaims :
      (claim : PreparedClaim) (inventory : Dict String InventoryDevice) (items : List ClaimDevice)
      (e : Option String) (m : Manager)
      → SameClaims m (clean_devices cfg env claim inventory items e m).1
  unfolding clean_devices
  clean_devices-SameClaims claim inventory [] e m = here
  clean_devices-SameClaims claim inventory (item ∷ items) e m =
      after (clean_device-SameClaims claim inventory item e m)
        (clean_devices-SameClaims claim inventory items _ _)

  -- The intent leaves the claims of `m`, or `m` with the claim in `Releasing`.
  intend-cases :
      (uid : String) (claim : PreparedClaim) (m : Manager)
      → ((release claim ≡ claim) × SameClaims m (intend cfg env uid claim m).1)
        ⊎ SameClaims
            (set_claims (insert uid (release claim) m.claims) m)
            (intend cfg env uid claim m).1
  unfolding intend persist
  intend-cases uid claim m = elim (Bool-cases (is_releasing claim.phase)) [
    | inl done ↦ inl (release-Releasing claim done, rw (done, intend) here)
    | inr before ↦ elim (Option-cases (write_error (env.persist m.clock))) [
      | inl fine ↦ inr (
          rw (before, intend)
            (rw fine
              (record { same = (audit-SameClaims cfg env _ (some (release claim)) _).same })))
      | inr (e, fault) ↦ inr (rw (before, intend) (rw fault (record { same = refl })))
    ]
  ]

  intend-others :
      (uid : String) (claim : PreparedClaim) (m : Manager) (other : String)
      → other ≢ uid
      → lookup other (intend cfg env uid claim m).1.claims ≡ lookup other m.claims
  intend-others uid claim m other differ = elim (intend-cases uid claim m) [
    | inl (_, p) ↦ ap (lookup other) p.same
    | inr p ↦ ap (lookup other) p.same ∙ lookup-insert_other _ _ differ
  ]

  intend-claim :
      (uid : String) (claim : PreparedClaim) (m : Manager)
      → lookup uid m.claims ≡ some claim
      → lookup uid (intend cfg env uid claim m).1.claims ≡ some (release claim)
  intend-claim uid claim m stored = elim (intend-cases uid claim m) [
    | inl (same, p) ↦ ap (lookup uid) p.same ∙ (stored ∙ ap some (sym same))
    | inr p ↦ ap (lookup uid) p.same ∙ lookup-insert_same uid _ _
  ]

  forget-IsRelease :
      (uid : String) (claim : PreparedClaim) (m : Manager)
      → lookup uid m.claims ≡ some (release claim)
      → IsRelease uid claim m (forget cfg env uid (release claim) m)
  unfolding forget persist
  forget-IsRelease uid claim m stored = elim (Option-cases (env.remove_cdi m.clock)) [
    | inr (e, fault) ↦
        rw (fault, forget) (record { claim_left = stored; others = λ other differ. refl })
    | inl fine ↦ elim (Option-cases (write_error (env.persist (suc m.clock)))) [
      | inl written ↦
          rw (fine, forget)
            (rw written (record {
              claim_left = lookup-erase_same uid m.claims;
              others = λ other differ. lookup-erase_other _ differ;
            }))
      | inr (e, fault) ↦
          rw (fine, forget)
            (rw fault (record {
              claim_left = lookup-insert_same uid (release claim) (erase uid m.claims);
              others = λ other differ. lookup-insert_other _ _ differ ∙ lookup-erase_other _ differ;
            }))
    ]
  ]

  quarantine_all-SameClaims :
      (reason : String) (items : List ClaimDevice) (m : Manager)
      → SameClaims m (quarantine_all env reason items m)
  unfolding quarantine_all
  quarantine_all-SameClaims reason [] m = here
  quarantine_all-SameClaims reason (item ∷ items) m = record {
    same = (quarantine_all-SameClaims reason items _).same;
  }

  approve_release-IsRelease :
      (uid : String) (claim : PreparedClaim) (m : Manager)
      → lookup uid m.claims ≡ some (release claim)
      → IsRelease uid claim m (approve_release cfg env uid (release claim) m)
  unfolding approve_release
  approve_release-IsRelease uid claim m stored =
      let approved =
        audit cfg env (plain_event "claim-release" "approved" "" "" "") (some (release claim)) m in
      let same = (audit-SameClaims cfg env _ (some (release claim)) m).same in
      elim (Option-cases approved.0) [
        | inr (e, fault) ↦
            let reason = "claim release audit failed: " <> e in
            let fenced = (quarantine_all-SameClaims reason claim.devices approved.1).same ∙ same in
            rw (fault, approve_release)
              (record {
                claim_left = ap (lookup uid) fenced ∙ stored;
                others = λ other differ. ap (lookup other) fenced;
              })
        | inl fine ↦
            let rest = forget-IsRelease uid claim approved.1 (ap (lookup uid) same ∙ stored) in
            rw (fine, approve_release)
              (record {
                claim_left = rest.claim_left;
                others = λ other differ. rest.others other differ ∙ ap (lookup other) same;
              })
      ]

  release_claim-IsRelease :
      (uid : String) (claim : PreparedClaim) (inventory : Dict String InventoryDevice) (m : Manager)
      → lookup uid m.claims ≡ some (release claim)
      → IsRelease uid claim m (release_claim cfg env uid (release claim) inventory m)
  unfolding release_claim persist
  release_claim-IsRelease uid claim inventory m stored =
      let cleaned = clean_devices cfg env (release claim) inventory claim.devices none m in
      let same = (clean_devices-SameClaims (release claim) inventory claim.devices none m).same in
      elim (Option-cases cleaned.0) [
        | inr (e, fault) ↦
            rw (fault, release_claim)
              (record {
                claim_left = ap (lookup uid) same ∙ stored;
                others = λ other differ. ap (lookup other) same;
              })
        | inl fine ↦
            let rest =
              approve_release-IsRelease uid claim cleaned.1 (ap (lookup uid) same ∙ stored) in
            rw (fine, release_claim)
              (record {
                claim_left = rest.claim_left;
                others = λ other differ. rest.others other differ ∙ ap (lookup other) same;
              })
      ]

  -- The release of a recorded claim leaves no claim of that uid if it answers no error, and otherwise
  -- the same claim in the phase `Releasing`; no other claim changes.
  pub unprepare_one-IsRelease :
      (uid : String) (claim : PreparedClaim) (inventory : Dict String InventoryDevice) (m : Manager)
      → lookup uid m.claims ≡ some claim
      → IsRelease uid claim m (unprepare_one cfg env uid inventory m)
  unfolding unprepare_one
  unprepare_one-IsRelease uid claim inventory m stored =
      let intended = intend cfg env uid claim m in
      let now_stored = intend-claim uid claim m stored in
      elim (Option-cases intended.0) [
        | inr (e, fault) ↦
            rw (stored, unprepare_one)
              (rw fault (record { claim_left = now_stored; others = intend-others uid claim m }))
        | inl fine ↦
            let rest = release_claim-IsRelease uid claim inventory intended.1 now_stored in
            rw (stored, unprepare_one)
              (rw fine (record {
                claim_left = rest.claim_left;
                others = λ other differ.
                    rest.others other differ ∙ intend-others uid claim m other differ;
              }))
      ]
