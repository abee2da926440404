-- ===== src/Lifecycle/Prepare/Batches.antt =====
-- internal/lifecycle/manager.go: `PrepareResourceClaims`, over the claims of one call.
use tenstorrent_dra_framewor.Base.{
  String, Bool, true, false, List, [], ◌∷◌, Option, none, some, string_eq, nat_eq, if◌then◌else◌,
}
use tenstorrent_dra_framewor.Base.Dict.{Dict, lookup, insert}
use tenstorrent_dra_framewor.Device.{InventoryDevice, InventorySnapshot}
use tenstorrent_dra_framewor.Lifecycle.State.{
  preparing, prepared, releasing, recovered, ClaimDevice, Env, Config, Manager, M, persist,
  lock_and_reload,
}
use tenstorrent_dra_framewor.Lifecycle.Janitor.{device_owners}
use tenstorrent_dra_framewor.Lifecycle.Observe.{by_name}
use tenstorrent_dra_framewor.Lifecycle.Claims.{ResourceClaim}
use tenstorrent_dra_framewor.Lifecycle.Prepare.{Outcome, granted, rejected, refresh, prepare_one}

-- The answers of a call on several claims, or the error of the whole call.
pub data Batch {ℓ} (A : Type ℓ) : Type ℓ where
  answered : Dict String A → Batch A
  aborted : String → Batch A

module _ (cfg : Config) (env : Env) where
  own_all : String → List ClaimDevice → Dict String String → Dict String String
  unfolding insert
  own_all uid [] owners = owners
  own_all uid (item ∷ items) owners = own_all uid items (insert item.device uid owners)

  -- The claim is prepared already, so that a granted call has only repeated it.
  unfoldable pub is_repeat : String → Manager → Bool
  unfolding lookup
  is_repeat uid m = elim (lookup uid m.claims) as (λ _. Bool) [
    | none ↦ false
    | some claim ↦ elim claim.phase as (λ _. Bool) [
      | preparing ↦ false
      | prepared ↦ true
      | releasing ↦ false
      | recovered ↦ false
    ]
  ]

  -- The last step of `prepareOne`: a claim that was exposed now owns its devices.
  unfoldable pub own_granted :
      ResourceClaim → Manager → Outcome → Manager → Dict String String → Dict String String
  unfolding own_all lookup is_repeat
  own_granted claim before (rejected e) after owners = owners
  own_granted claim before (granted items) after owners =
      elim (lookup claim.uid after.claims) as (λ _. Dict String String) [
        | none ↦ owners
        | some stored ↦
            if is_repeat claim.uid before then owners else own_all claim.uid stored.devices owners
      ]

  -- The loop over the claims; `none` is a nil claim.
  unfoldable pub prepare_all :
      List (Option ResourceClaim)
      → Dict String InventoryDevice
      → Dict String String
      → Dict String Outcome
      → M (Dict String Outcome)
  unfolding prepare_one own_granted insert
  prepare_all [] inventory owners results m = (results, m)
  prepare_all (none ∷ claims) inventory owners results m =
      prepare_all claims inventory owners (insert "" (rejected "claim has no allocation") results) m
  prepare_all (some claim ∷ claims) inventory owners results m =
      let (outcome, m₁) = prepare_one cfg env claim inventory owners m in
      prepare_all claims inventory (own_granted claim m outcome m₁ owners)
        (insert claim.uid outcome results) m₁

  prepare_fresh : List (Option ResourceClaim) → InventorySnapshot → M (Batch Outcome)
  unfolding prepare_all persist by_name device_owners
  prepare_fresh claims s m =
      let (results, m₁) =
        prepare_all claims (by_name cfg env s.devices []) (device_owners m) [] m in
      let (error, m₂) = persist env m₁ in
      elim error [ some e ↦ (aborted e, m₂) | none ↦ (answered results, m₂) ]

  -- `PrepareResourceClaims`
  unfoldable pub prepare_resource_claims : List (Option ResourceClaim) → M (Batch Outcome)
  unfolding prepare_fresh refresh lock_and_reload
  prepare_resource_claims claims m =
      let (locked, m₁) = lock_and_reload env m in
      let (seen, m₂) = refresh cfg env "refresh inventory: " "monitor inventory: " m₁ in
      elim locked [
        | some e ↦ (aborted e, m₁)
        | none ↦ elim seen.0 [ some e ↦ (aborted e, m₂) | none ↦ prepare_fresh claims seen.1 m₂ ]
      ]
