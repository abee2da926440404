-- ===== src/Tests/Recovery.antt =====
-- internal/lifecycle/recovery.go on the node with one device.
use tenstorrent_dra_framewor.Base.{
  ◌≡◌, refl, String, none, some, [], ◌∷◌, All, keep, string_eq, nat_eq,
}
use tenstorrent_dra_framewor.Lifecycle.State.{PreparedClaim, prepared, Manager, set_claims}
use tenstorrent_dra_framewor.Lifecycle.Observe.{by_name}
use tenstorrent_dra_framewor.Lifecycle.Startup.{Start, present, listed}
use tenstorrent_dra_framewor.Lifecycle.Recovery.{
  remove_orphan_cdi, reconcile_claims, recover_corrupt_state,
}
use tenstorrent_dra_framewor.Lifecycle.Recovery.Allocated.{IsKept, reconcile_claims-IsKept}
use tenstorrent_dra_framewor.Base.Dict.{lookup}
use tenstorrent_dra_framewor.Lifecycle.Claims.{AllocationResult}
use tenstorrent_dra_framewor.Lifecycle.Observe.Grows.{IsFenced}
use tenstorrent_dra_framewor.Lifecycle.Recovery.Allocated.{is_local}
use tenstorrent_dra_framewor.Lifecycle.Recovery.Adopted.{reconcile_claims-AllFenced}
use tenstorrent_dra_framewor.Lifecycle.Recovery.Cleaned.{IsClean, remove_orphan_cdi-IsClean}
use tenstorrent_dra_framewor.Lifecycle.Recovery.Rescued.{AllFenced, recover_corrupt_state-AllFenced}
use tenstorrent_dra_framewor.Tests.Lifecycle.{env, cfg, idle, seen, claim, allocation, wanted}

abbrev start : Start
start = record {
  allocations = some (λ n. listed (some wanted ∷ []));
  directory = λ n. present;
  rename = λ n. none;
}

abbrev with_claim : Manager
with_claim = set_claims (("u", record claim { phase = prepared }) ∷ []) idle

no_claim : lookup "u" idle.claims ≡ none
unfolding lookup
no_claim = refl

reconcile_claims-IsKept_example :
    All
      (λ (e : String × PreparedClaim).
        All
          (IsKept cfg
            (by_name cfg env seen.devices [])
            (some wanted ∷ [])
            (reconcile_claims cfg env start seen with_claim).1
            e)
          e.1.devices)
      with_claim.claims
reconcile_claims-IsKept_example =
    reconcile_claims-IsKept cfg env start (λ n. listed (some wanted ∷ [])) refl seen with_claim
      (some wanted ∷ []) refl

reconcile_claims-AllFenced_example :
    All
      (λ (r : AllocationResult). IsFenced (reconcile_claims cfg env start seen idle).1 r.device)
      (keep (is_local cfg) allocation.results)
reconcile_claims-AllFenced_example =
    reconcile_claims-AllFenced cfg env start (λ n. listed (some wanted ∷ [])) seen idle [] [] wanted
      allocation refl refl refl refl no_claim

abbrev with_orphan : Manager
with_orphan = record with_claim { cdi = ("claim-gone.json", []) ∷ ("claim-u.json", []) ∷ [] }

orphan_removed : (remove_orphan_cdi cfg env start with_orphan).1.cdi ≡ ("claim-u.json", []) ∷ []
unfolding remove_orphan_cdi string_eq nat_eq
orphan_removed = refl

orphan_without_error : (remove_orphan_cdi cfg env start with_orphan).0 ≡ none
unfolding remove_orphan_cdi string_eq nat_eq
orphan_without_error = refl

remove_orphan_cdi-IsClean_example :
    IsClean with_orphan (remove_orphan_cdi cfg env start with_orphan).1
remove_orphan_cdi-IsClean_example =
    remove_orphan_cdi-IsClean cfg env start with_orphan refl orphan_without_error

recover_corrupt_state-AllFenced_example :
    AllFenced cfg env start seen.devices (recover_corrupt_state cfg env start "bad" with_claim).1
    × ((recover_corrupt_state cfg env start "bad" with_claim).1.claims ≡ [])
recover_corrupt_state-AllFenced_example =
    recover_corrupt_state-AllFenced cfg env start "bad" seen with_claim refl refl
