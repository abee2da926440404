-- ===== src/Lifecycle/Observe/Fenced.antt =====
-- After a look at the hardware every unsafe or missing device is in quarantine.
use tenstorrent_dra_framewor.Base.{
  ℕ, String, Bool, false, List, [], ◌∷◌, Option, string_eq, ◌==◌, ◌≡◌, ◌≢◌, sym, subst, arith,
  branch, All,
}
use tenstorrent_dra_framewor.Base.Dict.{Dict, has}
use tenstorrent_dra_framewor.Device.{InventoryDevice, InventorySnapshot}
use tenstorrent_dra_framewor.Lifecycle.State.{KnownDevice, Env, Config, Manager, dra_name}
use tenstorrent_dra_framewor.Lifecycle.Janitor.{device_unsafe_reason, device_owners}
use tenstorrent_dra_framewor.Lifecycle.Observe.{
  observe_health, observe_item, observe_items, observe_missing, observe, by_name,
}
use tenstorrent_dra_framewor.Lifecycle.Observe.Grows.{
  IsFenced, Grows, joined, missing_one, quarantine-IsFenced, observe_items-Grows,
  observe_missing-Grows,
}
use tenstorrent_dra_framewor.Lifecycle.Frame.{observe-SameClaims}
use tenstorrent_dra_framewor.Lifecycle.Observe.Known.{observe_missing-known}

module _ (cfg : Config) (env : Env) where
  observe_health-IsFenced :
      (t : ℕ) (owners : Dict String String) (item : InventoryDevice) (m : Manager)
      → device_unsafe_reason cfg item ≢ ""
      → IsFenced (observe_health cfg env t owners item m).1 (dra_name env item)
  unfolding observe_health
  observe_health-IsFenced t owners item m unsafe =
      branch (λ (x : Option String × Manager). IsFenced x.1 (dra_name env item))
        (device_unsafe_reason cfg item == "") (λ safe. absurd (unsafe (ground (arith, safe))))
        (λ _. quarantine-IsFenced cfg env _ _ _ _ _ _)

  observe_item-IsFenced :
      (t : ℕ) (owners : Dict String String) (idle : Bool) (item : InventoryDevice) (m : Manager)
      → device_unsafe_reason cfg item ≢ ""
      → IsFenced (observe_item cfg env t owners idle item m).1 (dra_name env item)
  unfolding observe_item
  observe_item-IsFenced t owners idle item m unsafe = observe_health-IsFenced t owners item _ unsafe

  -- The unsafe devices of the list are in quarantine.
  abbrev pub UnsafeFenced : Manager → List InventoryDevice → Type 0
  UnsafeFenced m = All (λ item. device_unsafe_reason cfg item ≢ "" → IsFenced m (dra_name env item))

  UnsafeFenced-Grows :
      {before after : Manager} (items : List InventoryDevice)
      → Grows before after
      → UnsafeFenced before items
      → UnsafeFenced after items
  UnsafeFenced-Grows [] g h = tt
  UnsafeFenced-Grows (item ∷ items) g (f, h) =
      ((λ unsafe. g.kept (dra_name env item) (f unsafe)), UnsafeFenced-Grows items g h)

  observe_items-UnsafeFenced :
      (t : ℕ) (owners : Dict String String) (idle : Bool) (items : List InventoryDevice)
      (m : Manager)
      → UnsafeFenced (observe_items cfg env t owners idle items m).1 items
  unfolding observe_items
  observe_items-UnsafeFenced t owners idle [] m = tt
  observe_items-UnsafeFenced t owners idle (item ∷ items) m = (
    λ unsafe.
        (observe_items-Grows cfg env t owners idle items
            (observe_item cfg env t owners idle item m).1).kept
          (dra_name env item) (observe_item-IsFenced t owners idle item m unsafe),
    observe_items-UnsafeFenced t owners idle items _,
  )

  -- The devices of the map that are not observed are in quarantine.
  abbrev pub MissingFenced :
      Dict String InventoryDevice → Manager → Dict String KnownDevice → Type 0
  MissingFenced observed m =
      All (λ (e : String × KnownDevice). has e.0 observed ≡ false → IsFenced m e.0)

  observe_missing-MissingFenced :
      (observed : Dict String InventoryDevice) (owners : Dict String String)
      (known : Dict String KnownDevice) (m : Manager)
      → MissingFenced observed (observe_missing cfg env observed owners known m).1 known
  unfolding observe_missing missing_one
  observe_missing-MissingFenced observed owners [] m = tt
  observe_missing-MissingFenced observed owners ((name, known) ∷ rest) m =
      let first = missing_one cfg env observed owners name known m in
      (
        λ gone. (observe_missing-Grows cfg env observed owners rest first.1).kept name (
            branch (λ (x : Option String × Manager). IsFenced x.1 name) (has name observed)
              (λ here. absurd (ground (arith, here, gone)))
              (λ _. quarantine-IsFenced cfg env _ _ _ _ _ _)),
        observe_missing-MissingFenced observed owners rest first.1,
      )

  -- Every observed unsafe device and every known device that was not observed is in quarantine.
  pub record IsWatched (s : InventorySnapshot) (before after : Manager) : Type 0 where
    pub unsafe_fenced : UnsafeFenced after s.devices
    pub missing_fenced : MissingFenced (by_name cfg env s.devices []) after after.known
    pub grows : Grows before after
    pub claims_same : after.claims ≡ before.claims

  -- After `observeLocked` without recovery every observed device that is unsafe, and every known device
  -- that was not observed, is in quarantine, no device has left it, and no claim has changed.
  pub observe-IsWatched :
      (s : InventorySnapshot) (m : Manager) → IsWatched s m (observe cfg env s false m).1
  unfolding observe
  observe-IsWatched s m =
      let owners = device_owners m in
      let observed = by_name cfg env s.devices [] in
      let seen = (observe_items cfg env s.observed_at owners false s.devices m).1 in
      let gone = observe_missing-Grows cfg env observed owners seen.known seen in
      record {
        unsafe_fenced =
            UnsafeFenced-Grows s.devices gone
              (observe_items-UnsafeFenced s.observed_at owners false s.devices m);
        missing_fenced =
            subst
              (MissingFenced observed (observe_missing cfg env observed owners seen.known seen).1)
              (sym (observe_missing-known cfg env observed owners seen.known seen))
              (observe_missing-MissingFenced observed owners seen.known seen);
        grows = joined (observe_items-Grows cfg env s.observed_at owners false s.devices m) gone;
        claims_same = (observe-SameClaims cfg env s m).same;
      }
