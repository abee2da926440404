-- ===== src/Topology/Endpoints.antt =====
-- The endpoints that `BuildFabric` takes from the nodes: distinct, bounded and, with no error, named.
use tenstorrent_dra_framewor.Base.{
  ℕ, ◌≤◌, ◌≡◌, refl, ◌≢◌, ◌∙◌, sym, ap, subst, ◌⊎◌, ◌<>◌, inl, inr, String, Bool, true, false, ◌||◌,
  List, [], ◌∷◌, ◌++◌, ◌==◌, contains, string_eq, nat_eq, if◌then◌else◌, length, length-append,
  take, any, All, All-append, Bool-cases, le_of_not_ltb, arith,
}
use tenstorrent_dra_framewor.Base.Distinct.{Unique, Unique-concat}
use tenstorrent_dra_framewor.Base.Text.{show}
use tenstorrent_dra_framewor.Api.{TopologyDevice, NodeTopology, FabricEndpoint}
use tenstorrent_dra_framewor.Topology.{
  Fold, report, fail, append_endpoint, admit_endpoint, fold_device, fold_devices, fold_nodes,
  is_stale, endpoint_of, max_endpoints, max_nodes, max_fabrics, collect, too_many_nodes,
}

pub report-ne-nil : (m : String) (errors : List String) → report m errors ≢ []
unfolding report
report-ne-nil m [] e = ground arith
report-ne-nil m (x ∷ errors) e = ground arith

abbrev pub id_of : FabricEndpoint → String
id_of e = e.endpoint_id

-- Every endpoint has an id, a fabric and a ring.
abbrev pub IsNamed : FabricEndpoint → Type 0
IsNamed e = (e.endpoint_id ≢ "") × (e.fabric_id ≢ "") × (e.ring_id ≢ "")

-- `seen` is the set of the endpoints' ids.
record Inv (f : Fold) : Type 0 where
  unique : Unique id_of f.endpoints
  known : (id : String) → any (λ e. e.endpoint_id == id) f.endpoints ≡ contains f.seen id
  bounded : length f.endpoints ≤ max_endpoints
  named : f.errors ≡ [] → All IsNamed f.endpoints

any-snoc :
    (p : FabricEndpoint → Bool) (es : List FabricEndpoint) (e : FabricEndpoint)
    → any p (es ++ (e ∷ [])) ≡ (any p es || p e)
any-snoc p [] e = ground arith
any-snoc p (x ∷ es) e = ground (arith, any-snoc p es e)

-- A device is appended, or the endpoints stay and no error goes away.
admit_endpoint-cases :
    (node : String) (item : TopologyDevice) (f : Fold)
    → (admit_endpoint node item f ≡ append_endpoint node item f)
      ⊎ (((admit_endpoint node item f).endpoints ≡ f.endpoints)
          × ((admit_endpoint node item f).errors ≡ [] → f.errors ≡ []))
unfolding admit_endpoint
admit_endpoint-cases node item f = ground (
  arith,
  report-ne-nil ("duplicate endpoint " <> item.endpoint_id) f.errors,
  report-ne-nil ("endpoint count exceeds maximum " <> show max_endpoints) f.errors,
)

admit_endpoint-errors :
    (node : String) (item : TopologyDevice) (f : Fold)
    → (admit_endpoint node item f).errors ≡ []
    → f.errors ≡ []
admit_endpoint-errors node item f e = elim (admit_endpoint-cases node item f) [
  | inl a ↦ sym (ap (λ g. g.errors) a) ∙ e
  | inr (_, k) ↦ k e
]

admit_endpoint-Inv :
    (node : String) (item : TopologyDevice) (f : Fold)
    → ((admit_endpoint node item f).errors ≡ [] → IsNamed (endpoint_of node item))
    → Inv f
    → Inv (admit_endpoint node item f)
unfolding admit_endpoint
admit_endpoint-Inv node item f ok h = record {
  unique =
      ground
        (arith, Unique-concat id_of f.endpoints (endpoint_of node item), h.known item.endpoint_id);
  known = λ id.
      ground (
        arith,
        any-snoc (λ e. e.endpoint_id == id) f.endpoints (endpoint_of node item),
        h.known id,
      );
  bounded = ground (arith, length-append f.endpoints (endpoint_of node item ∷ []));
  named = λ e.
      let old = h.named (admit_endpoint-errors node item f e) in
      elim (admit_endpoint-cases node item f) [
        | inl a ↦
            subst (All IsNamed) (sym (ap (λ g. g.endpoints) a))
              (All-append IsNamed f.endpoints (endpoint_of node item ∷ []) old (ok e, tt))
        | inr (same, _) ↦ subst (All IsNamed) (sym same) old
      ];
}

-- A device with no fabric or ring leaves an error behind.
fold_device-Inv :
    (node : String) (item : TopologyDevice) (f : Fold) → Inv f → Inv (fold_device node item f)
unfolding fold_device
fold_device-Inv node item f h = elim (Bool-cases (item.endpoint_id == "")) [
  | inl e ↦ rw e h
  | inr n ↦ rw n (elim (Bool-cases (item.fabric_id == "" || item.ring_id == "")) [
    | inl e ↦ rw e (
        let m = "endpoint " <> (item.endpoint_id <> " has incomplete fabric identity") in
        admit_endpoint-Inv node item (fail m f)
          (λ none_left.
            absurd
              (report-ne-nil m f.errors (admit_endpoint-errors node item (fail m f) none_left)))
          (record {
            unique = h.unique;
            known = h.known;
            bounded = h.bounded;
            named = λ none_left. absurd (report-ne-nil m f.errors none_left);
          }))
    | inr k ↦ rw k (
        admit_endpoint-Inv node item f
          (λ _. ((λ e. ground arith), (λ e. ground arith), (λ e. ground arith))) h)
  ])
]

fold_device-errors :
    (node : String) (item : TopologyDevice) (f : Fold)
    → (fold_device node item f).errors ≡ []
    → f.errors ≡ []
unfolding fold_device
fold_device-errors node item f e =
    let m = "endpoint " <> (item.endpoint_id <> " has incomplete fabric identity") in
    ground (
      arith,
      admit_endpoint-errors node item f,
      admit_endpoint-errors node item (fail m f),
      report-ne-nil m f.errors,
    )

fold_devices-Inv :
    (node : String) (items : List TopologyDevice) (f : Fold)
    → Inv f
    → Inv (fold_devices node items f)
unfolding fold_devices
fold_devices-Inv node [] f h = h
fold_devices-Inv node (item ∷ items) f h =
    fold_devices-Inv node items (fold_device node item f) (fold_device-Inv node item f h)

fold_devices-errors :
    (node : String) (items : List TopologyDevice) (f : Fold)
    → (fold_devices node items f).errors ≡ []
    → f.errors ≡ []
unfolding fold_devices
fold_devices-errors node [] f e = e
fold_devices-errors node (item ∷ items) f e =
    fold_device-errors node item f (fold_devices-errors node items (fold_device node item f) e)

fail-Inv : (m : String) (f : Fold) → Inv f → Inv (fail m f)
fail-Inv m f h = record {
  unique = h.unique;
  known = h.known;
  bounded = h.bounded;
  named = λ none_left. absurd (report-ne-nil m f.errors none_left);
}

module _ (ttl now : ℕ) where
  fold_nodes-Inv : (nodes : List NodeTopology) (f : Fold) → Inv f → Inv (fold_nodes ttl now nodes f)
  unfolding fold_nodes
  fold_nodes-Inv [] f h = h
  fold_nodes-Inv (node ∷ nodes) f h = elim (Bool-cases (is_stale ttl now node)) [
    | inl e ↦ rw e (fold_nodes-Inv nodes _ (fail-Inv _ f h))
    | inr e ↦ rw e (fold_nodes-Inv nodes _ (fold_devices-Inv node.node_name node.devices f h))
  ]

  -- With no error left at the end, no node was stale.
  fold_nodes-errors :
      (nodes : List NodeTopology) (f : Fold)
      → (fold_nodes ttl now nodes f).errors ≡ []
      → (f.errors ≡ []) × All (λ node. is_stale ttl now node ≡ false) nodes
  unfolding fold_nodes
  fold_nodes-errors [] f e = (e, tt)
  fold_nodes-errors (node ∷ nodes) f e =
      let m = "node " <> (node.node_name <> " topology is stale") in
      let stale = fold_nodes-errors nodes (fail m f) in
      let fresh = fold_nodes-errors nodes (fold_devices node.node_name node.devices f) in
      elim (Bool-cases (is_stale ttl now node)) [
        | inl b ↦ absurd (report-ne-nil m f.errors (stale (ground arith)).0)
        | inr b ↦
            let (none_left, rest) = fresh (ground arith) in
            (fold_devices-errors node.node_name node.devices f none_left, (b, rest))
      ]

-- What the walk over the nodes gives: unique ids and at most 2048 endpoints in any case, and, where
-- it reports no error, a full name for each endpoint, fresh nodes, and counts within their limits.
pub record IsCollected (nodes : List NodeTopology) (ttl now : ℕ) (f : Fold) : Type 0 where
  pub unique : Unique id_of f.endpoints
  pub bounded : length f.endpoints ≤ max_endpoints
  pub clean :
      f.errors ≡ []
      → All IsNamed f.endpoints
        × All (λ node. is_stale ttl now node ≡ false) nodes
        × (length nodes ≤ max_nodes)
        × (length f.fabrics ≤ max_fabrics)

abbrev empty : Fold
empty = record { seen = []; fabrics = []; overflow = false; endpoints = []; errors = [] }

empty-Inv : Inv empty
empty-Inv = record { unique = tt; known = λ id. refl; bounded = omega arith; named = λ _. tt }

-- The walk from a first state, and the check of the number of fabrics.
finish-IsCollected :
    (nodes walked : List NodeTopology) (ttl now : ℕ) (first : Fold)
    → Inv first
    → (first.errors ≡ [] → (walked ≡ nodes) × (length nodes ≤ max_nodes))
    → (m : String) → (b : Bool)
    → (b ≡ false → length (fold_nodes ttl now walked first).fabrics ≤ max_fabrics)
    → IsCollected nodes ttl now
        (if b then fail m (fold_nodes ttl now walked first) else fold_nodes ttl now walked first)
finish-IsCollected nodes walked ttl now first h few m true k =
    let inv = fold_nodes-Inv ttl now walked first h in
    record {
      unique = inv.unique;
      bounded = inv.bounded;
      clean = λ e. absurd (report-ne-nil m (fold_nodes ttl now walked first).errors e);
    }
finish-IsCollected nodes walked ttl now first h few m false k =
    let inv = fold_nodes-Inv ttl now walked first h in
    record {
      unique = inv.unique;
      bounded = inv.bounded;
      clean = λ e.
          let (none_left, fresh) = fold_nodes-errors ttl now walked first e in
          let (same, small) = few none_left in
          (
            inv.named e,
            subst (All (λ node. is_stale ttl now node ≡ false)) same fresh,
            small,
            k refl,
          );
    }

pub collect-IsCollected :
    (nodes : List NodeTopology) (ttl now : ℕ) → IsCollected nodes ttl now (collect nodes ttl now)
unfolding collect
collect-IsCollected nodes ttl now = elim (Bool-cases (too_many_nodes nodes)) [
  | inl e ↦ rw e (
      finish-IsCollected nodes (take max_nodes nodes) ttl now _ (fail-Inv _ empty empty-Inv)
        (λ none_left. absurd (report-ne-nil _ [] none_left)) _ _ (λ b. le_of_not_ltb _ _ b))
  | inr e ↦ rw e (
      finish-IsCollected nodes nodes ttl now empty empty-Inv (λ _. (refl, le_of_not_ltb _ _ e)) _ _
        (λ b. le_of_not_ltb _ _ b))
]
