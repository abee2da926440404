-- ===== src/Topology/Valid.antt =====
-- What `Valid` promises of the fabric that `BuildFabric` publishes.
use mathlib.Core.List.{Mem, mem-cons_self, mem-cons_of_mem}
use tenstorrent_dra_framewor.Base.{
  ℕ, ◌≤◌, ◌≡◌, refl, ◌≢◌, ◌∙◌, sym, ap, subst, inl, inr, ◌⊎◌, String, true, false, List, [], ◌∷◌,
  ◌==◌, string_eq, nat_eq, length, All, some, Option-cases, arith, ◌<>◌,
}
use tenstorrent_dra_framewor.Base.Dict.{Dict, lookup, insert, lookup-insert, lookup-nil}
use tenstorrent_dra_framewor.Base.Distinct.{Unique}
use tenstorrent_dra_framewor.Base.Sort.{sort, sort-All, sort-Unique, length-sort}
use tenstorrent_dra_framewor.Api.{TopologyLink, NodeTopology, FabricEndpoint}
use tenstorrent_dra_framewor.Placement.Connected.{index_by_id}
use tenstorrent_dra_framewor.Topology.{
  check_link, check_links, check_endpoints, is_reciprocal, is_stale, collect, max_nodes,
  max_endpoints, build_fabric, by_endpoint_id,
}
use tenstorrent_dra_framewor.Topology.Endpoints.{report-ne-nil, id_of, IsNamed, collect-IsCollected}

-- An entry of the index is one of the endpoints, under its own id.
lookup-index_by_id :
    (id : String) (es : List FabricEndpoint) (by_id : Dict String FabricEndpoint)
    (e : FabricEndpoint)
    → lookup id (index_by_id es by_id) ≡ some e
    → (lookup id by_id ≡ some e) ⊎ (Mem e es × (e.endpoint_id ≡ id))
unfolding index_by_id
lookup-index_by_id id [] by_id e h = inl h
lookup-index_by_id id (x ∷ es) by_id e h =
    elim (lookup-index_by_id id es (insert x.endpoint_id x by_id) e h) [
      | inl found ↦ elim (string_eq.dec id x.endpoint_id) [
        | yes same ↦
            let e≡x : x ≡ e = ground (arith, lookup-insert id x.endpoint_id x by_id) in
            inr (subst (λ y. Mem y (x ∷ es)) e≡x mem-cons_self, sym (ap id_of e≡x) ∙ sym same)
        | no differ ↦ inl (ground (arith, lookup-insert id x.endpoint_id x by_id))
      ]
      | inr (m, same) ↦ inr (mem-cons_of_mem x m, same)
    ]

-- An up link with a remote id leads to an endpoint of the fabric, on the same fabric and ring, that
-- has an up link back.
abbrev pub IsLinked : List FabricEndpoint → FabricEndpoint → TopologyLink → Type 0
IsLinked endpoints item link =
    link.state ≡ "up"
    → link.remote_endpoint_id ≢ ""
    → (peer : FabricEndpoint) × Mem peer endpoints
      × (peer.endpoint_id ≡ link.remote_endpoint_id)
      × (peer.fabric_id ≡ item.fabric_id)
      × (peer.ring_id ≡ item.ring_id)
      × (is_reciprocal item peer ≡ true)

module _ (endpoints : List FabricEndpoint) where
  abbrev by_id : Dict String FabricEndpoint
  by_id = index_by_id endpoints []

  check_link-errors :
      (item : FabricEndpoint) (link : TopologyLink) (errors : List String)
      → check_link by_id item link errors ≡ []
      → (errors ≡ []) × IsLinked endpoints item link
  unfolding check_link
  check_link-errors item link errors e =
      let m₁ =
        "endpoint "
        <> (item.endpoint_id <> (" references missing peer " <> link.remote_endpoint_id)) in
      let m₂ = "endpoint " <> (item.endpoint_id <> " crosses fabric or ring") in
      elim (Option-cases (lookup link.remote_endpoint_id by_id)) [
        | inl miss ↦ (
          ground (arith, report-ne-nil m₁ errors),
          λ up named. absurd (ground (arith, report-ne-nil m₁ errors)),
        )
        | inr (peer, hit) ↦
            let m₃ =
              "link "
              <> (item.endpoint_id <> (" to " <> (peer.endpoint_id <> " is not reciprocal"))) in
            (
              ground (arith, report-ne-nil m₂ errors, report-ne-nil m₃ errors),
              λ up named. elim (lookup-index_by_id link.remote_endpoint_id endpoints [] peer hit) [
                | inl found ↦
                    absurd (ground (arith, lookup-nil {V = FabricEndpoint} link.remote_endpoint_id))
                | inr (m, same) ↦ (
                  peer,
                  m,
                  same,
                  ground (arith, report-ne-nil m₂ errors, report-ne-nil m₃ errors),
                  ground (arith, report-ne-nil m₂ errors, report-ne-nil m₃ errors),
                  ground (arith, report-ne-nil m₂ errors, report-ne-nil m₃ errors),
                )
              ],
            )
      ]

  check_links-errors :
      (item : FabricEndpoint) (links : List TopologyLink) (errors : List String)
      → check_links by_id item links errors ≡ []
      → (errors ≡ []) × All (IsLinked endpoints item) links
  unfolding check_links
  check_links-errors item [] errors e = (e, tt)
  check_links-errors item (link ∷ links) errors e =
      let (before, rest) = check_links-errors item links (check_link by_id item link errors) e in
      let (first, linked) = check_link-errors item link errors before in (first, (linked, rest))

  check_endpoints-errors :
      (items : List FabricEndpoint) (errors : List String)
      → check_endpoints by_id items errors ≡ []
      → (errors ≡ []) × All (λ item. All (IsLinked endpoints item) item.links) items
  unfolding check_endpoints
  check_endpoints-errors [] errors e = (e, tt)
  check_endpoints-errors (item ∷ items) errors e =
      let (before, rest) =
        check_endpoints-errors items (check_links by_id item item.links errors) e in
      let (first, linked) = check_links-errors item item.links errors before in
      (first, (linked, rest))

nil_of_length : (errors : List String) → (length errors == 0) ≡ true → errors ≡ []
nil_of_length [] h = refl
nil_of_length (e ∷ errors) h = absurd (ground arith)

-- What a consumer may rely on when the status says `Valid`.
pub record IsFabric (nodes : List NodeTopology) (ttl now : ℕ) (endpoints : List FabricEndpoint)
    : Type 0 where
  pub named : All IsNamed endpoints
  pub linked : All (λ item. All (IsLinked endpoints item) item.links) endpoints
  pub fresh : All (λ node. is_stale ttl now node ≡ false) nodes
  pub few : length nodes ≤ max_nodes

module _ (digest : List FabricEndpoint → String) (nodes : List NodeTopology) (ttl now : ℕ) where
  -- Whatever the nodes report, the published endpoints have distinct ids, and are at most 2048.
  pub build_fabric-Unique :
      Unique id_of (build_fabric digest nodes ttl now).endpoints
      × (length (build_fabric digest nodes ttl now).endpoints ≤ max_endpoints)
  unfolding build_fabric
  build_fabric-Unique =
      let c = collect-IsCollected nodes ttl now in
      let es = (collect nodes ttl now).endpoints in
      (
        sort-Unique by_endpoint_id id_of es c.unique,
        subst (λ n. n ≤ max_endpoints) (sym (length-sort by_endpoint_id es)) c.bounded,
      )

  -- A fabric that is reported valid comes from at most 256 nodes with fresh observations; each
  -- endpoint has an id, a fabric and a ring, and each of its up links with a remote id leads to an
  -- endpoint of the same fabric and ring that links back.
  pub build_fabric-IsFabric :
      (build_fabric digest nodes ttl now).valid ≡ true
      → IsFabric nodes ttl now (build_fabric digest nodes ttl now).endpoints
  unfolding build_fabric
  build_fabric-IsFabric valid =
      let f = collect nodes ttl now in
      let endpoints = sort by_endpoint_id f.endpoints in
      let (clean, linked) =
        check_endpoints-errors endpoints endpoints f.errors (nil_of_length _ valid) in
      let (named, fresh, few, _) = (collect-IsCollected nodes ttl now).clean clean in
      record {
        named = sort-All by_endpoint_id IsNamed f.endpoints named;
        linked = linked;
        fresh = fresh;
        few = few;
      }
