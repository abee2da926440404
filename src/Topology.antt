-- ===== src/Topology.antt =====
-- internal/topology/topology.go: `BuildFabric` and `WorkloadGeneration`. The digest of the endpoints
-- (their JSON under SHA-256, its first eight bytes in hexadecimal) is an argument.
pub mod Endpoints
pub mod Valid
use tenstorrent_dra_framewor.Base.{
  ℕ, suc, ◌+◌, String, ◌<>◌, Bool, true, false, not, ◌&&◌, ◌||◌, List, [], ◌∷◌, ◌++◌, none, some,
  ◌==◌, contains, string_eq, nat_eq, if◌then◌else◌, length, take, any, ltb, text_lt, keep,
}
use tenstorrent_dra_framewor.Base.Text.{show}
use tenstorrent_dra_framewor.Base.Dict.{Dict, lookup}
use tenstorrent_dra_framewor.Base.Sort.{sort}
use tenstorrent_dra_framewor.Api.{
  TopologyDevice, TopologyLink, NodeTopology, FabricEndpoint, FabricTopologyStatus, Condition,
  RankAssignment, WorkloadTopology,
}
use tenstorrent_dra_framewor.Placement.Connected.{index_by_id, selected_ids, add_key}

abbrev pub max_nodes : ℕ
max_nodes = 256

abbrev pub max_endpoints : ℕ
max_endpoints = 2048

abbrev pub max_fabrics : ℕ
max_fabrics = 256

-- The variables of `BuildFabric` while it walks the nodes.
pub record Fold : Type 0 where
  pub seen : List String
  pub fabrics : List String
  pub overflow : Bool
  pub endpoints : List FabricEndpoint
  pub errors : List String

-- `status.Errors = append(status.Errors, message)`
unfoldable pub report : String → List String → List String
report message errors = errors ++ (message ∷ [])

abbrev pub fail : String → Fold → Fold
fail message f = record f { errors = report message f.errors }

abbrev pub endpoint_of : String → TopologyDevice → FabricEndpoint
endpoint_of node item = record {
  node_name = node;
  pool = item.pool;
  device_name = item.name;
  stable_id = item.stable_id;
  chip_series = item.chip_series;
  fabric_id = item.fabric_id;
  ring_id = item.ring_id;
  endpoint_id = item.endpoint_id;
  links = item.links;
}

abbrev pub append_endpoint : String → TopologyDevice → Fold → Fold
append_endpoint node item f = record f {
  seen = item.endpoint_id ∷ f.seen;
  fabrics = add_key item.fabric_id f.fabrics;
  endpoints = f.endpoints ++ (endpoint_of node item ∷ []);
}

-- The check for a duplicate, the cap, and the append.
unfoldable pub admit_endpoint : String → TopologyDevice → Fold → Fold
admit_endpoint node item f =
    if contains f.seen item.endpoint_id
    then fail ("duplicate endpoint " <> item.endpoint_id) f
    else if length f.endpoints == max_endpoints
    then (if f.overflow
        then f
        else record (fail ("endpoint count exceeds maximum " <> show max_endpoints) f) {
          overflow = true;
        })
    else append_endpoint node item f

-- The body of the loop over the devices of a node.
unfoldable pub fold_device : String → TopologyDevice → Fold → Fold
unfolding admit_endpoint
fold_device node item f =
    if item.endpoint_id == ""
    then f
    else admit_endpoint node item (
        if item.fabric_id == "" || item.ring_id == ""
        then fail ("endpoint " <> (item.endpoint_id <> " has incomplete fabric identity")) f
        else f)

unfoldable pub fold_devices : String → List TopologyDevice → Fold → Fold
unfolding fold_device
fold_devices node [] f = f
fold_devices node (item ∷ items) f = fold_devices node items (fold_device node item f)

abbrev pub is_stale : ℕ → ℕ → NodeTopology → Bool
is_stale ttl now node = ltb 0 ttl && ltb (node.observed_at + ttl) now

unfoldable pub fold_nodes : ℕ → ℕ → List NodeTopology → Fold → Fold
unfolding fold_devices
fold_nodes ttl now [] f = f
fold_nodes ttl now (node ∷ nodes) f = fold_nodes ttl now nodes (
    if is_stale ttl now node
    then fail ("node " <> (node.node_name <> " topology is stale")) f
    else fold_devices node.node_name node.devices f)

-- The peer has an up link back.
abbrev pub is_reciprocal : FabricEndpoint → FabricEndpoint → Bool
is_reciprocal item peer =
    any (λ back. back.state == "up" && back.remote_endpoint_id == item.endpoint_id) peer.links

-- The body of the loop over the links of an endpoint.
unfoldable pub check_link :
    Dict String FabricEndpoint → FabricEndpoint → TopologyLink → List String → List String
unfolding lookup
check_link by_id item link errors =
    if not (link.state == "up") || link.remote_endpoint_id == ""
    then errors
    else elim (lookup link.remote_endpoint_id by_id) [
      | none ↦
          report
            ("endpoint "
              <> (item.endpoint_id <> (" references missing peer " <> link.remote_endpoint_id)))
            errors
      | some peer ↦
          if not (peer.fabric_id == item.fabric_id) || not (peer.ring_id == item.ring_id)
          then report ("endpoint " <> (item.endpoint_id <> " crosses fabric or ring")) errors
          else if is_reciprocal item peer
          then errors
          else report
              ("link "
                <> (item.endpoint_id <> (" to " <> (peer.endpoint_id <> " is not reciprocal"))))
              errors
    ]

module _ (by_id : Dict String FabricEndpoint) where
  unfoldable pub check_links : FabricEndpoint → List TopologyLink → List String → List String
  unfolding check_link
  check_links item [] errors = errors
  check_links item (link ∷ links) errors =
      check_links item links (check_link by_id item link errors)

  unfoldable pub check_endpoints : List FabricEndpoint → List String → List String
  unfolding check_links
  check_endpoints [] errors = errors
  check_endpoints (item ∷ items) errors = check_endpoints items (check_links item item.links errors)

abbrev pub too_many_nodes : List NodeTopology → Bool
too_many_nodes nodes = ltb max_nodes (length nodes)

-- The walk over the nodes, from the check of their number to the check of the number of fabrics.
unfoldable pub collect : List NodeTopology → ℕ → ℕ → Fold
unfolding fold_nodes
collect nodes ttl now =
    let empty : Fold = record {
      seen = [];
      fabrics = [];
      overflow = false;
      endpoints = [];
      errors = [];
    } in
    let first : Fold =
      if too_many_nodes nodes
      then fail ("node count " <> (show (length nodes) <> (" exceeds maximum " <> show max_nodes)))
          empty
      else empty in
    let f =
      fold_nodes ttl now (if too_many_nodes nodes then take max_nodes nodes else nodes) first in
    if ltb max_fabrics (length f.fabrics)
    then fail
        ("fabric count " <> (show (length f.fabrics) <> (" exceeds maximum " <> show max_fabrics)))
        f
    else f

abbrev pub by_endpoint_id : FabricEndpoint → FabricEndpoint → Bool
by_endpoint_id a b = text_lt a.endpoint_id b.endpoint_id

abbrev first_error : List String → String
first_error [] = ""
first_error (e ∷ _) = e

module _ (digest : List FabricEndpoint → String) where
  unfoldable pub build_fabric : List NodeTopology → ℕ → ℕ → FabricTopologyStatus
  unfolding collect sort check_endpoints index_by_id
  build_fabric nodes ttl now =
      let f = collect nodes ttl now in
      let endpoints = sort by_endpoint_id f.endpoints in
      let errors = check_endpoints (index_by_id endpoints []) endpoints f.errors in
      let valid = length errors == 0 in
      record {
        generation = digest endpoints;
        observed_at = now;
        valid = valid;
        endpoints = endpoints;
        errors = errors;
        conditions =
            record {
              kind = "Ready";
              status = valid;
              reason = if valid then "Valid" else "Invalid";
              message = if valid then "fabric graph is valid" else first_error errors;
              observed_generation = 0;
              last_transition_time = now;
            }
            ∷ [];
      }

  -- The fabric and ring that a workload's digest covers: the ones asked for, or else those of the
  -- first endpoint that is assigned.
  first_selected : List String → List FabricEndpoint → WorkloadTopology → WorkloadTopology
  first_selected selected [] wanted = wanted
  first_selected selected (e ∷ endpoints) wanted =
      let rest = first_selected selected endpoints wanted in
      if contains selected e.endpoint_id
      then record { fabric_id = e.fabric_id; ring_id = e.ring_id }
      else rest

  abbrev is_relevant : WorkloadTopology → FabricEndpoint → Bool
  is_relevant wanted e = not (
      (not (wanted.fabric_id == "") && not (e.fabric_id == wanted.fabric_id))
      || (not (wanted.ring_id == "") && not (e.ring_id == wanted.ring_id)))

  unfoldable pub workload_generation :
      FabricTopologyStatus → WorkloadTopology → List RankAssignment → String
  unfolding first_selected keep selected_ids
  workload_generation status requested assignments =
      let selected = selected_ids assignments [] in
      let wanted =
        if requested.fabric_id == "" && requested.ring_id == "" && ltb 0 (length selected)
        then first_selected selected status.endpoints requested
        else requested in
      digest (keep (is_relevant wanted) status.endpoints)
