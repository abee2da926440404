-- ===== src/Tests/Topology.antt =====
-- internal/topology/topology.go on a ring of two nodes.
use tenstorrent_dra_framewor.Base.{
  ◌≤◌, ◌≡◌, refl, String, true, List, [], ◌∷◌, length, string_eq, nat_eq,
}
use tenstorrent_dra_framewor.Base.Distinct.{Unique}
use tenstorrent_dra_framewor.Api.{NodeTopology, FabricEndpoint}
use tenstorrent_dra_framewor.Topology.{build_fabric, max_endpoints}
use tenstorrent_dra_framewor.Topology.Endpoints.{id_of}
use tenstorrent_dra_framewor.Topology.Valid.{IsFabric, build_fabric-Unique, build_fabric-IsFabric}

abbrev digest : List FabricEndpoint → String
digest endpoints = "digest"

abbrev node : String → String → String → NodeTopology
node name id peer = record {
  node_name = name;
  observed_at = 90;
  devices =
      record {
        pool = name;
        name = "d";
        stable_id = name;
        chip_series = "wormhole";
        fabric_id = "f";
        ring_id = "r";
        endpoint_id = id;
        links =
            record { name = "l"; state = "up"; speed_gbps = 100; remote_endpoint_id = peer } ∷ [];
      }
      ∷ [];
}

abbrev nodes : List NodeTopology
nodes = node "n1" "e1" "e2" ∷ node "n2" "e2" "e1" ∷ []

build_fabric-Unique_example :
    Unique id_of (build_fabric digest nodes 60 100).endpoints
    × (length (build_fabric digest nodes 60 100).endpoints ≤ max_endpoints)
build_fabric-Unique_example = build_fabric-Unique digest nodes 60 100

nodes_valid : (build_fabric digest nodes 60 100).valid ≡ true
unfolding build_fabric string_eq nat_eq
nodes_valid = refl

build_fabric-IsFabric_example : IsFabric nodes 60 100 (build_fabric digest nodes 60 100).endpoints
build_fabric-IsFabric_example = build_fabric-IsFabric digest nodes 60 100 nodes_valid
