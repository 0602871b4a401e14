-- ===== src/Xds/Envoy.antt =====
-- internal/xds/registry.go: the Envoy resources that `buildLocked` makes, with the fields that it
-- sets, and the functions that make them. A duration is its number of nanoseconds.
use infraforge.Base.{
  ℕ, ◌%◌, ◌^◌, ◌-◌, Text, txt, List, [], ◌∷◌, ◌++◌, ℤ, pos, negsuc, Option, GoError,
}

-- `uint32(n)` of an int
unfoldable pub uint32 : ℤ → ℕ
uint32 (pos n) = n % 2 ^ 32
uint32 (negsuc n) = (2 ^ 32 - 1) - n % 2 ^ 32

pub data DiscoveryType : Type 0 where
  static : DiscoveryType

pub data LbPolicy : Type 0 where
  round_robin : LbPolicy

pub record SocketAddress : Type 0 where
  pub address : Text
  pub port_value : ℕ

pub record LbEndpoint : Type 0 where
  pub socket_address : SocketAddress

pub record LocalityLbEndpoints : Type 0 where
  pub lb_endpoints : List LbEndpoint

pub record ClusterLoadAssignment : Type 0 where
  pub cluster_name : Text
  pub endpoints : List LocalityLbEndpoints

pub record Cluster : Type 0 where
  pub name : Text
  pub connect_timeout : ℕ
  pub discovery_type : DiscoveryType
  pub lb_policy : LbPolicy
  pub load_assignment : ClusterLoadAssignment

pub record Route : Type 0 where
  pub prefix : Text
  pub cluster : Text
  pub prefix_rewrite : Text

pub record VirtualHost : Type 0 where
  pub name : Text
  pub domains : List Text
  pub routes : List Route

pub record RouteConfiguration : Type 0 where
  pub name : Text
  pub virtual_hosts : List VirtualHost

pub data ApiVersion : Type 0 where
  v3 : ApiVersion

pub data ConfigSource : Type 0 where
  ads : ApiVersion → ConfigSource

-- The HTTP connection manager, the one filter of the listener: the name of the route
-- configuration that it pulls, from where, and the names of its HTTP filters.
pub data CodecType : Type 0 where
  auto : CodecType

pub record HttpConnectionManager : Type 0 where
  pub codec_type : CodecType
  pub stat_prefix : Text
  pub config_source : ConfigSource
  pub route_config_name : Text
  pub http_filters : List Text

pub record Filter : Type 0 where
  pub name : Text
  pub typed_config : HttpConnectionManager

pub record Listener : Type 0 where
  pub name : Text
  pub address : SocketAddress
  pub filter_chains : List (List Filter)

-- What `NewSnapshot` is given: a version, and the resources of each type.
pub record Snapshot : Type 0 where
  pub version : Text
  pub listeners : List Listener
  pub route_configs : List RouteConfiguration
  pub clusters : List Cluster

-- The snapshot cache of go-control-plane: `Consistent` and `SetSnapshot`, over its state `C`.
pub record SnapshotCache (C : Type 0) : Type 0 where
  pub consistent : Snapshot → Option GoError
  pub set_snapshot : Text → Snapshot → C → Option GoError × C

unfoldable pub node_id : Text
unfolding txt
node_id = txt "infraforge-edge"

unfoldable pub listener_name : Text
unfolding txt
listener_name = txt "infraforge_ingress"

unfoldable pub route_cfg_name : Text
unfolding txt
route_cfg_name = txt "infraforge_routes"

abbrev pub listener_port : ℕ
listener_port = 10000

unfoldable pub make_cluster : Text → List LbEndpoint → Cluster
make_cluster name lb_endpoints = record {
  name = name;
  connect_timeout = 1000000000;
  discovery_type = static;
  lb_policy = round_robin;
  load_assignment = record {
    cluster_name = name;
    endpoints = record { lb_endpoints = lb_endpoints } ∷ [];
  };
}

unfoldable pub make_lb_endpoint : Text → ℕ → LbEndpoint
make_lb_endpoint host port = record {
  socket_address = record { address = host; port_value = port };
}

unfoldable pub make_prefix_route : Text → Route
unfolding txt
make_prefix_route service = record {
  prefix = txt "/" ++ (service ++ txt "/");
  cluster = service;
  prefix_rewrite = txt "/";
}

unfoldable pub make_ads_config_source : ConfigSource
make_ads_config_source = ads v3

-- `anypb.New` wraps a message, and fails on none that is well formed.
unfoldable pub make_listener : Listener
unfolding txt listener_name route_cfg_name make_ads_config_source
make_listener = record {
  name = listener_name;
  address = record { address = txt "0.0.0.0"; port_value = listener_port };
  filter_chains =
      (record {
        name = txt "envoy.filters.network.http_connection_manager";
        typed_config = record {
          codec_type = auto;
          stat_prefix = txt "ingress_http";
          config_source = make_ads_config_source;
          route_config_name = route_cfg_name;
          http_filters = txt "envoy.filters.http.router" ∷ [];
        };
      }
        ∷ [])
      ∷ [];
}
