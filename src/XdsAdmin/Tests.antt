-- ===== src/XdsAdmin/Tests.antt =====
-- cmd/xds: a client that registers an endpoint.
use infraforge.Base.{ℕ, Text, txt, pos, Option, none, some}
use infraforge.Xds.Envoy.{Snapshot, SnapshotCache}
use infraforge.Xds.Registry
use infraforge.Xds.Registry.{new_registry}
use infraforge.XdsClient.Http.{register, unregister}
use infraforge.XdsAdmin.{AdminBody}
use infraforge.XdsAdmin.Client.{AsOwn, acceptable, network, http_client_served}

abbrev cache : SnapshotCache (Option Snapshot)
cache = record { consistent = λ snap. none; set_snapshot = λ node snap c. (none, some snap) }

abbrev render : AdminBody → Text
render b = txt "{}"

abbrev status_text : ℕ → Text
status_text n = txt "status"

http_client_served_example :
    AsOwn cache 1 render status_text
      (acceptable (txt "shop") (txt "10.0.0.1") (pos 8001))
      (new_registry, none)
      (Registry.register cache 1
        (txt "shop")
        (record { host = txt "10.0.0.1"; port = pos 8001 })
        (new_registry, none))
      (register
        (network cache 1 render status_text)
        (txt "xds:9000")
        (txt "shop")
        (txt "10.0.0.1")
        (pos 8001)
        (new_registry, none))
    × AsOwn cache 1 render status_text
        (acceptable (txt "shop") (txt "10.0.0.1") (pos 8001))
        (new_registry, none)
        (Registry.unregister cache 1
          (txt "shop")
          (record { host = txt "10.0.0.1"; port = pos 8001 })
          (new_registry, none))
        (unregister
          (network cache 1 render status_text)
          (txt "xds:9000")
          (txt "shop")
          (txt "10.0.0.1")
          (pos 8001)
          (new_registry, none))
http_client_served_example =
    http_client_served cache 1 render status_text (txt "xds:9000") (txt "shop") (txt "10.0.0.1")
      (pos 8001) (new_registry, none)
