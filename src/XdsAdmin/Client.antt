-- ===== src/XdsAdmin/Client.antt =====
-- cmd/xds/main.go and internal/xdsclient/client.go: the HTTP client and the admin server together.
use infraforge.Base.{
  ℕ, Bool, true, ◌&&◌, not, ◌≡◌, ◌↔◌, Text, txt, [], ℤ, Option, none, some, GoError, Result, ok,
  if◌then◌else◌, text_eq, arith,
}
use infraforge.Xds.Envoy.{SnapshotCache}
use infraforge.Xds.Registry.{Endpoint, Registry, Plane}
use infraforge.Xds.Registry
use infraforge.XdsClient.Http.{EndpointBody, Reply, Transport, register, unregister}
use infraforge.XdsAdmin.{
  EndpointReq, AdminBody, AdminResponse, post_register, post_unregister, routes, port_out_of_range,
}

-- What the server takes: a service, a host and a port from 1 to 65535.
abbrev pub acceptable : Text → Text → ℤ → Bool
acceptable service host port =
    not (text_eq service []) && (not (text_eq host []) && not (port_out_of_range port))

module _ {C : Type 0} (cache : SnapshotCache C) (unix : ℕ) (render : AdminBody → Text)
    (status_text : ℕ → Text) where
  abbrev pub reply_of : AdminResponse → Reply
  reply_of r = record { code = r.code; status = status_text r.code; body = render r.body }

  abbrev pub req_of : EndpointBody → EndpointReq
  req_of b = record { service = b.service; host = b.host; port = b.port }

  abbrev pub replied : AdminResponse × (Registry × C) → Result Reply × (Registry × C)
  replied (r, p) = (ok (reply_of r), p)

  -- The request that a path stands for; any other path is not found.
  unfoldable pub served : Text → EndpointBody → Registry × C → Result Reply × (Registry × C)
  unfolding routes txt
  served path b p =
      if text_eq path (txt "/v1/register")
      then replied (routes cache unix (post_register (some (req_of b))) p)
      else (if text_eq path (txt "/v1/unregister")
          then replied (routes cache unix (post_unregister (some (req_of b))) p)
          else (ok (record { code = 404; status = status_text 404; body = [] }), p))

  -- A network that brings every request to the server and every reply back.
  abbrev pub network : Transport (Registry × C)
  network = record { post = λ base path b p. served path b p }

  -- The client's call, from `p` to `q`, is the registry's own call if the server takes it, and does
  -- nothing otherwise; no error stands for a call that was taken and reported none.
  abbrev pub AsOwn :
      Bool
      → Registry × C
      → Option GoError × (Registry × C)
      → Option GoError × (Registry × C)
      → Type 0
  AsOwn taken p own q =
      (q.1 ≡ (if taken then own.1 else p)) × ((q.0 ≡ none) ↔ ((taken ≡ true) × (own.0 ≡ none)))

  register_served :
      (addr service host : Text) (port : ℤ) (p : Registry × C)
      → AsOwn
          (acceptable service host port)
          p
          (Registry.register cache unix service (record { host = host; port = port }) p)
          (register network addr service host port p)
  unfolding register served text_eq
  register_served addr service host port p = ground arith

  unregister_served :
      (addr service host : Text) (port : ℤ) (p : Registry × C)
      → AsOwn
          (acceptable service host port)
          p
          (Registry.unregister cache unix service (record { host = host; port = port }) p)
          (unregister network addr service host port p)
  unfolding unregister served text_eq
  unregister_served addr service host port p = ground arith

  -- Over a network that works, `Register` and `Unregister` of the HTTP client do to the control plane
  -- what the registry's methods do, if the service and the host are not empty and the port is from 1
  -- to 65535, and nothing otherwise; they report no error exactly if the endpoint was taken and the
  -- registry reported none.
  pub http_client_served :
      (addr service host : Text) (port : ℤ) (p : Registry × C)
      → let e : Endpoint = record { host = host; port = port } in
        let taken = acceptable service host port in
        AsOwn taken p
          (Registry.register cache unix service e p)
          (register network addr service host port p)
        × AsOwn taken p
            (Registry.unregister cache unix service e p)
            (unregister network addr service host port p)
  http_client_served addr service host port p =
      (register_served addr service host port p, unregister_served addr service host port p)
