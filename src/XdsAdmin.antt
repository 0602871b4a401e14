-- ===== src/XdsAdmin.antt =====
-- cmd/xds/main.go: the routes of the control plane's admin server. A request comes with its body
-- decoded from JSON (`none` if it does not decode); log lines are left out. The seconds of the clock
-- at a rebuild are an argument.
pub mod Client
mod Tests
use infraforge.Base.{
  ℕ, Bool, true, false, ◌||◌, not, Text, txt, List, [], ◌∷◌, ℤ, pos, Option, none, some, GoError,
  Result, ok, err, new_error, if◌then◌else◌, text_eq, ltb_ℤ,
}
use infraforge.Base.Dict.{Dict}
use infraforge.Xds.Envoy.{SnapshotCache}
use infraforge.Xds.Registry.{Endpoint, Registry}
use infraforge.Xds.Registry

-- `endpointReq`
pub record EndpointReq : Type 0 where
  pub service : Text
  pub host : Text
  pub port : ℤ

pub data AdminBody : Type 0 where
  status_body : Text → AdminBody
  error_body : Text → AdminBody
  routes_body : Dict (List Endpoint) → AdminBody

pub record AdminResponse : Type 0 where
  pub code : ℕ
  pub body : AdminBody

abbrev pub port_out_of_range : ℤ → Bool
port_out_of_range p = not (ltb_ℤ (pos 0) p) || ltb_ℤ (pos 65535) p

unfoldable pub decode : Option EndpointReq → Result EndpointReq
unfolding txt
decode none = err (new_error (txt "invalid JSON"))
decode (some req) =
    if text_eq req.service []
    then err (new_error (txt "service is required"))
    else (if text_eq req.host []
        then err (new_error (txt "host is required"))
        else (if port_out_of_range req.port
            then err (new_error (txt "port must be 1..65535"))
            else ok req))

abbrev pub endpoint_of : EndpointReq → Endpoint
endpoint_of req = record { host = req.host; port = req.port }

pub data AdminRequest : Type 0 where
  get_healthz : AdminRequest
  get_routes : AdminRequest
  post_register : Option EndpointReq → AdminRequest
  post_unregister : Option EndpointReq → AdminRequest

abbrev pub answer : Text → Text → Option GoError → AdminResponse
answer done failure none = record { code = 200; body = status_body done }
answer done failure (some e) = record { code = 500; body = error_body failure }

module _ {C : Type 0} (cache : SnapshotCache C) where
  unfoldable pub handle_register :
      ℕ → Option EndpointReq → Registry × C → AdminResponse × (Registry × C)
  unfolding decode Registry.register txt
  handle_register unix body p = elim (decode body) [
    | err e ↦ (record { code = 400; body = error_body e.message }, p)
    | ok req ↦
        let (failure, p) = Registry.register cache unix req.service (endpoint_of req) p in
        (answer (txt "registered") (txt "register failed") failure, p)
  ]

  unfoldable pub handle_unregister :
      ℕ → Option EndpointReq → Registry × C → AdminResponse × (Registry × C)
  unfolding decode Registry.unregister txt
  handle_unregister unix body p = elim (decode body) [
    | err e ↦ (record { code = 400; body = error_body e.message }, p)
    | ok req ↦
        let (failure, p) = Registry.unregister cache unix req.service (endpoint_of req) p in
        (answer (txt "unregistered") (txt "unregister failed") failure, p)
  ]

  unfoldable pub routes : ℕ → AdminRequest → Registry × C → AdminResponse × (Registry × C)
  unfolding handle_register handle_unregister Registry.list txt
  routes unix get_healthz p = (record { code = 200; body = status_body (txt "ok") }, p)
  routes unix get_routes p =
      (record { code = 200; body = routes_body (Registry.list p.0.services) }, p)
  routes unix (post_register body) p = handle_register unix body p
  routes unix (post_unregister body) p = handle_unregister unix body p
