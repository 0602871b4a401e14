-- ===== src/XdsClient/Http.antt =====
-- internal/xdsclient/client.go: the client that talks to the control plane's admin server.
use Prim.Native.Nat.{zero, suc}
use infraforge.Base.{
  ℕ, Text, txt, [], ◌∷◌, ◌++◌, ℤ, Option, none, some, GoError, Result, ok, err, new_error,
  if◌then◌else◌, ltb, length,
}
use infraforge.XdsClient.{Client}

-- `endpointBody`
pub record EndpointBody : Type 0 where
  pub service : Text
  pub host : Text
  pub port : ℤ

-- The body is the list of its bytes.
pub record Reply : Type 0 where
  pub code : ℕ
  pub status : Text
  pub body : Text

-- An HTTP POST of such a body as JSON, to an address and a path.
pub record Transport (W : Type 0) : Type 0 where
  pub post : Text → Text → EndpointBody → W → Result Reply × W

abbrev pub first_chars : ℕ → Text → Text
first_chars n [] = []
first_chars n (c ∷ s) = elim n [ zero ↦ [] | suc m ↦ c ∷ first_chars m s ]

unfoldable pub bytes_to_string : Text → Text
bytes_to_string b = if ltb 200 (length b) then first_chars 200 b else b

abbrev pub base_of : Text → Text
base_of addr = txt "http://" ++ addr

-- What a reply means: any status from 400 on is an error.
unfoldable pub reply_error : Text → Reply → Option GoError
unfolding bytes_to_string txt
reply_error path r =
    if ltb r.code 400
    then none
    else some (
        new_error (
          txt "xds "
          ++ (path ++ (txt " -> " ++ (r.status ++ (txt ": " ++ bytes_to_string r.body))))))

module _ {W : Type 0} (http : Transport W) (addr : Text) where
  unfoldable pub post : Text → EndpointBody → W → Option GoError × W
  unfolding reply_error
  post path b w =
      let (answer, w) = http.post (base_of addr) path b w in
      elim answer [ err e ↦ (some e, w) | ok r ↦ (reply_error path r, w) ]

  unfoldable pub register : Text → Text → ℤ → W → Option GoError × W
  unfolding post txt
  register service host port w =
      post (txt "/v1/register") (record { service = service; host = host; port = port }) w

  unfoldable pub unregister : Text → Text → ℤ → W → Option GoError × W
  unfolding post txt
  unregister service host port w =
      post (txt "/v1/unregister") (record { service = service; host = host; port = port }) w

  abbrev pub http_client : Client W
  http_client = record { register = register; unregister = unregister }
