-- ===== src/Provisioner/Inspect.antt =====
-- internal/provisioner/docker.go: what is read from a container that `docker inspect` describes.
use infraforge.Base.{
  Bool, ◌||◌, Text, txt, List, [], ◌∷◌, ◌++◌, Option, none, some, GoError, Result, ok, err,
  new_error, if◌then◌else◌, text_eq, atoi, has_prefix, drop_prefix,
}
use infraforge.Base.Dict
use infraforge.Base.Dict.{Dict}
use infraforge.Model.{ConnectionInfo, HttpEndpoint}

pub record Binding : Type 0 where
  pub host_ip : Text
  pub host_port : Text

pub record Inspect : Type 0 where
  pub running : Bool
  pub env : List Text
  pub ports : Dict (List Binding)

-- The text of an error has what `%q` prints in it, and what `strconv.Atoi` says.
abbrev pub AtoiError : Type 0
AtoiError = Text → GoError

abbrev pub no_mapping : Text → GoError
no_mapping p = new_error (txt "no host port mapping for " ++ p)

-- A container that listens everywhere is reached locally.
abbrev pub local : Text → Text
local host = if text_eq host [] || text_eq host (txt "0.0.0.0") then txt "127.0.0.1" else host

module _ (invalid_port : AtoiError) where
  abbrev pub port_of : Text → Text → Result HttpEndpoint
  port_of host port = elim (atoi port) [
    | none ↦ err (invalid_port port)
    | some n ↦ ok (record { host = local host; port = n })
  ]

  abbrev pub first_binding : Text → Option (List Binding) → Result HttpEndpoint
  first_binding internal_port none = err (no_mapping internal_port)
  first_binding internal_port (some []) = err (no_mapping internal_port)
  first_binding internal_port (some (b ∷ bs)) = port_of b.host_ip b.host_port

  -- The host and the port that `hostPortOf` returns, as an endpoint.
  unfoldable pub host_port_of : Inspect → Text → Result HttpEndpoint
  unfolding txt
  host_port_of inf internal_port = first_binding internal_port (Dict.lookup internal_port inf.ports)

-- The credentials that the environment names; the last entry of a kind counts.
pub record EnvCreds : Type 0 where
  pub user : Text
  pub pass : Text
  pub db : Text

unfoldable pub user_key : Text
unfolding txt
user_key = txt "POSTGRES_USER="

unfoldable pub password_key : Text
unfolding txt
password_key = txt "POSTGRES_PASSWORD="

unfoldable pub db_key : Text
unfolding txt
db_key = txt "POSTGRES_DB="

-- The `switch` on one entry.
abbrev pub read_entry : Text → EnvCreds → EnvCreds
read_entry e c =
    if has_prefix e user_key
    then record c { user = drop_prefix e user_key }
    else (if has_prefix e password_key
        then record c { pass = drop_prefix e password_key }
        else (if has_prefix e db_key then record c { db = drop_prefix e db_key } else c))

unfoldable pub read_env : List Text → EnvCreds → EnvCreds
read_env [] c = c
read_env (e ∷ es) c = read_env es (read_entry e c)

unfoldable pub connection_from_inspect : AtoiError → Inspect → Result ConnectionInfo
unfolding read_env host_port_of txt
connection_from_inspect invalid_port inf = elim (host_port_of invalid_port inf (txt "5432/tcp")) [
  | err e ↦ err e
  | ok at ↦
      let c = read_env inf.env (record { user = []; pass = []; db = [] }) in
      ok (record {
        host = at.host;
        port = at.port;
        username = c.user;
        password = c.pass;
        database = c.db;
      })
]
