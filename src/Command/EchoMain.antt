-- ===== src/Command/EchoMain.antt =====
-- cmd/echo/main.go: the service that a worker starts beside each database.
use infraforge.Base.{ℕ, Text, txt, [], ◌∷◌}
use infraforge.Base.Dict.{Dict}
use infraforge.Command.{Os, env_or}

-- A request with the header's host.
pub data Request : Type 0 where
  get_health : Request
  get_whoami : Text → Request

-- The status, and the object that the body encodes.
pub record Response : Type 0 where
  pub code : ℕ
  pub body : Dict Text

-- `addr` of `main`
unfoldable pub addr : Os → Text
unfolding env_or txt
addr os = env_or os (txt "ECHO_ADDR") (txt ":8080")

unfoldable pub serve : Os → Request → Response
unfolding env_or txt
serve os get_health = record { code = 200; body = (txt "status", txt "ok") ∷ [] }
serve os (get_whoami host) = record {
  code = 200;
  body =
      (txt "service", env_or os (txt "SERVICE_NAME") (txt "unknown"))
      ∷ (txt "job", env_or os (txt "JOB_ID") (txt "unknown"))
      ∷ (txt "host", host)
      ∷ [];
}
