-- ===== src/Provisioner/Arguments.antt =====
-- internal/provisioner/docker.go: the arguments of the two `docker run` commands, and the error of
-- the second.
use infraforge.Base.{
  Text, txt, List, [], ◌∷◌, ◌++◌, GoError, wrap, if◌then◌else◌, ◌||◌, to_lower, has_substring,
  trim_space,
}
use infraforge.Model.{Job}
use infraforge.Provisioner.Naming.{Creds}

pub record Images : Type 0 where
  pub postgres : Text
  pub echo : Text

-- The images of `NewShell`.
unfoldable pub new_shell : Images
unfolding txt
new_shell = record { postgres = txt "postgres:16-alpine"; echo = txt "infraforge/echo:dev" }

-- The arguments of `docker run` for the database.
unfoldable pub postgres_args : Images → Text → Creds → Job → List Text
unfolding txt
postgres_args images name creds j =
    txt "run"
    ∷ txt "-d"
    ∷ txt "--name"
    ∷ name
    ∷ txt "-p"
    ∷ txt "127.0.0.1::5432"
    ∷ txt "-e"
    ∷ (txt "POSTGRES_USER=" ++ creds.user)
    ∷ txt "-e"
    ∷ (txt "POSTGRES_PASSWORD=" ++ creds.pass)
    ∷ txt "-e"
    ∷ (txt "POSTGRES_DB=" ++ creds.db)
    ∷ txt "--label"
    ∷ txt "infraforge=true"
    ∷ txt "--label"
    ∷ (txt "infraforge.job=" ++ j.id)
    ∷ txt "--label"
    ∷ (txt "infraforge.service=" ++ j.service_name)
    ∷ txt "--label"
    ∷ txt "infraforge.kind=postgres"
    ∷ txt "--restart"
    ∷ txt "unless-stopped"
    ∷ images.postgres
    ∷ []

unfoldable pub http_args : Images → Text → Job → List Text
unfolding txt
http_args images name j =
    txt "run"
    ∷ txt "-d"
    ∷ txt "--name"
    ∷ name
    ∷ txt "-p"
    ∷ txt "127.0.0.1::8080"
    ∷ txt "-e"
    ∷ (txt "SERVICE_NAME=" ++ j.service_name)
    ∷ txt "-e"
    ∷ (txt "JOB_ID=" ++ j.id)
    ∷ txt "--label"
    ∷ txt "infraforge=true"
    ∷ txt "--label"
    ∷ (txt "infraforge.job=" ++ j.id)
    ∷ txt "--label"
    ∷ (txt "infraforge.service=" ++ j.service_name)
    ∷ txt "--label"
    ∷ txt "infraforge.kind=http"
    ∷ txt "--restart"
    ∷ txt "unless-stopped"
    ∷ images.echo
    ∷ []

-- The error of a failed `docker run` for the HTTP service.
unfoldable pub run_http_error : Images → Text → GoError → GoError
unfolding to_lower has_substring txt
run_http_error images out e =
    let s = to_lower out in
    if has_substring s (txt "no such image")
      || (has_substring s (txt "pull access denied") || has_substring s (txt "manifest unknown"))
    then wrap
        (txt "image "
          ++ (images.echo ++ txt " not present locally; build it once with `make build-echo`: "))
        e []
    else wrap (txt "docker run echo: ") e (txt ": " ++ trim_space out)
