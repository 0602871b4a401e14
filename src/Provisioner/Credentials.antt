-- ===== src/Provisioner/Credentials.antt =====
-- internal/provisioner/docker.go: the credentials that a database container was created with are
-- read back from its environment when it is reused.
use infraforge.Base.{
  ◌≡◌, refl, ap, ◌∙◌, false, Text, txt, List, [], ◌∷◌, ◌++◌, arith, All, ok, if◌then◌else◌, text_eq,
  has_prefix, drop_prefix, ◌||◌,
}
use infraforge.Model.{Job, HttpEndpoint}
use infraforge.Provisioner.Naming.{Creds, postgres_name}
use infraforge.Provisioner.Inspect.{
  Inspect, EnvCreds, AtoiError, user_key, password_key, db_key, read_env, host_port_of,
  connection_from_inspect,
}
use infraforge.Provisioner.Shell.{Images, postgres_args}

-- The arguments that follow a `-e`, which docker puts into the environment of the container.
abbrev pub env_of : List Text → List Text
env_of [] = []
env_of (a ∷ []) = []
env_of (a ∷ b ∷ args) =
    let rest = env_of (b ∷ args) in if text_eq a (txt "-e") then b ∷ rest else rest

-- Another variable than the three, such as the image sets.
abbrev pub IsForeign : Text → Type 0
IsForeign e = (has_prefix e user_key || (has_prefix e password_key || has_prefix e db_key)) ≡ false

env_of-postgres_args :
    (images : Images) (creds : Creds) (j : Job)
    → env_of (postgres_args images (postgres_name j) creds j)
      ≡ (user_key ++ creds.user) ∷ (password_key ++ creds.pass) ∷ (db_key ++ creds.db) ∷ []
unfolding postgres_args postgres_name txt text_eq user_key password_key db_key
env_of-postgres_args images creds j = refl

read_env_foreign : (es : List Text) (c : EnvCreds) → All IsForeign es → read_env es c ≡ c
unfolding read_env
read_env_foreign [] c h = refl
read_env_foreign (e ∷ es) c h = ground (arith, read_env_foreign es c h.1)

read_env_own :
    (user pass db : Text) (es : List Text) (c : EnvCreds)
    → read_env ((user_key ++ user) ∷ (password_key ++ pass) ∷ (db_key ++ db) ∷ es) c
      ≡ read_env es (record { user = user; pass = pass; db = db })
unfolding read_env has_prefix drop_prefix user_key password_key db_key txt
read_env_own user pass db es c = refl

-- A database container that `provisionPostgres` has created, and whose environment has the variables
-- of the command line before those of the image, is read back with the credentials that it was
-- created with, at the address that `hostPortOf` finds.
pub connection_from_inspect_created :
    (invalid_port : AtoiError) (images : Images) (creds : Creds) (j : Job) (inf : Inspect)
    (from_image : List Text) (at : HttpEndpoint)
    → inf.env ≡ env_of (postgres_args images (postgres_name j) creds j) ++ from_image
    → All IsForeign from_image
    → host_port_of invalid_port inf (txt "5432/tcp") ≡ ok at
    → connection_from_inspect invalid_port inf
      ≡ ok (record {
        host = at.host;
        port = at.port;
        username = creds.user;
        password = creds.pass;
        database = creds.db;
      })
unfolding connection_from_inspect
connection_from_inspect_created invalid_port images creds j inf from_image at env foreign found =
    let start : EnvCreds = record { user = []; pass = []; db = [] } in
    let same : read_env inf.env start
        ≡ record { user = creds.user; pass = creds.pass; db = creds.db } =
      ap (λ es. read_env es start)
        (env ∙ ap (λ es. es ++ from_image) (env_of-postgres_args images creds j))
      ∙ read_env_own creds.user creds.pass creds.db from_image start
      ∙ read_env_foreign from_image _ foreign in
    rw (found, connection_from_inspect) (rw same refl)
