-- ===== src/Provisioner/Shell.antt =====
-- internal/provisioner/docker.go: `Shell`. The rounds that a readiness loop may take are an
-- argument.
use infraforge.Base.{
  ℕ, Text, txt, [], ◌∷◌, ◌++◌, Option, none, some, GoError, Result, ok, err, wrap, if◌then◌else◌,
  trim_space, fields, length, ◌==◌,
}
use infraforge.Model.{Job, ConnectionInfo, HttpEndpoint}
use infraforge.Provisioner.{Resources}
use infraforge.Provisioner.Classify.{classify}
use infraforge.Provisioner.Naming.{postgres_name, http_name, Creds, new_creds}
use infraforge.Provisioner.Inspect.{Inspect, host_port_of, connection_from_inspect}
pub use infraforge.Provisioner.Arguments.{Images}
unfoldable pub use infraforge.Provisioner.Arguments.{
  new_shell, postgres_args, http_args, run_http_error,
}
use infraforge.Provisioner.Docker.{
  Docker, Outcome, returned, failed, panicked, out_of_rounds, docker_inspect, docker_start,
  wait_for_postgres, wait_for_http,
}

abbrev pub no_context : GoError → GoError
no_context e = e

-- What follows a readiness loop: the value, or its error with some context.
abbrev pub after_wait : {A : Type 0} → A → (GoError → GoError) → Outcome Unit → Outcome A
after_wait a context (returned _) = returned a
after_wait a context (failed e) = failed (context e)
after_wait a context panicked = panicked
after_wait a context out_of_rounds = out_of_rounds

module _ {W : Type 0} (d : Docker W) (images : Images) (rounds : ℕ) where
  -- The inspection of a container once it runs; `none` for the pointer that is `nil` if it has gone.
  unfoldable pub started : Text → Inspect → W → Result (Option Inspect) × W
  unfolding docker_start docker_inspect
  started name inf w =
      if inf.running
      then (ok (some inf), w)
      else let (failure, w) = docker_start d name w in
        elim failure [ some e ↦ (err e, w) | none ↦ docker_inspect d name w ]

  -- From the inspection on. A `nil` pointer is read.
  unfoldable pub ready_postgres : Text → Option Inspect → W → Outcome ConnectionInfo × W
  unfolding connection_from_inspect wait_for_postgres
  ready_postgres name none w = (panicked, w)
  ready_postgres name (some inf) w = elim (connection_from_inspect d.invalid_port inf) [
    | err e ↦ (failed e, w)
    | ok conn ↦
        let (o, w) = wait_for_postgres d rounds name conn.username conn.database 30000000000 w in
        (after_wait conn no_context o, w)
  ]

  unfoldable pub reuse_postgres : Text → Inspect → W → Outcome ConnectionInfo × W
  unfolding started ready_postgres
  reuse_postgres name inf w =
      let (again, w) = started name inf w in
      elim again [ err e ↦ (failed e, w) | ok inf' ↦ ready_postgres name inf' w ]

  -- The credentials that were just set are trusted.
  unfoldable pub ready_new_postgres : Text → Creds → Option Inspect → W → Outcome ConnectionInfo × W
  unfolding connection_from_inspect wait_for_postgres txt
  ready_new_postgres name creds none w = (panicked, w)
  ready_new_postgres name creds (some inf) w = elim (connection_from_inspect d.invalid_port inf) [
    | err e ↦ (failed e, w)
    | ok conn ↦
        let conn' = record conn {
          username = creds.user;
          password = creds.pass;
          database = creds.db;
        } in
        let (o, w) = wait_for_postgres d rounds name creds.user creds.db 30000000000 w in
        (after_wait conn' (λ e. wrap (txt "postgres not ready: ") e []) o, w)
  ]

  unfoldable pub create_postgres : Text → Job → W → Outcome ConnectionInfo × W
  unfolding new_creds postgres_args ready_new_postgres docker_inspect txt
  create_postgres name j w =
      let (creds, w) = new_creds d.random j w in
      let (r, w) = d.combined_output (postgres_args images name creds j) w in
      elim r.failure [
        | some f ↦ (
          failed (wrap (txt "docker run postgres: ") f.error (txt ": " ++ trim_space r.output)),
          w,
        )
        | none ↦
            let (found, w) = docker_inspect d name w in
            elim found [ err e ↦ (failed e, w) | ok inf ↦ ready_new_postgres name creds inf w ]
      ]

  unfoldable pub provision_postgres : Job → W → Outcome ConnectionInfo × W
  unfolding postgres_name docker_inspect reuse_postgres create_postgres
  provision_postgres j w =
      let name = postgres_name j in
      let (found, w) = docker_inspect d name w in
      elim found [
        | err e ↦ (failed e, w)
        | ok o ↦ elim o [ some inf ↦ reuse_postgres name inf w | none ↦ create_postgres name j w ]
      ]

  unfoldable pub ready_http : (GoError → GoError) → Option Inspect → W → Outcome HttpEndpoint × W
  unfolding host_port_of wait_for_http txt
  ready_http context none w = (panicked, w)
  ready_http context (some inf) w = elim (host_port_of d.invalid_port inf (txt "8080/tcp")) [
    | err e ↦ (failed e, w)
    | ok at ↦
        let (o, w) = wait_for_http d rounds at.host at.port (txt "/health") 15000000000 w in
        (after_wait at context o, w)
  ]

  unfoldable pub reuse_http : Text → Inspect → W → Outcome HttpEndpoint × W
  unfolding started ready_http
  reuse_http name inf w =
      let (again, w) = started name inf w in
      elim again [ err e ↦ (failed e, w) | ok inf' ↦ ready_http no_context inf' w ]

  unfoldable pub create_http : Text → Job → W → Outcome HttpEndpoint × W
  unfolding http_args run_http_error ready_http docker_inspect txt
  create_http name j w =
      let (r, w) = d.combined_output (http_args images name j) w in
      elim r.failure [
        | some f ↦ (failed (run_http_error images r.output f.error), w)
        | none ↦
            let (found, w) = docker_inspect d name w in
            elim found [
              | err e ↦ (failed e, w)
              | ok inf ↦ ready_http (λ e. wrap (txt "echo not ready: ") e []) inf w
            ]
      ]

  unfoldable pub provision_http : Job → W → Outcome HttpEndpoint × W
  unfolding http_name docker_inspect reuse_http create_http
  provision_http j w =
      let name = http_name j in
      let (found, w) = docker_inspect d name w in
      elim found [
        | err e ↦ (failed e, w)
        | ok o ↦ elim o [ some inf ↦ reuse_http name inf w | none ↦ create_http name j w ]
      ]

  -- `Classify` of an error with its context
  abbrev pub classified : Text → GoError → GoError
  classified context e = elim (classify (some (wrap context e []))) [ some e' ↦ e' | none ↦ e ]

  unfoldable pub provision : Job → W → Outcome Resources × W
  unfolding provision_postgres provision_http txt classify
  provision j w =
      let (pg, w) = provision_postgres j w in
      elim pg [
        | failed e ↦ (failed (classified (txt "postgres: ") e), w)
        | panicked ↦ (panicked, w)
        | out_of_rounds ↦ (out_of_rounds, w)
        | returned conn ↦
            let (h, w) = provision_http j w in
            elim h [
              | failed e ↦ (failed (classified (txt "http: ") e), w)
              | panicked ↦ (panicked, w)
              | out_of_rounds ↦ (out_of_rounds, w)
              | returned at ↦ (returned (record { connection = conn; http = at }), w)
            ]
      ]

  unfoldable pub deprovision : Job → W → Option GoError × W
  unfolding txt fields
  deprovision j w =
      let (r, w) =
        d.output (txt "ps" ∷ txt "-aq" ∷ txt "-f" ∷ (txt "label=infraforge.job=" ++ j.id) ∷ []) w in
      elim r.failure [
        | some f ↦ (some (wrap (txt "docker ps: ") f.error []), w)
        | none ↦
            let ids = fields r.output in
            if length ids == 0
            then (none, w)
            else let (r', w) = d.combined_output (txt "rm" ∷ txt "-f" ∷ ids) w in
              elim r'.failure [
                | none ↦ (none, w)
                | some f ↦ (
                  some (wrap (txt "docker rm -f: ") f.error (txt ": " ++ trim_space r'.output)),
                  w,
                )
              ]
      ]
