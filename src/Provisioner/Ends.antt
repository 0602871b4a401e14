-- ===== src/Provisioner/Ends.antt =====
-- internal/provisioner/docker.go: `Provision` ends.
use infraforge.Base.{
  ℕ, suc, ◌*◌, ◌<◌, ◌≢◌, refl, Text, txt, Option, none, some, GoError, wrap, arith, Result-cases,
  inl, inr, [],
}
use infraforge.Model.{Job}
use infraforge.Provisioner.Naming.{Creds, new_creds, postgres_name, http_name}
use infraforge.Provisioner.Inspect.{Inspect, connection_from_inspect, host_port_of}
use infraforge.Provisioner.Docker.{
  Docker, Outcome, returned, failed, panicked, out_of_rounds, docker_inspect,
}
use infraforge.Provisioner.Shell.{
  Images, after_wait, no_context, started, ready_postgres, ready_new_postgres, ready_http,
  reuse_postgres, reuse_http, create_postgres, create_http, postgres_args, http_args,
  provision_postgres, provision_http, provision,
}
use infraforge.Provisioner.Wait.{IsClock, wait_for_postgres_ends, wait_for_http_ends}

after_wait_ends :
    {A : Type 0} (a : A) (context : GoError → GoError) (o : Outcome Unit)
    → o ≢ out_of_rounds
    → after_wait a context o ≢ out_of_rounds
after_wait_ends a context (returned _) h = λ e. cc
after_wait_ends a context (failed e) h = λ e. cc
after_wait_ends a context panicked h = λ e. cc
after_wait_ends a context out_of_rounds h = absurd (h refl)

module _ {W : Type 0} (d : Docker W) (clock : IsClock d) (images : Images) (r : ℕ)
    (enough : 30000000000 < r * 500000000) (enough' : 15000000000 < r * 200000000) where
  ready_postgres_ends :
      (name : Text) (o : Option Inspect) (w : W)
      → (ready_postgres d images (suc r) name o w).0 ≢ out_of_rounds
  unfolding ready_postgres
  ready_postgres_ends name none w = λ e. cc
  ready_postgres_ends name (some inf) w =
      elim (Result-cases (connection_from_inspect d.invalid_port inf)) [
        | inl (e, bad) ↦ rw (bad, ready_postgres) (λ e. cc)
        | inr (conn, good) ↦
            rw (good, ready_postgres)
              (after_wait_ends conn no_context _ (
                wait_for_postgres_ends d clock r name conn.username conn.database 30000000000 w
                  enough))
      ]

  ready_new_postgres_ends :
      (name : Text) (creds : Creds) (o : Option Inspect) (w : W)
      → (ready_new_postgres d images (suc r) name creds o w).0 ≢ out_of_rounds
  unfolding ready_new_postgres
  ready_new_postgres_ends name creds none w = λ e. cc
  ready_new_postgres_ends name creds (some inf) w =
      elim (Result-cases (connection_from_inspect d.invalid_port inf)) [
        | inl (e, bad) ↦ rw (bad, ready_new_postgres) (λ e. cc)
        | inr (conn, good) ↦
            rw (good, ready_new_postgres)
              (after_wait_ends _ _ _
                (wait_for_postgres_ends d clock r name creds.user creds.db 30000000000 w enough))
      ]

  ready_http_ends :
      (context : GoError → GoError) (o : Option Inspect) (w : W)
      → (ready_http d images (suc r) context o w).0 ≢ out_of_rounds
  unfolding ready_http
  ready_http_ends context none w = λ e. cc
  ready_http_ends context (some inf) w =
      elim (Result-cases (host_port_of d.invalid_port inf (txt "8080/tcp"))) [
        | inl (e, bad) ↦ rw (bad, ready_http) (λ e. cc)
        | inr (at, good) ↦
            rw (good, ready_http)
              (after_wait_ends at context _ (
                wait_for_http_ends d clock r at.host at.port (txt "/health") 15000000000 w enough'))
      ]

  reuse_postgres_ends :
      (name : Text) (inf : Inspect) (w : W)
      → (reuse_postgres d images (suc r) name inf w).0 ≢ out_of_rounds
  unfolding reuse_postgres
  reuse_postgres_ends name inf w = elim (Result-cases (started d images (suc r) name inf w).0) [
    | inl (e, bad) ↦ rw (bad, reuse_postgres) (λ e. cc)
    | inr (o, good) ↦ rw (good, reuse_postgres) (ready_postgres_ends name o _)
  ]

  reuse_http_ends :
      (name : Text) (inf : Inspect) (w : W)
      → (reuse_http d images (suc r) name inf w).0 ≢ out_of_rounds
  unfolding reuse_http
  reuse_http_ends name inf w = elim (Result-cases (started d images (suc r) name inf w).0) [
    | inl (e, bad) ↦ rw (bad, reuse_http) (λ e. cc)
    | inr (o, good) ↦ rw (good, reuse_http) (ready_http_ends no_context o _)
  ]

  create_postgres_ends :
      (name : Text) (j : Job) (w : W)
      → (create_postgres d images (suc r) name j w).0 ≢ out_of_rounds
  unfolding create_postgres
  create_postgres_ends name j w =
      let c = new_creds d.random j w in
      let w1 = (d.combined_output (postgres_args images name c.0 j) c.1).1 in
      elim (Result-cases (docker_inspect d name w1).0) [
        | inl (e, bad) ↦ ground (arith, bad)
        | inr (o, good) ↦
            ground (arith, good, ready_new_postgres_ends name c.0 o (docker_inspect d name w1).1)
      ]

  create_http_ends :
      (name : Text) (j : Job) (w : W) → (create_http d images (suc r) name j w).0 ≢ out_of_rounds
  unfolding create_http
  create_http_ends name j w =
      let w1 = (d.combined_output (http_args images name j) w).1 in
      elim (Result-cases (docker_inspect d name w1).0) [
        | inl (e, bad) ↦ ground (arith, bad)
        | inr (o, good) ↦ ground (
          arith,
          good,
          ready_http_ends (λ e. wrap (txt "echo not ready: ") e []) o (docker_inspect d name w1).1,
        )
      ]

  provision_postgres_ends :
      (j : Job) (w : W) → (provision_postgres d images (suc r) j w).0 ≢ out_of_rounds
  unfolding provision_postgres
  provision_postgres_ends j w =
      let name = postgres_name j in
      let w1 = (docker_inspect d name w).1 in
      elim (Result-cases (docker_inspect d name w).0) [
        | inl (e, bad) ↦ ground (arith, bad)
        | inr (none, absent) ↦ ground (arith, absent, create_postgres_ends name j w1)
        | inr (some inf, found) ↦ ground (arith, found, reuse_postgres_ends name inf w1)
      ]

  provision_http_ends : (j : Job) (w : W) → (provision_http d images (suc r) j w).0 ≢ out_of_rounds
  unfolding provision_http
  provision_http_ends j w =
      let name = http_name j in
      let w1 = (docker_inspect d name w).1 in
      elim (Result-cases (docker_inspect d name w).0) [
        | inl (e, bad) ↦ ground (arith, bad)
        | inr (none, absent) ↦ ground (arith, absent, create_http_ends name j w1)
        | inr (some inf, found) ↦ ground (arith, found, reuse_http_ends name inf w1)
      ]

-- `Provision` ends: 77 rounds of each readiness loop are enough for its timeout, if the clock does
-- not go back and a pause takes its time.
pub provision_ends :
    {W : Type 0} (d : Docker W) (images : Images) (j : Job) (w : W)
    → IsClock d
    → (provision d images 77 j w).0 ≢ out_of_rounds
unfolding provision
provision_ends d images j w clock = ground (
  arith,
  provision_postgres_ends d clock images 76 (omega arith) (omega arith) j w,
  provision_http_ends d clock images 76 (omega arith) (omega arith) j
      (provision_postgres d images 77 j w).1,
)
