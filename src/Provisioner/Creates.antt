-- ===== src/Provisioner/Creates.antt =====
-- internal/provisioner/docker.go: how often `provisionPostgres` and `provisionHTTP` create a container.
use infraforge.Base.{
  ◌≡◌, refl, ap, ◌∙◌, ℕ, ◌+◌, true, Text, txt, List, [], ◌∷◌, ◌++◌, Option, none, some, GoError,
  wrap, Result, ok, err, arith, count_if, count_if-append, Result-cases, inl, inr, text_eq,
}
use infraforge.Model.{Job}
use infraforge.Provisioner.Naming.{http_name}
use infraforge.Provisioner.Inspect.{Inspect, host_port_of}
use infraforge.Provisioner.Docker.{Docker, docker_inspect}
use infraforge.Provisioner.Shell.{
  http_args, reuse_http, create_http, no_context, Images, provision_http, started, ready_http,
}
use infraforge.Provisioner.Commands.{inspecting, docker_inspect-traced, started_runs, running}
use infraforge.Provisioner.Trace.{Event, traced, is_run, wait_for_http_silent}

-- One `docker run` for a container that is not there, none for one that is, or for an error.
abbrev pub runs_after : Result (Option Inspect) → ℕ
runs_after (ok none) = 1
runs_after (ok (some inf)) = 0
runs_after (err e) = 0

module _ {W : Type 0} (d : Docker W) (images : Images) (rounds : ℕ) where
  ready_http_silent :
      (context : GoError → GoError) (o : Option Inspect) (w : W) (t : List Event)
      → (ready_http (traced d) images rounds context o (w, t)).1.1 ≡ t
  unfolding ready_http
  ready_http_silent context none w t = refl
  ready_http_silent context (some inf) w t =
      elim (Result-cases (host_port_of d.invalid_port inf (txt "8080/tcp"))) [
        | inl (e, bad) ↦ rw (bad, ready_http) refl
        | inr (at, good) ↦
            rw (good, ready_http)
              (wait_for_http_silent d rounds at.host at.port (txt "/health") 15000000000 w t)
      ]

  reuse_http_runs :
      (name : Text) (inf : Inspect) (w : W) (t : List Event)
      → count_if is_run (reuse_http (traced d) images rounds name inf (w, t)).1.1
        ≡ count_if is_run t
  unfolding reuse_http
  reuse_http_runs name inf w t =
      let p = (started (traced d) images rounds name inf (w, t)) in
      elim (Result-cases p.0) [
        | inl (e, bad) ↦ rw (bad, reuse_http) (started_runs d images rounds name inf w t)
        | inr (o, good) ↦
            rw (good, reuse_http)
              (ap (count_if is_run) (ready_http_silent no_context o p.1.0 p.1.1)
                ∙ started_runs d images rounds name inf w t)
      ]

  is_run_http :
      (name : Text) (j : Job) (w : W)
      → is_run (running d images rounds (http_args images name j) w) ≡ true
  unfolding http_args txt text_eq
  is_run_http name j w = refl

  create_http_runs :
      (name : Text) (j : Job) (w : W) (t : List Event)
      → count_if is_run (create_http (traced d) images rounds name j (w, t)).1.1
        ≡ count_if is_run t + 1
  unfolding create_http
  create_http_runs name j w t =
      let args = http_args images name j in
      let e1 = running d images rounds args w in
      let t1 = t ++ (e1 ∷ []) in
      let w1 = (d.combined_output args w).1 in
      let e2 = inspecting d images rounds name w1 in
      let t2 = t1 ++ (e2 ∷ []) in
      let w2 = (docker_inspect d name w1).1 in
      let there = docker_inspect-traced d images rounds name w1 t1 in
      let own = is_run_http name j w in
      let first = count_if-append is_run t (e1 ∷ []) in
      let second = count_if-append is_run t1 (e2 ∷ []) in
      elim (Result-cases (docker_inspect d name w1).0) [
        | inl (e, bad) ↦ ground (arith, there, own, first, second, bad)
        | inr (o, good) ↦ ground (
          arith,
          there,
          own,
          first,
          second,
          good,
          ready_http_silent (λ e. wrap (txt "echo not ready: ") e []) o w2 t2,
        )
      ]

  -- `provisionHTTP` creates a container with one `docker run` exactly if the inspection that comes first
  -- does not find it, and issues none otherwise.
  pub provision_http_runs :
      (j : Job) (w : W) (t : List Event)
      → count_if is_run (provision_http (traced d) images rounds j (w, t)).1.1
        ≡ count_if is_run t + runs_after (docker_inspect d (http_name j) w).0
  unfolding provision_http
  provision_http_runs j w t =
      let name = http_name j in
      let w1 = (docker_inspect d name w).1 in
      let e1 = inspecting d images rounds name w in
      let t1 = t ++ (e1 ∷ []) in
      let there = docker_inspect-traced d images rounds name w t in
      let first = count_if-append is_run t (e1 ∷ []) in
      elim (Result-cases (docker_inspect d name w).0) [
        | inl (e, bad) ↦ ground (arith, there, first, bad)
        | inr (none, absent) ↦ ground (arith, there, first, absent, create_http_runs name j w1 t1)
        | inr (some inf, found) ↦
            ground (arith, there, first, found, reuse_http_runs name inf w1 t1)
      ]
