-- ===== src/Provisioner/Trace.antt =====
-- internal/provisioner/docker.go: the docker commands that are issued, in their order.
use infraforge.Base.{
  ◌≡◌, refl, ℕ, zero, suc, Bool, true, false, Text, txt, List, [], ◌∷◌, GoError, ℤ, Traced, noted,
  silent, arith, text_eq,
}
use infraforge.Provisioner.Docker.{
  Docker, Ran, poll, pg_ready, http_ready, wait_for_postgres, wait_for_http,
}

-- `queried` is a command that only reports, `commanded` one that changes containers.
pub data Event : Type 0 where
  queried : List Text → Ran → Event
  commanded : List Text → Ran → Event

-- Readiness probes, the clock and the random bytes are not written down.
abbrev pub traced : {W : Type 0} → Docker W → Docker (Traced Event W)
traced d = record {
  output = λ args. noted (d.output args) (queried args);
  combined_output = λ args. noted (d.combined_output args) (commanded args);
  run = λ args. silent (d.run args);
  decode_inspect = d.decode_inspect;
  http_get = λ url. silent (d.http_get url);
  random = λ n. silent (d.random n);
  now = silent d.now;
  ctx_err = silent d.ctx_err;
  pause = λ step. silent (d.pause step);
  invalid_port = d.invalid_port;
}

abbrev pub is_command : Event → Bool
is_command (queried args r) = false
is_command (commanded args r) = true

abbrev pub starts_with : Text → List Text → Bool
starts_with name [] = false
starts_with name (a ∷ args) = text_eq a name

-- A `docker run`
abbrev pub is_run : Event → Bool
is_run (queried args r) = false
is_run (commanded args r) = starts_with (txt "run") args

module _ {W : Type 0} (d : Docker W) where
  poll_silent :
      (ready : Traced Event W → Bool × Traced Event W) (step : ℕ) (late : GoError)
      (deadline rounds : ℕ)
      → ((w : W) (t : List Event) → (ready (w, t)).1.1 ≡ t)
      → (w : W) (t : List Event) → (poll (traced d) ready step late deadline rounds (w, t)).1.1 ≡ t
  unfolding poll
  poll_silent ready step late deadline zero quiet w t = refl
  poll_silent ready step late deadline (suc rounds) quiet w t =
      let w2 = (d.now (d.ctx_err w).1).1 in
      let p = (ready (w2, t)).1 in
      let w4 = (d.pause step p.0).1 in
      ground (arith, quiet w2 t, poll_silent ready step late deadline rounds quiet w4 p.1)

  pub wait_for_postgres_silent :
      (rounds : ℕ) (name user db : Text) (timeout : ℕ) (w : W) (t : List Event)
      → (wait_for_postgres (traced d) rounds name user db timeout (w, t)).1.1 ≡ t
  unfolding wait_for_postgres
  wait_for_postgres_silent rounds name user db timeout w t =
      poll_silent (pg_ready (traced d) name user db) _ _ _ rounds (λ w t. refl) (d.now w).1 t

  pub wait_for_http_silent :
      (rounds : ℕ) (host : Text) (port : ℤ) (path : Text) (timeout : ℕ) (w : W) (t : List Event)
      → (wait_for_http (traced d) rounds host port path timeout (w, t)).1.1 ≡ t
  unfolding wait_for_http
  wait_for_http_silent rounds host port path timeout w t =
      poll_silent (http_ready (traced d) _) _ _ _ rounds (λ w t. refl) (d.now w).1 t
