-- ===== src/Provisioner/Commands.antt =====
-- internal/provisioner/docker.go: the commands that every provisioning issues.
use infraforge.Base.{
  ◌≡◌, refl, ℕ, false, Text, txt, List, [], ◌∷◌, ◌++◌, arith, count_if, count_if-append, text_eq,
}
use infraforge.Provisioner.Inspect.{Inspect}
use infraforge.Provisioner.Docker.{Docker, docker_inspect, docker_start}
use infraforge.Provisioner.Shell.{Images, started}
use infraforge.Provisioner.Trace.{Event, queried, commanded, traced, is_run}

module _ {W : Type 0} (d : Docker W) (images : Images) (rounds : ℕ) where
  abbrev pub inspecting : Text → W → Event
  inspecting name w = let args = txt "inspect" ∷ name ∷ [] in queried args (d.output args w).0

  pub docker_inspect-traced :
      (name : Text) (w : W) (t : List Event)
      → docker_inspect (traced d) name (w, t) ≡ (
        (docker_inspect d name w).0,
        ((docker_inspect d name w).1, t ++ (inspecting name w ∷ [])),
      )
  unfolding docker_inspect
  docker_inspect-traced name w t = ground arith

  abbrev pub starting : Text → W → Event
  starting name w =
      let args = txt "start" ∷ name ∷ [] in commanded args (d.combined_output args w).0

  docker_start-traced :
      (name : Text) (w : W) (t : List Event)
      → docker_start (traced d) name (w, t)
        ≡ ((docker_start d name w).0, ((docker_start d name w).1, t ++ (starting name w ∷ [])))
  unfolding docker_start
  docker_start-traced name w t = ground arith

  no_run_starting : (name : Text) (w : W) → is_run (starting name w) ≡ false
  unfolding txt text_eq
  no_run_starting name w = refl

  -- Bringing up a container that exists creates none.
  pub started_runs :
      (name : Text) (inf : Inspect) (w : W) (t : List Event)
      → count_if is_run (started (traced d) images rounds name inf (w, t)).1.1 ≡ count_if is_run t
  unfolding started
  started_runs name inf w t =
      let e1 = starting name w in
      let t1 = t ++ (e1 ∷ []) in
      let w1 = (docker_start d name w).1 in
      let e2 = inspecting name w1 in
      ground (
        arith,
        docker_start-traced name w t,
        docker_inspect-traced name w1 t1,
        no_run_starting name w,
        count_if-append is_run t (e1 ∷ []),
        count_if-append is_run t1 (e2 ∷ []),
      )

  abbrev pub running : List Text → W → Event
  running args w = commanded args (d.combined_output args w).0
