-- ===== src/Provisioner/Removal.antt =====
-- internal/provisioner/docker.go: `Deprovision` removes the containers that carry the job's label.
use infraforge.Base.{
  ◌≡◌, ◌↔◌, ℕ, Text, txt, List, [], ◌∷◌, ◌++◌, Option, none, GoError, arith, All, lines_of, IsWord,
  fields-lines_of,
}
use infraforge.Model.{Job}
use infraforge.Provisioner.Docker.{Docker}
use infraforge.Provisioner.Shell.{Images, deprovision}
use infraforge.Provisioner.Trace.{Event, queried, commanded, traced}

-- The query for the containers of a job.
abbrev pub labelled : Job → List Text
labelled j = txt "ps" ∷ txt "-aq" ∷ txt "-f" ∷ (txt "label=infraforge.job=" ++ j.id) ∷ []

module _ {W : Type 0} (d : Docker W) (images : Images) (rounds : ℕ) (j : Job) where
  -- The answer and the commands, where the query lists the ids.
  abbrev pub Removed : List Text → W → Option GoError → List Event → Type 0
  Removed ids w reply [] = ⊥
  Removed [] w reply (e ∷ t) =
      (e ≡ queried (labelled j) (d.output (labelled j) w).0) × (t ≡ []) × (reply ≡ none)
  Removed (i ∷ is) w reply (e ∷ t) =
      let rm = txt "rm" ∷ txt "-f" ∷ i ∷ is in
      let ran = (d.combined_output rm (d.output (labelled j) w).1).0 in
      (e ≡ queried (labelled j) (d.output (labelled j) w).0)
      × (t ≡ commanded rm ran ∷ [])
      × ((reply ≡ none) ↔ (ran.failure ≡ none))

  -- Where the query prints the ids of the job's containers, one to a line, `Deprovision` removes
  -- exactly those with one command, and reports an error exactly if that command fails; where it
  -- prints none, `Deprovision` succeeds without a further command.
  pub deprovision_removes :
      (w : W) (ids : List Text)
      → (d.output (labelled j) w).0 ≡ record { output = lines_of ids; failure = none }
      → All IsWord ids
      → let p = deprovision (traced d) images rounds j (w, []) in Removed ids w p.0 p.1.1
  unfolding deprovision
  deprovision_removes w [] h words = ground (arith, fields-lines_of [] words)
  deprovision_removes w (i ∷ is) h words = ground (arith, fields-lines_of (i ∷ is) words)
