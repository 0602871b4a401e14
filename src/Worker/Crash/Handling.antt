-- ===== src/Worker/Crash/Handling.antt =====
-- internal/worker/worker.go: the handling of a message, cut off after any call, orphans no job.
use infraforge.Base.{
  ◌≡◌, subst, refl, sym, ◌∙◌, Result, ok, err, arith, Mortal, until, Safe-until, Safe-Inv,
  until-result, Bool-cases, inl, inr, text_eq,
}
use infraforge.Model.{Job}
use infraforge.Queue.{action_deprovision}
use infraforge.Worker.{dispatch, handle}
use infraforge.Worker.Crash.{mortal, view, NoOrphan}
use infraforge.Worker.Crash.Rules.{quiet_keeps}
use infraforge.Worker.Crash.Stages.{Task, Lives, Lives-weaken, InHand, Settled, With}
use infraforge.Worker.Crash.Saves.{Keeps, Hand, Has, acked-Keeps}
use infraforge.Worker.Crash.Provisioning.{provision_by-Keeps}
use infraforge.Worker.Crash.Removing.{deprovision_by-Keeps}

module _ {W : Type 0} (t : Task W) where
  open t use {d, Later, msg, apart}
  open d use {k, Held, sound, waits, waiting}

  dispatch-Keeps :
      (job : Job) (p : Mortal W)
      → job.id ≡ msg.job_id
      → Has t job p
      → Keeps t (dispatch (mortal k) msg job p)
  unfolding dispatch
  dispatch-Keeps job p own h = elim (Bool-cases (text_eq msg.action action_deprovision)) [
    | inl down ↦
        rw down
          (deprovision_by-Keeps t job.status job p refl own (λ up. ground (arith, up, down)) h)
    | inr up ↦ rw up (provision_by-Keeps t job.status job p refl own up h)
  ]

  -- However many calls the worker lives for, the handling of a message that it holds leaves no job
  -- that waits without a message.
  pub handle-Keeps : (p : Mortal W) → Hand t p → Keeps t (handle (mortal k) msg p)
  unfolding handle
  handle-Keeps p h = split (until get p).0 refl
    where
      get : W → Result Job × W
      get = k.store.get msg.job_id

      -- what the read answers is what the record still is
      Reads : Result Job → W → Type 0
      Reads r w = Held msg w × (view k Held msg.job_id w ≡ r)

      read : Lives d Later (Reads (until get p).0) (until get p).1
      read =
          Safe-until (NoOrphan k Held waits) (With d Later (InHand d Later msg))
            (λ r. With d Later (Reads r)) get p
            (λ w i (held, later). (
              quiet_keeps d get w (sound.get_quiet msg.job_id) i,
              (
                (
                  (sound.get_quiet msg.job_id w).messages msg held,
                  (sound.get_quiet msg.job_id w).records msg.job_id,
                ),
                λ m l. (sound.get_quiet msg.job_id w).messages m (later m l),
              ),
            ))
            h

      own : (job : Job) → (until get p).0 ≡ ok job → job.id ≡ msg.job_id
      own job eq =
          (Safe-Inv (NoOrphan k Held waits) (With d Later (InHand d Later msg)) p h).own msg.job_id
            job (sym (until-result get p) ∙ eq)

      split : (r : Result Job) → (until get p).0 ≡ r → Keeps t (handle (mortal k) msg p)
      split (err e) eq =
          rw (eq, handle)
            (acked-Keeps t (until get p).1 (
              Lives-weaken d Later (Reads (until get p).0) (Settled d Later msg) (until get p).1
                (λ w (held, e'). (held, λ prov j v. absurd (ground (arith, e', v, eq)))) read))
      split (ok job) eq =
          rw (eq, handle)
            (dispatch-Keeps job (until get p).1 (own job eq)
              (subst (λ r. Lives d Later (Reads r) (until get p).1) eq read))
