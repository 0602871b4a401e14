-- ===== src/Threads/Obeying/Handling.antt =====
-- internal/worker/worker.go: the handling of a message that is at hand makes permitted calls, if what
-- follows it does.
pub mod Steps
pub mod Provisioning
pub mod Removing
use infraforge.Base.{
  ℤ, ◌≡◌, ◌≢◌, arith, true, refl, sym, ap, ◌∙◌, subst, false, Bool-cases, inl, inr, Text, [], Among,
  Option, none, some, Result, ok, err, GoError, errors_is, err_transient, ltb_ℤ, incr, decr,
  text_eq,
}
use infraforge.Model.{
  Job, HttpEndpoint, Status, pending, provisioning, ready, failed, deleting, deleted,
}
use infraforge.Queue.{Message, action_deprovision}
use infraforge.Provisioner.{Resources}
use infraforge.Worker.{abandoned_detail, transient_detail, teardown_detail}
use infraforge.Worker.Crash.{IsProvision}
use infraforge.Worker.Protocol.{allowed}
use infraforge.Calls.{put, get, ack, Code}
use infraforge.Calls.Handling.{
  saving, acking, burying, abandoning, failing, succeeding, attempting, starting, provisioning_by,
  unregistering, tearing_down, deprovisioning_by, dispatching, handling,
}
use infraforge.Threads.{Mind, concerns, learn}
use infraforge.Threads.Minds.{concerned, without-Among}
use infraforge.Threads.Discipline.{Writes, closes, works, rewrites, is_open, IsReply, Acks, Obeys}
use infraforge.Threads.Obeying.Handling.Steps.{
  ObeysAfter, Knows, Read, Follows, wrote, acking-Obeys, burying-Obeys, closed-Acks, closes_own,
  works_own, known-Acks, other-Acks,
}
use infraforge.Threads.Obeying.Handling.Provisioning.{provisioning_by-Obeys}
use infraforge.Threads.Obeying.Handling.Removing.{deprovisioning_by-Obeys}

module _ {A : Type 0} (msg : Message) (rest : Code A) where
  dispatching-Obeys :
      (max : ℤ) (m : Mind) (job : Job)
      → Among m.hand msg
      → Knows m msg job
      → Follows msg rest m
      → Obeys m (dispatching max msg job rest)
  unfolding dispatching
  dispatching-Obeys max m job here knows after =
      elim (Bool-cases (text_eq msg.action action_deprovision)) [
        | inl teardown ↦
            rw teardown
              (deprovisioning_by-Obeys msg rest job.status m job here knows (λ prov. cc) after)
        | inr prov ↦
            rw prov (provisioning_by-Obeys msg rest job.status max m job refl here knows prov after)
      ]

  -- The handling of a message makes permitted calls only.
  pub handling-Obeys :
      (max : ℤ) (m : Mind) → Among m.hand msg → Follows msg rest m → Obeys m (handling max msg rest)
  unfolding handling
  handling-Obeys max m here after = (tt, λ found own. by_reply found own)
    where
      by_reply :
          (found : Result Job)
          → IsReply (get msg.job_id) found
          → Obeys
              (learn (get msg.job_id) found m)
              (elim found [ err e ↦ acking msg rest | ok job ↦ dispatching max msg job rest ])
      by_reply (err e) own =
          acking-Obeys msg rest (learn (get msg.job_id) (err e) m)
            (record { at_hand = here; closed = λ prov. (err e, refl, tt) }) after
      by_reply (ok job) own =
          dispatching-Obeys max (learn (get msg.job_id) (ok job) m) job here (refl, own) after
