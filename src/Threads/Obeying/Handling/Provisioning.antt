-- ===== src/Threads/Obeying/Handling/Provisioning.antt =====
-- internal/worker/worker.go: `provision`.
use infraforge.Base.{
  ℤ, ◌≡◌, true, refl, ap, Bool-cases, inl, inr, [], Among, some, Result, ok, err, GoError,
  errors_is, err_transient, ltb_ℤ, incr, decr,
}
use infraforge.Model.{Job, Status, pending, provisioning, ready, failed, deleting, deleted}
use infraforge.Queue.{Message}
use infraforge.Provisioner.{Resources}
use infraforge.Worker.{abandoned_detail, transient_detail}
use infraforge.Worker.Crash.{IsProvision}
use infraforge.Worker.Protocol.{allowed}
use infraforge.Calls.{Code}
use infraforge.Calls.Handling.{
  saving, abandoning, failing, succeeding, attempting, starting, provisioning_by,
}
use infraforge.Threads.{Mind}
use infraforge.Threads.Discipline.{is_open, Obeys}
use infraforge.Threads.Obeying.Handling.Steps.{
  Knows, Read, Follows, wrote, acking-Obeys, burying-Obeys, closed-Acks, closes_own, works_own,
  known-Acks,
}

module _ {A : Type 0} (msg : Message) (rest : Code A) where
  abandoning-Obeys :
      (m : Mind) (t : Status) (job : Job)
      → Among m.hand msg
      → Read msg rest m t job
      → allowed t failed ≡ true
      → Follows msg rest m
      → Obeys m (abandoning msg job rest)
  unfolding abandoning saving
  abandoning-Obeys m s job here (i, known, is, own) fine after = (
    tt,
    λ t _.
        let detail = abandoned_detail (decr job.attempts) in
        let lost = record job { status = failed; detail = detail; updated_at = t } in
        (
          closes_own msg rest m s lost here (i, known, is, own) refl fine,
          λ r _.
              burying-Obeys msg rest (wrote msg rest m lost) detail (decr job.attempts)
                (closed-Acks msg rest m lost here own refl) after,
        ),
  )

  -- The job is marked as provisioning.
  abbrev Marked : Mind → Job → Type 0
  Marked m job = Read msg rest m provisioning job × (job.status ≡ provisioning)

  failing-Obeys :
      (m : Mind) (job : Job) (e : GoError)
      → Among m.hand msg
      → Marked m job
      → IsProvision msg
      → Follows msg rest m
      → Obeys m (failing msg job e rest)
  unfolding failing saving
  failing-Obeys m job e here ((i, known, is, own), at) prov after =
      elim (Bool-cases (errors_is e err_transient)) [
        | inl transient ↦ rw transient (
          tt,
          λ t _. (
            works_own msg rest m provisioning
                (record job { detail = transient_detail e; updated_at = t }) here
                (i, known, is, own) prov (ap (allowed provisioning) at),
            λ r _. after _ (λ n other a. a),
          ),
        )
        | inr permanent ↦ rw permanent (
          tt,
          λ t _.
              let lost = record job { status = failed; detail = e.message; updated_at = t } in
              (
                closes_own msg rest m provisioning lost here (i, known, is, own) refl refl,
                λ r _.
                    burying-Obeys msg rest (wrote msg rest m lost) e.message job.attempts
                      (closed-Acks msg rest m lost here own refl) after,
              ),
        )
      ]

  succeeding-Obeys :
      (m : Mind) (job : Job) (res : Resources)
      → Among m.hand msg
      → Read msg rest m provisioning job
      → Follows msg rest m
      → Obeys m (succeeding msg job res rest)
  unfolding succeeding saving
  succeeding-Obeys m job res here (i, known, is, own) after = (
    tt,
    λ t _.
        let made = record job {
          status = ready;
          connection = some res.connection;
          http = some res.http;
          detail = [];
          updated_at = t;
        } in
        (
          closes_own msg rest m provisioning made here (i, known, is, own) refl refl,
          λ r _. (
            tt,
            λ r' _.
                acking-Obeys msg rest (wrote msg rest m made)
                  (closed-Acks msg rest m made here own refl) after,
          ),
        ),
  )

  -- After the provisioner has replied.
  made-Obeys :
      (m : Mind) (job : Job) (made : Result Resources)
      → Among m.hand msg
      → Marked m job
      → IsProvision msg
      → Follows msg rest m
      → Obeys m
          (elim made [ err e ↦ failing msg job e rest | ok res ↦ succeeding msg job res rest ])
  made-Obeys m job (err e) here marked prov after = failing-Obeys m job e here marked prov after
  made-Obeys m job (ok res) here marked prov after = succeeding-Obeys m job res here marked.0 after

  attempting-Obeys :
      (m : Mind) (t : Status) (job : Job)
      → Among m.hand msg
      → Read msg rest m t job
      → IsProvision msg
      → allowed t provisioning ≡ true
      → Follows msg rest m
      → Obeys m (attempting msg job rest)
  unfolding attempting saving
  attempting-Obeys m s job here (i, known, is, own) prov fine after = (
    tt,
    λ t _.
        let marked = record job { status = provisioning; detail = []; updated_at = t } in
        (
          works_own msg rest m s marked here (i, known, is, own) prov fine,
          λ r _. (
            tt,
            λ made _.
                made-Obeys (wrote msg rest m marked) marked made here
                  ((marked, ap (λ x. some (x, ok marked)) own, refl, own), refl) prov after,
          ),
        ),
  )

  starting-Obeys :
      (max : ℤ) (m : Mind) (t : Status) (job : Job)
      → Among m.hand msg
      → Read msg rest m t job
      → IsProvision msg
      → (allowed t provisioning ≡ true) × (allowed t failed ≡ true)
      → Follows msg rest m
      → Obeys m (starting max msg job rest)
  unfolding starting
  starting-Obeys max m t job here own prov fine after =
      let job' = record job { attempts = incr job.attempts } in
      elim (Bool-cases (ltb_ℤ max job'.attempts)) [
        | inl over ↦ rw over (abandoning-Obeys m t job' here own fine.1 after)
        | inr under ↦ rw under (attempting-Obeys m t job' here own prov fine.0 after)
      ]

  pub provisioning_by-Obeys :
      (t : Status) (max : ℤ) (m : Mind) (job : Job)
      → job.status ≡ t
      → Among m.hand msg
      → Knows m msg job
      → IsProvision msg
      → Follows msg rest m
      → Obeys m (provisioning_by t max msg job rest)
  unfolding provisioning_by
  provisioning_by-Obeys ready max m job e here knows prov after =
      acking-Obeys msg rest m (known-Acks msg rest m job here knows (ap is_open e)) after
  provisioning_by-Obeys deleting max m job e here knows prov after =
      acking-Obeys msg rest m (known-Acks msg rest m job here knows (ap is_open e)) after
  provisioning_by-Obeys deleted max m job e here knows prov after =
      acking-Obeys msg rest m (known-Acks msg rest m job here knows (ap is_open e)) after
  provisioning_by-Obeys pending max m job e here knows prov after =
      starting-Obeys max m pending job here (job, knows.0, e, knows.1) prov (refl, refl) after
  provisioning_by-Obeys provisioning max m job e here knows prov after =
      starting-Obeys max m provisioning job here (job, knows.0, e, knows.1) prov (refl, refl) after
  provisioning_by-Obeys failed max m job e here knows prov after =
      starting-Obeys max m failed job here (job, knows.0, e, knows.1) prov (refl, refl) after
