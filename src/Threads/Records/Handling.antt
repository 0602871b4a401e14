-- ===== src/Threads/Records/Handling.antt =====
-- internal/worker/worker.go: the records that the handling of a message writes.
use infraforge.Base.{
  ℕ, ℤ, ◌≡◌, refl, arith, Bool, true, false, Bool-cases, inl, inr, Text, [], Option, none, some,
  Result, ok, err, GoError, errors_is, err_transient, ltb_ℤ, incr, decr, text_eq,
}
use infraforge.Model.{
  Job, HttpEndpoint, Status, pending, provisioning, ready, failed, deleting, deleted,
}
use infraforge.Queue.{Message, action_deprovision}
use infraforge.Provisioner.{Resources}
use infraforge.Worker.{abandoned_detail, transient_detail, teardown_detail}
use infraforge.Calls.{get, Code}
use infraforge.Calls.Handling.{
  saving, acking, burying, abandoning, failing, succeeding, attempting, starting, provisioning_by,
  unregistering, tearing_down, deprovisioning_by, dispatching, handling,
}
use infraforge.Threads.Records.{IsGenuine, IsWellFormed, IsWellRead, WritesWell}

-- In the other statuses nothing is said of the addresses.
abbrev is_free : Status → Bool
is_free provisioning = true
is_free failed = true
is_free deleting = true
is_free _ = false

pub free-IsWellFormed : (j : Job) → is_free j.status ≡ true → IsGenuine j → IsWellFormed j
free-IsWellFormed j free genuine = record {
  genuine = genuine;
  reachable = λ e. absurd (ground (arith, free, e));
  removed = λ e. absurd (ground (arith, free, e));
  new = λ e. absurd (ground (arith, free, e));
}

module _ {A : Type 0} (rest : Code A) (after : WritesWell rest) (msg : Message) where
  acking-WritesWell : WritesWell (acking msg rest)
  unfolding acking
  acking-WritesWell = (tt, λ _ _. after)

  burying-WritesWell : (detail : Text) (n : ℤ) → WritesWell (burying msg detail n rest)
  unfolding burying acking
  burying-WritesWell detail n = (tt, λ _ _. (tt, λ _ _. after))

  abandoning-WritesWell : (job : Job) → IsGenuine job → WritesWell (abandoning msg job rest)
  unfolding abandoning saving
  abandoning-WritesWell job genuine = (
    tt,
    λ t _. (
      free-IsWellFormed _ refl genuine,
      λ _ _. burying-WritesWell (abandoned_detail (decr job.attempts)) (decr job.attempts),
    ),
  )

  failing-WritesWell :
      (job : Job) (e : GoError)
      → is_free job.status ≡ true
      → IsGenuine job
      → WritesWell (failing msg job e rest)
  unfolding failing saving
  failing-WritesWell job e free genuine = elim (Bool-cases (errors_is e err_transient)) [
    | inl transient ↦ rw transient (
      tt,
      λ t _. (
        free-IsWellFormed (record job { detail = transient_detail e; updated_at = t }) free genuine,
        λ _ _. after,
      ),
    )
    | inr permanent ↦ rw permanent (
      tt,
      λ t _. (
        free-IsWellFormed (record job { status = failed; detail = e.message; updated_at = t }) refl
            genuine,
        λ _ _. burying-WritesWell e.message job.attempts,
      ),
    )
  ]

  succeeding-WritesWell :
      (job : Job) (res : Resources) → IsGenuine job → WritesWell (succeeding msg job res rest)
  unfolding succeeding saving
  succeeding-WritesWell job res genuine = (
    tt,
    λ t _. (
      record {
        genuine = genuine;
        reachable = λ e. (res.connection, res.http, refl, refl);
        removed = λ e. absurd (ground (arith, e));
        new = λ e. absurd (ground (arith, e));
      },
      λ _ _. (tt, λ _ _. acking-WritesWell),
    ),
  )

  made-WritesWell :
      (job : Job) (made : Result Resources)
      → is_free job.status ≡ true
      → IsGenuine job
      → WritesWell
          (elim made [ err e ↦ failing msg job e rest | ok res ↦ succeeding msg job res rest ])
  made-WritesWell job (err e) free genuine = failing-WritesWell job e free genuine
  made-WritesWell job (ok res) free genuine = succeeding-WritesWell job res genuine

  attempting-WritesWell : (job : Job) → IsGenuine job → WritesWell (attempting msg job rest)
  unfolding attempting saving
  attempting-WritesWell job genuine = (
    tt,
    λ t _.
        let marked = record job { status = provisioning; detail = []; updated_at = t } in
        (
          free-IsWellFormed marked refl genuine,
          λ _ _. (tt, λ made _. made-WritesWell marked made refl genuine),
        ),
  )

  starting-WritesWell :
      (max : ℤ) (job : Job) → IsGenuine job → WritesWell (starting max msg job rest)
  unfolding starting
  starting-WritesWell max job genuine =
      let job' = record job { attempts = incr job.attempts } in
      elim (Bool-cases (ltb_ℤ max job'.attempts)) [
        | inl over ↦ rw over (abandoning-WritesWell job' genuine)
        | inr under ↦ rw under (attempting-WritesWell job' genuine)
      ]

  provisioning_by-WritesWell :
      (t : Status) (max : ℤ) (job : Job)
      → IsGenuine job
      → WritesWell (provisioning_by t max msg job rest)
  unfolding provisioning_by
  provisioning_by-WritesWell ready max job genuine = acking-WritesWell
  provisioning_by-WritesWell deleting max job genuine = acking-WritesWell
  provisioning_by-WritesWell deleted max job genuine = acking-WritesWell
  provisioning_by-WritesWell pending max job genuine = starting-WritesWell max job genuine
  provisioning_by-WritesWell provisioning max job genuine = starting-WritesWell max job genuine
  provisioning_by-WritesWell failed max job genuine = starting-WritesWell max job genuine

  unregistering-WritesWell :
      (job : Job) (http : Option HttpEndpoint) (next : Code A)
      → WritesWell next
      → WritesWell (unregistering job http next)
  unfolding unregistering
  unregistering-WritesWell job none next h = h
  unregistering-WritesWell job (some http) next h = (tt, λ _ _. h)

  -- The record is written back as it was read, with another detail.
  kept-IsWellFormed :
      (job : Job) (detail : Text) (t : ℕ)
      → IsWellFormed job
      → IsWellFormed (record job { detail = detail; updated_at = t })
  kept-IsWellFormed job detail t well = record {
    genuine = well.genuine;
    reachable = well.reachable;
    removed = well.removed;
    new = well.new;
  }

  removed-WritesWell :
      (job : Job) (failure : Option GoError)
      → IsWellFormed job
      → WritesWell (elim failure [
        | some e ↦ saving (record job { detail = teardown_detail e }) (λ _. acking msg rest)
        | none ↦
            saving
              (record job { status = deleted; detail = []; connection = none; http = none })
              (λ _. acking msg rest)
      ])
  unfolding saving
  removed-WritesWell job (some e) well =
      (tt, λ t _. (kept-IsWellFormed job (teardown_detail e) t well, λ _ _. acking-WritesWell))
  removed-WritesWell job none well = (
    tt,
    λ t _. (
      record {
        genuine = well.genuine;
        reachable = λ e. absurd (ground (arith, e));
        removed = λ e. (refl, refl);
        new = λ e. absurd (ground (arith, e));
      },
      λ _ _. acking-WritesWell,
    ),
  )

  tearing_down-WritesWell : (job : Job) → IsWellFormed job → WritesWell (tearing_down msg job rest)
  unfolding tearing_down
  tearing_down-WritesWell job well =
      unregistering-WritesWell job job.http _ (tt, λ failure _. removed-WritesWell job failure well)

  deprovisioning_by-WritesWell :
      (t : Status) (job : Job) → IsWellFormed job → WritesWell (deprovisioning_by t msg job rest)
  unfolding deprovisioning_by
  deprovisioning_by-WritesWell deleted job well = acking-WritesWell
  deprovisioning_by-WritesWell pending job well = tearing_down-WritesWell job well
  deprovisioning_by-WritesWell provisioning job well = tearing_down-WritesWell job well
  deprovisioning_by-WritesWell ready job well = tearing_down-WritesWell job well
  deprovisioning_by-WritesWell failed job well = tearing_down-WritesWell job well
  deprovisioning_by-WritesWell deleting job well = tearing_down-WritesWell job well

  found-WritesWell :
      (max : ℤ) (found : Result Job)
      → IsWellRead (get msg.job_id) found
      → WritesWell (elim found [ err e ↦ acking msg rest | ok job ↦ dispatching max msg job rest ])
  unfolding dispatching
  found-WritesWell max (err e) well = acking-WritesWell
  found-WritesWell max (ok job) well = elim (Bool-cases (text_eq msg.action action_deprovision)) [
    | inl teardown ↦ rw teardown (deprovisioning_by-WritesWell job.status job well)
    | inr prov ↦ rw prov (provisioning_by-WritesWell job.status max job well.genuine)
  ]

  pub handling-WritesWell : (max : ℤ) → WritesWell (handling max msg rest)
  unfolding handling
  handling-WritesWell max = (tt, λ found well. found-WritesWell max found well)
