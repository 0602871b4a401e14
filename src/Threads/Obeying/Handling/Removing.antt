-- ===== src/Threads/Obeying/Handling/Removing.antt =====
-- internal/worker/worker.go: `deprovision`.
use infraforge.Base.{
  ◌≡◌, arith, true, refl, sym, ap, ◌∙◌, subst, [], Among, Option, none, some, ok, GoError,
}
use infraforge.Model.{
  Job, HttpEndpoint, Status, pending, provisioning, ready, failed, deleting, deleted,
}
use infraforge.Queue.{Message}
use infraforge.Worker.{teardown_detail}
use infraforge.Worker.Crash.{IsProvision}
use infraforge.Worker.Protocol.{allowed}
use infraforge.Calls.{Code}
use infraforge.Calls.Handling.{saving, acking, unregistering, tearing_down, deprovisioning_by}
use infraforge.Threads.{Mind, concerns}
use infraforge.Threads.Minds.{concerned}
use infraforge.Threads.Discipline.{rewrites, Obeys}
use infraforge.Threads.Obeying.Handling.Steps.{
  Knows, Follows, wrote, acking-Obeys, closes_own, other-Acks,
}

-- Any job may be deleted.
allowed-deleted : (t : Status) → allowed t deleted ≡ true
allowed-deleted t = ground arith

module _ {A : Type 0} (msg : Message) (rest : Code A) where
  -- After the unregistering.
  unregistering-Obeys :
      (m : Mind) (job : Job) (http : Option HttpEndpoint) (next : Code A)
      → Obeys m next
      → Obeys m (unregistering job http next)
  unfolding unregistering
  unregistering-Obeys m job none next h = h
  unregistering-Obeys m job (some http) next h = (tt, λ r _. h)

  -- After the resources are removed, or not.
  removed-Obeys :
      (m : Mind) (job : Job) (failure : Option GoError)
      → Among m.hand msg
      → Knows m msg job
      → (IsProvision msg → ⊥)
      → Follows msg rest m
      → Obeys m (elim failure [
        | some e ↦ saving (record job { detail = teardown_detail e }) (λ _. acking msg rest)
        | none ↦
            saving
              (record job { status = deleted; detail = []; connection = none; http = none })
              (λ _. acking msg rest)
      ])
  unfolding saving
  removed-Obeys m job (some e) here knows other after = (
    tt,
    λ t _.
        let kept = record job { detail = teardown_detail e; updated_at = t } in
        (
          rewrites (subst (Among (concerns m)) (sym knows.1) (concerned m msg here)) job
              (knows.0 ∙ ap (λ i. some (i, ok job)) (sym knows.1)) refl,
          λ r _.
              acking-Obeys msg rest (wrote msg rest m kept)
                (other-Acks msg rest (wrote msg rest m kept) here other) after,
        ),
  )
  removed-Obeys m job none here knows other after = (
    tt,
    λ t _.
        let gone = record job {
          status = deleted;
          detail = [];
          connection = none;
          http = none;
          updated_at = t;
        } in
        (
          closes_own msg rest m job.status gone here (job, knows.0, refl, knows.1) refl
              (allowed-deleted job.status),
          λ r _.
              acking-Obeys msg rest (wrote msg rest m gone)
                (other-Acks msg rest (wrote msg rest m gone) here other) after,
        ),
  )

  tearing_down-Obeys :
      (m : Mind) (job : Job)
      → Among m.hand msg
      → Knows m msg job
      → (IsProvision msg → ⊥)
      → Follows msg rest m
      → Obeys m (tearing_down msg job rest)
  unfolding tearing_down
  tearing_down-Obeys m job here knows other after =
      unregistering-Obeys m job job.http _
        (tt, λ failure _. removed-Obeys m job failure here knows other after)

  pub deprovisioning_by-Obeys :
      (t : Status) (m : Mind) (job : Job)
      → Among m.hand msg
      → Knows m msg job
      → (IsProvision msg → ⊥)
      → Follows msg rest m
      → Obeys m (deprovisioning_by t msg job rest)
  unfolding deprovisioning_by
  deprovisioning_by-Obeys deleted m job here knows other after =
      acking-Obeys msg rest m (other-Acks msg rest m here other) after
  deprovisioning_by-Obeys pending m job here knows other after =
      tearing_down-Obeys m job here knows other after
  deprovisioning_by-Obeys provisioning m job here knows other after =
      tearing_down-Obeys m job here knows other after
  deprovisioning_by-Obeys ready m job here knows other after =
      tearing_down-Obeys m job here knows other after
  deprovisioning_by-Obeys failed m job here knows other after =
      tearing_down-Obeys m job here knows other after
  deprovisioning_by-Obeys deleting m job here knows other after =
      tearing_down-Obeys m job here knows other after
