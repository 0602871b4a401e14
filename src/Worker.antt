-- ===== src/Worker.antt =====
-- internal/worker/worker.go: the handling of one message, over a world `W`. Each call of an
-- interface is a step of the world, in the order of the source; log lines are left out.
pub mod Loop
pub mod Crash
pub mod Trace
pub mod Protocol
pub mod Sole
pub mod Poison
pub mod Race
pub mod Late
mod Tests
use infraforge.Base.{
  ℕ, Bool, true, false, Text, txt, List, [], ◌∷◌, ◌++◌, ℤ, pos, Option, none, some, GoError, Result,
  ok, err, errors_is, err_transient, if◌then◌else◌, int_eq, ltb_ℤ, incr, decr, show_int, text_eq,
}
use infraforge.Model.{
  Job, ConnectionInfo, HttpEndpoint, Status, pending, provisioning, ready, failed, deleting,
  deleted,
}
use infraforge.Store.{Store}
use infraforge.Queue.{Queue, Message, Action, action_deprovision}
use infraforge.Provisioner.{Provisioner, Resources}
use infraforge.XdsClient.{Client, noop}

-- The fields of `Worker`, before `applyDefaults`: an XDS client that is `nil` is `none`.
pub record Settings (W : Type 0) : Type 0 where
  pub name : Text
  pub store : Store W
  pub queue : Queue W
  pub provisioner : Provisioner W
  pub xds : Option (Client W)
  pub block_timeout : ℤ
  pub reclaim_every : ℤ
  pub reclaim_min_idle : ℤ
  pub max_attempts : ℤ
  -- the clock, which every process can read
  pub now : W → ℕ × W

pub record Worker (W : Type 0) : Type 0 where
  pub name : Text
  pub store : Store W
  pub queue : Queue W
  pub provisioner : Provisioner W
  pub xds : Client W
  pub block_timeout : ℤ
  pub reclaim_every : ℤ
  pub reclaim_min_idle : ℤ
  pub max_attempts : ℤ
  pub now : W → ℕ × W

abbrev pub or_default : ℤ → ℤ → ℤ
or_default n d = if int_eq n (pos 0) then d else n

-- In nanoseconds.
abbrev pub default_block_timeout : ℤ
default_block_timeout = pos 5000000000

abbrev pub default_reclaim_every : ℤ
default_reclaim_every = pos 30000000000

abbrev pub default_reclaim_min_idle : ℤ
default_reclaim_min_idle = pos 120000000000

abbrev pub default_max_attempts : ℤ
default_max_attempts = pos 3

unfoldable pub apply_defaults : {W : Type 0} → Settings W → Worker W
apply_defaults s = record {
  name = s.name;
  store = s.store;
  queue = s.queue;
  provisioner = s.provisioner;
  xds = elim s.xds [ none ↦ noop | some c ↦ c ];
  block_timeout = or_default s.block_timeout default_block_timeout;
  reclaim_every = or_default s.reclaim_every default_reclaim_every;
  reclaim_min_idle = or_default s.reclaim_min_idle default_reclaim_min_idle;
  max_attempts = or_default s.max_attempts default_max_attempts;
  now = s.now;
}

-- `fmt.Sprintf("abandoned after %d attempts", n)`
unfoldable pub abandoned_detail : ℤ → Text
unfolding txt
abandoned_detail n = txt "abandoned after " ++ (show_int n ++ txt " attempts")

unfoldable pub transient_detail : GoError → Text
unfolding txt
transient_detail e = txt "transient: " ++ e.message

unfoldable pub teardown_detail : GoError → Text
unfolding txt
teardown_detail e = txt "deprovision failed: " ++ e.message

module _ {W : Type 0} (k : Worker W) where
  -- `_ = w.Store.Put(ctx, job)`, after `job.UpdatedAt = now()`
  unfoldable pub save : Job → W → Job × W
  save job w =
      let (t, w) = k.now w in
      let job' = record job { updated_at = t } in (job', (k.store.put job' w).1)

  -- The poison-message guard's branch; the job's attempts are counted up already.
  unfoldable pub abandon : Message → Job → W → W
  unfolding save abandoned_detail
  abandon msg job w =
      let detail = abandoned_detail (decr job.attempts) in
      let (job', w) = save (record job { status = failed; detail = detail }) w in
      let (_, w) = k.queue.ack msg w in (k.queue.dead_letter msg detail (decr job'.attempts) w).1

  unfoldable pub provision_failed : Message → Job → GoError → W → W
  unfolding save transient_detail
  provision_failed msg job e w =
      if errors_is e err_transient
      then (save (record job { detail = transient_detail e }) w).1
      else let (job', w) = save (record job { status = failed; detail = e.message }) w in
        let (_, w) = k.queue.ack msg w in (k.queue.dead_letter msg job'.detail job'.attempts w).1

  unfoldable pub provisioned : Message → Job → Resources → W → W
  unfolding save
  provisioned msg job res w =
      let (job', w) =
        save
          (record job {
            status = ready;
            connection = some res.connection;
            http = some res.http;
            detail = [];
          })
          w in
      let (_, w) = k.xds.register job'.service_name res.http.host res.http.port w in
      (k.queue.ack msg w).1

  -- After the guard: the job is marked, and the provisioner called.
  unfoldable pub attempt : Message → Job → W → W
  unfolding save provision_failed provisioned
  attempt msg job w =
      let (job', w) = save (record job { status = provisioning; detail = [] }) w in
      let (r, w) = k.provisioner.provision job' w in
      elim r [ err e ↦ provision_failed msg job' e w | ok res ↦ provisioned msg job' res w ]

  unfoldable pub start : Message → Job → W → W
  unfolding abandon attempt
  start msg job w =
      let job' = record job { attempts = incr job.attempts } in
      if ltb_ℤ k.max_attempts job'.attempts then abandon msg job' w else attempt msg job' w

  -- `provision`: the `switch` on the status.
  unfoldable pub provision_by : Status → Message → Job → W → W
  unfolding start
  provision_by ready msg job w = (k.queue.ack msg w).1
  provision_by deleting msg job w = (k.queue.ack msg w).1
  provision_by deleted msg job w = (k.queue.ack msg w).1
  provision_by pending msg job w = start msg job w
  provision_by provisioning msg job w = start msg job w
  provision_by failed msg job w = start msg job w

  unfoldable pub unregister_job : Job → Option HttpEndpoint → W → W
  unregister_job job none w = w
  unregister_job job (some h) w = (k.xds.unregister job.service_name h.host h.port w).1

  unfoldable pub teardown : Message → Job → W → W
  unfolding unregister_job save teardown_detail
  teardown msg job w =
      let w = unregister_job job job.http w in
      let (failure, w) = k.provisioner.deprovision job w in
      elim failure [
        | some e ↦
            let (_, w) = save (record job { detail = teardown_detail e }) w in (k.queue.ack msg w).1
        | none ↦
            let (_, w) =
              save (record job { status = deleted; detail = []; connection = none; http = none })
                w in
            (k.queue.ack msg w).1
      ]

  -- `deprovision`
  unfoldable pub deprovision_by : Status → Message → Job → W → W
  unfolding teardown
  deprovision_by deleted msg job w = (k.queue.ack msg w).1
  deprovision_by _ msg job w = teardown msg job w

  unfoldable pub dispatch : Message → Job → W → W
  unfolding provision_by deprovision_by
  dispatch msg job w =
      if text_eq msg.action action_deprovision
      then deprovision_by job.status msg job w
      else provision_by job.status msg job w

  unfoldable pub handle : Message → W → W
  unfolding dispatch
  handle msg w =
      let (found, w) = k.store.get msg.job_id w in
      elim found [ err e ↦ (k.queue.ack msg w).1 | ok job ↦ dispatch msg job w ]
