-- ===== src/Worker/Tests.antt =====
-- internal/worker: the handling of messages in a world kept in memory.
use infraforge.Base.{
  ◌+◌, ◌≤◌, ◌≡◌, refl, true, false, GoError, txt, [], ◌∷◌, arith, pos, none, Result, ok, err,
  text_eq, count_if, err_transient, ltb_ℤ, incr, decr, errors_is,
}
use infraforge.Base.Dict
use infraforge.Base.Dict.{Dict, lookup-insert, lookup-insert_self}
use infraforge.Model.{Job, Status, pending, ready, deleted}
use infraforge.Store.Mem
use infraforge.Store.Mem.{MemStore, memory_store, memory_store-IsLawful}
use infraforge.Queue.{Queue, Message, action_deprovision}
use infraforge.Provisioner.{Resources}
use infraforge.XdsClient.{noop}
use infraforge.Worker.{Worker, handle, dispatch}
use infraforge.Worker.Trace.{trace}
use infraforge.Worker.Protocol.{is_ack, is_transient, is_provision_call, handle_acks}
use infraforge.Worker.Race.{IsBeside, Ready, handle-Ready}
use infraforge.Worker.Late.{Reopened, late_failure_reopens}
use infraforge.Worker.Sole.{IsSole}
use infraforge.Worker.Poison.{total, provision_calls-le, poison_message_acked}

abbrev silent_queue : Queue MemStore
silent_queue = record {
  enqueue = λ id a w. (none, w);
  dequeue = λ c b w. (ok none, w);
  reclaim = λ c i n w. (ok [], w);
  ack = λ m w. (none, w);
  dead_letter = λ m d n w. (none, w);
  list_dead = λ n w. (ok [], w);
}

-- A worker whose provisioner always gives one answer.
abbrev worker_with : Result Resources → Worker MemStore
worker_with answer = record {
  name = txt "w-1";
  store = memory_store;
  queue = silent_queue;
  provisioner = record { provision = λ j w. (answer, w); deprovision = λ j w. (none, w) };
  xds = noop;
  block_timeout = pos 1;
  reclaim_every = pos 1;
  reclaim_min_idle = pos 1;
  max_attempts = pos 3;
  now = λ w. (5, w);
}

abbrev flaky : Worker MemStore
flaky = worker_with (err (record { message = txt "i/o timeout"; chain = err_transient ∷ [] }))

flaky-IsSole : IsSole flaky
unfolding Mem.put
flaky-IsSole = record {
  lawful = memory_store-IsLawful;
  put_ok = λ j w. refl;
  get-now = λ id w. refl;
  get-ack = λ id m w. refl;
  get-dead_letter = λ id m d n w. refl;
  get-provision = λ id j w. refl;
  get-deprovision = λ id j w. refl;
  get-register = λ id s h p w. refl;
  get-unregister = λ id s h p w. refl;
}

abbrev fresh : Job
fresh = record {
  id = txt "j1";
  service_name = txt "checkout";
  resource = txt "postgres";
  status = pending;
  detail = [];
  attempts = pos 0;
  connection = none;
  http = none;
  created_at = 1;
  updated_at = 1;
}

abbrev holding : Job → MemStore
holding j = record { jobs = (j.id, j) ∷ [] }

abbrev msg : Message
msg = record { id = txt "1-0"; job_id = txt "j1"; action = txt "provision" }

holding_get :
    (s : Status)
    → (memory_store.get (txt "j1") (holding (record fresh { status = s }))).0
      ≡ ok (record fresh { status = s })
unfolding Mem.get Dict.lookup txt text_eq
holding_get s = refl

msg_provisions : text_eq msg.action action_deprovision ≡ false
unfolding txt text_eq action_deprovision
msg_provisions = refl

handle_acks_example :
    count_if is_ack (trace flaky msg (holding fresh))
      + count_if is_transient (trace flaky msg (holding fresh))
    ≡ 1
handle_acks_example = handle_acks flaky msg (holding fresh)

provision_calls-le_example : total flaky msg is_provision_call 10 (holding fresh) ≤ 3
provision_calls-le_example =
    provision_calls-le flaky msg flaky-IsSole msg_provisions 3 refl 10 0 fresh (holding fresh)
      (holding_get pending) refl refl (omega arith)

poison_message_acked_example : 1 ≤ total flaky msg is_ack 4 (holding fresh)
poison_message_acked_example =
    poison_message_acked flaky msg flaky-IsSole msg_provisions 3 refl 4 0 fresh (holding fresh)
      (holding_get pending) refl refl (omega arith) (omega arith) (omega arith)

-- Three transient failures, then the fourth delivery gives up.
three_calls : total flaky msg is_provision_call 10 (holding fresh) ≡ 3
unfolding handle Mem.get Mem.put Dict.lookup Dict.insert text_eq txt action_deprovision ltb_ℤ incr
    decr errors_is
three_calls = refl

abbrev granted : Resources
granted = record {
  connection = record {
    host = txt "127.0.0.1";
    port = pos 5432;
    database = txt "db";
    username = txt "u";
    password = txt "p";
  };
  http = record { host = txt "127.0.0.1"; port = pos 8080 };
}

-- While the provisioner works, the job is deleted.
abbrev slow : Worker MemStore
slow = record (worker_with (ok granted)) {
  provisioner = record {
    provision = λ j w. (ok granted, (memory_store.put (record j { status = deleted }) w).1);
    deprovision = λ j w. (none, w);
  };
}

slow-IsBeside : IsBeside slow
unfolding Mem.put
slow-IsBeside = record {
  lawful = memory_store-IsLawful;
  put_ok = λ j w. refl;
  get-ack = λ id m w. refl;
  get-register = λ id s h p w. refl;
}

handle-Ready_example : Ready slow slow-IsBeside fresh granted (handle slow msg (holding fresh))
unfolding ltb_ℤ incr
handle-Ready_example =
    handle-Ready slow slow-IsBeside granted (λ j w. refl) msg fresh (holding fresh)
      (holding_get pending) refl msg_provisions refl refl

flaky-IsBeside : IsBeside flaky
unfolding Mem.put
flaky-IsBeside = record {
  lawful = memory_store-IsLawful;
  put_ok = λ j w. refl;
  get-ack = λ id m w. refl;
  get-register = λ id s h p w. refl;
}

abbrev timeout : GoError
timeout = record { message = txt "i/o timeout"; chain = err_transient ∷ [] }

timeout_transient : errors_is timeout err_transient ≡ true
unfolding errors_is
timeout_transient = refl

-- Another worker has written that the job is ready since its record was read.
late_failure_reopens_example :
    Reopened flaky fresh (dispatch flaky msg fresh (holding (record fresh { status = ready })))
unfolding ltb_ℤ incr
late_failure_reopens_example =
    late_failure_reopens flaky flaky-IsBeside timeout timeout_transient (λ j w. refl) msg fresh
      (holding (record fresh { status = ready })) msg_provisions refl refl
