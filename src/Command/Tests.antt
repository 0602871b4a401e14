-- ===== src/Command/Tests.antt =====
-- cmd/worker/main.go: a worker that is set up from a concrete environment.
use infraforge.Base.{
  ℕ, ◌≡◌, ◌≢◌, ◌↔◌, false, Text, txt, [], ◌∷◌, negsuc, none, some, ok, err, new_error,
}
use infraforge.Queue.Redis.Memory.{Log, streams}
use infraforge.Worker.{apply_defaults}
use infraforge.Worker.Loop.{Context, ticked, reclaim_loop}
use infraforge.Command.{Os, getenv, Connection}
use infraforge.Command.WorkerMain.{settings, reclaim_loop_panics}

abbrev World : Type 0
World = Unit × Log

-- Every duration is read as minus five seconds.
abbrev os : Os
os = record {
  variables = (txt "WORKER_RECLAIM_EVERY", txt "-5s") ∷ [];
  hostname = ok (txt "host");
  parse_duration = λ v. some (negsuc 4999999999);
}

abbrev dial : Text → Connection World
dial addr = record {
  ping = λ w. (none, w);
  streams = streams;
  keys = record {
    set = λ k v w. (none, w);
    get = λ k w. (err (new_error []), w);
    scan = λ c pattern n w. (ok ([], 0), w);
  };
}

abbrev context : Context World
context = record { ended = λ w. (false, w); sleep = λ n w. w }

reclaim_loop_panics_example :
    (reclaim_loop context
        (apply_defaults (
          settings os dial
            (record { post = λ a p b w. (err (new_error []), w) })
            (record { provision = λ j w. (err (new_error []), w); deprovision = λ j w. (none, w) })
            (record { marshal = λ j. ok []; unmarshal = λ b. err (new_error []) })
            1
            (λ w. (5, w))))
        (ticked ∷ [])
        (tt, record { entries = []; delivered = 0 })
      ≡ none)
    ↔ ((getenv os (txt "WORKER_RECLAIM_EVERY") ≢ [])
        × (n : ℕ) × (os.parse_duration (getenv os (txt "WORKER_RECLAIM_EVERY")) ≡ some (negsuc n)))
reclaim_loop_panics_example =
    reclaim_loop_panics os dial (record { post = λ a p b w. (err (new_error []), w) })
      (record { provision = λ j w. (err (new_error []), w); deprovision = λ j w. (none, w) })
      (record { marshal = λ j. ok []; unmarshal = λ b. err (new_error []) }) 1 (λ w. (5, w)) context
      (ticked ∷ []) (tt, record { entries = []; delivered = 0 })
