-- ===== src/Queue/Redis/Roundtrip.antt =====
-- internal/queue/queue.go: what is written to a stream is read back.
use infraforge.Base.{
  ◌≡◌, refl, ap, ℕ, true, Text, txt, [], ◌∷◌, ℤ, pos, negsuc, InInt, some, arith, text_eq, show_int,
  atoi-show_int, if◌then◌else◌, all_digits, show_nat, all_digits-show_nat, ◌+◌,
}
use infraforge.Base.Dict
use infraforge.Base.Dict.{Dict}
use infraforge.Queue.{Message, Action, action_provision}
use infraforge.Queue.Redis.{
  Arg, text, int, Streams, message_from, dead_entry_from, scan_int, skip_spaces, take_digits,
  number_at, enqueued_values, dead_values,
}

-- What Redis returns of a value that the client was given: a number is sent in decimal.
abbrev pub printed : Arg → Text
printed (text t) = t
printed (int n) = show_int n

abbrev pub stored : Dict Arg → Dict Text
stored [] = []
stored ((k, a) ∷ values) = (k, printed a) ∷ stored values

take_digits-all : (s : Text) → all_digits s ≡ true → take_digits s ≡ s
take_digits-all [] h = refl
take_digits-all (c ∷ s) h = ground (arith, take_digits-all s)

digits_whole : (s : Text) → all_digits s ≡ true → number_at (skip_spaces s) ≡ s
digits_whole [] h = refl
digits_whole (c ∷ s) h = ground (arith, take_digits-all (c ∷ s) h)

number_at-show_int : (n : ℤ) → number_at (skip_spaces (show_int n)) ≡ show_int n
unfolding show_int
number_at-show_int (pos n) = digits_whole (show_nat n) (all_digits-show_nat n)
number_at-show_int (negsuc n) =
    ap (λ s. b'-' ∷ s) (take_digits-all (show_nat (n + 1)) (all_digits-show_nat (n + 1)))

scan_int-show_int : (n : ℤ) → InInt n → scan_int (show_int n) ≡ n
unfolding scan_int
scan_int-show_int n h = ground (arith, number_at-show_int n, atoi-show_int n h)

module _ {W : Type 0} (r : Streams W) where
  -- A message that was enqueued is read back, from the values that Redis stores, with its job and
  -- its action; no action counts as a provision.
  pub message_from-enqueued :
      (id job_id : Text) (action : Action)
      → message_from (record { id = id; values = stored (enqueued_values r job_id action) })
        ≡ record {
          id = id;
          job_id = job_id;
          action = if text_eq action [] then action_provision else action;
        }
  unfolding message_from Dict.lookup txt text_eq
  message_from-enqueued id job_id action = refl

  -- A dead letter is listed with the job, the action, the detail, the attempts and the time that it
  -- was written with, if the count is an int and the time's text parses to that time.
  pub dead_entry_from-written :
      (id : Text) (m : Message) (detail : Text) (attempts : ℤ) (t : ℕ)
      → InInt attempts
      → r.parse_time (r.format_time t) ≡ some t
      → dead_entry_from r (record { id = id; values = stored (dead_values r m detail attempts t) })
        ≡ record {
          stream_id = id;
          job_id = m.job_id;
          action = m.action;
          detail = detail;
          attempts = attempts;
          timestamp = t;
        }
  unfolding dead_entry_from Dict.lookup txt text_eq
  dead_entry_from-written id m detail attempts t fits parses =
      rw (scan_int-show_int attempts fits) (rw parses refl)
