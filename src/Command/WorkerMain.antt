-- ===== src/Command/WorkerMain.antt =====
-- cmd/worker/main.go: the worker's process.
use infraforge.Base.{
  ℕ, ◌≡◌, ◌≢◌, ◌↔◌, refl, ap, arith, false, Bool-cases, inl, inr, Text, txt, List, [], ◌++◌, ℤ, pos,
  negsuc, Option, none, some, if◌then◌else◌, text_eq, text_eq_iff, ltb_ℤ, int_eq,
}
use infraforge.Store.Redis.{Codec, redis_store}
use infraforge.Queue.Redis.{redis_queue}
use infraforge.Provisioner.{Provisioner}
use infraforge.XdsClient.{Client, noop}
use infraforge.XdsClient.Http.{Transport, http_client}
use infraforge.Worker.{Settings, Worker, apply_defaults, or_default}
use infraforge.Worker.Loop.{Context, Signal, reclaim_loop}
use infraforge.Command.{
  Os, getenv, env_or, env_dur, duration_or, host_name, Outcome, runs, Connection, connected,
}

-- The interval that the setting stands for, which is not positive.
abbrev NotPositive : ℤ → Type 0
NotPositive d = ltb_ℤ (pos 0) (or_default d (pos 30000000000)) ≡ false

NotPositive-iff : (d : ℤ) → NotPositive d ↔ ((n : ℕ) × (d ≡ negsuc n))
unfolding ltb_ℤ int_eq
NotPositive-iff (pos n) = (λ h. absurd (ground (arith, h)), λ (m, e). absurd (ground (arith, e)))
NotPositive-iff (negsuc n) = (λ h. (n, refl), λ h. refl)

one_duration : (c d : ℤ) → ◌≡◌ {A = Option ℤ} (some c) (some d) → c ≡ d
one_duration c d e = cc

duration_iff :
    (parsed : Option ℤ)
    → NotPositive (duration_or parsed (pos 0)) ↔ ((n : ℕ) × (parsed ≡ some (negsuc n)))
unfolding ltb_ℤ int_eq
duration_iff none = (λ h. absurd (ground (arith, h)), λ (n, e). absurd (ground (arith, e)))
duration_iff (some d) = (
  λ h. let (n, e) = (NotPositive-iff d).0 h in (n, ap some e),
  λ (n, e). (NotPositive-iff d).1 (n, one_duration d (negsuc n) e),
)

-- What `env_dur` makes of a variable's value.
default_positive : NotPositive (pos 0) → ⊥
unfolding ltb_ℤ int_eq
default_positive h = ground (arith, h)

setting_iff :
    (v : Text) (parse : Text → Option ℤ)
    → NotPositive (if text_eq v [] then pos 0 else duration_or (parse v) (pos 0))
      ↔ ((v ≢ []) × (n : ℕ) × (parse v ≡ some (negsuc n)))
setting_iff v parse = elim (Bool-cases (text_eq v [])) [
  | inl unset ↦
      let is = (text_eq_iff v []).0 unset in
      rw unset (λ h. absurd (default_positive h), λ (set, n, e). absurd (set is))
  | inr set ↦ rw set (
    λ h.
        let (n, e) = (duration_iff (parse v)).0 h in
        (λ is. ground (arith, set, (text_eq_iff v []).1 is), n, e),
    λ (_, n, e). (duration_iff (parse v)).1 (n, e),
  )
]

module _ {W : Type 0} (c : Context W) (k : Worker W) where
  reclaim_loop_iff :
      (wakes : List Signal) (w : W)
      → (reclaim_loop c k wakes w ≡ none) ↔ (ltb_ℤ (pos 0) k.reclaim_every ≡ false)
  unfolding reclaim_loop
  reclaim_loop_iff wakes w = elim (Bool-cases (ltb_ℤ (pos 0) k.reclaim_every)) [
    | inl ticks ↦ rw ticks (λ h. absurd (ground (arith, h)), λ h. absurd (ground (arith, h)))
    | inr never ↦ rw never (λ h. refl, λ h. refl)
  ]

module _ {W : Type 0} (os : Os) (dial : Text → Connection W) (http : Transport W)
    (provisioner : Provisioner W) (codec : Codec) (rounds : ℕ) (now : W → ℕ × W) where
  -- The control plane's client; without an address there is none.
  unfoldable pub xds_client : Client W
  unfolding getenv txt
  xds_client =
      let addr = getenv os (txt "XDS_ADDR") in
      if text_eq addr [] then noop else http_client http addr

  unfoldable pub redis_addr : Text
  unfolding env_or txt
  redis_addr = env_or os (txt "REDIS_ADDR") (txt "localhost:6379")

  unfoldable pub settings : Settings W
  unfolding xds_client redis_addr env_or env_dur host_name txt
  settings =
      let redis = dial redis_addr in
      record {
        name = env_or os (txt "WORKER_NAME") (host_name os ++ txt "-1");
        store = redis_store redis.keys codec rounds;
        queue = redis_queue redis.streams;
        provisioner = provisioner;
        xds = some xds_client;
        block_timeout = pos 0;
        reclaim_every = env_dur os (txt "WORKER_RECLAIM_EVERY") (pos 0);
        reclaim_min_idle = env_dur os (txt "WORKER_RECLAIM_MIN_IDLE") (pos 0);
        max_attempts = pos 0;
        now = now;
      }

  -- `main` up to `w.Run`.
  unfoldable pub boot : W → Outcome (Settings W) × W
  unfolding connected settings redis_addr
  boot w = connected (dial redis_addr) (λ w. (runs settings, w)) w

  -- The reclaim loop of a worker that was set up from the environment panics exactly if
  -- WORKER_RECLAIM_EVERY is set and parses to a negative duration; a value that is missing, zero or
  -- does not parse stands for the default.
  pub reclaim_loop_panics :
      (c : Context W) (wakes : List Signal) (w : W)
      → (reclaim_loop c (apply_defaults settings) wakes w ≡ none) ↔ (
          (getenv os (txt "WORKER_RECLAIM_EVERY") ≢ [])
          × (n : ℕ) × (os.parse_duration (getenv os (txt "WORKER_RECLAIM_EVERY"))
              ≡ some (negsuc n)))
  unfolding apply_defaults settings env_dur
  reclaim_loop_panics c wakes w =
      let loop = reclaim_loop_iff c (apply_defaults settings) wakes w in
      let setting = setting_iff (getenv os (txt "WORKER_RECLAIM_EVERY")) os.parse_duration in
      (λ h. setting.0 (loop.0 h), λ h. loop.1 (setting.1 h))
