-- ===== src/Threads/Always.antt =====
-- internal/worker/worker.go, internal/api/api.go: what holds in every state that interleaved calls
-- come to.
use infraforge.Base.{ℕ, zero, suc, ◌≡◌, ◌≢◌, refl, arith, ◌∙◌, sym, ap, subst}
use infraforge.Queue.{Message}
use infraforge.System.Always.{IsSoundSystem}
use infraforge.Calls.{Call, Reply, Services, answer, Code, done, call}
use infraforge.Threads.{
  blank, learn, Ledger, note, IsApartFrom, Process, code_of, Thread, idle, updated, State, begun,
  answered, advanced, IsExclusiveNext, IsExclusive, Step, begins, calls, Reach, here, then,
}
use infraforge.Threads.Discipline.{Obeys}
use infraforge.Threads.Obeying.Processes.{code_of-Obeys}
use infraforge.Threads.Invariant.{IsKept, Fits, IsOrderly, Spares-Fits}
use infraforge.Threads.Effects.Answering.{answer-IsSafeCall}
use infraforge.Threads.Apart.{
  learn-IsApartFrom, IsApartFrom-sym, blank-IsApartFrom, IsApartFrom-grows, torn-note,
}

-- What holds of the new thread and of the old one holds of the one at that number.
pub at_updated :
    (P : Thread → Type 0) (ts : ℕ → Thread) (i : ℕ) (t : Thread) (j : ℕ)
    → (i ≡ j → P t)
    → (i ≢ j → P (ts j))
    → P (updated ts i t j)
at_updated P ts zero t zero new old = new refl
at_updated P ts zero t (suc j) new old = old (λ e. absurd (omega (arith, e)))
at_updated P ts (suc i) t zero new old = old (λ e. absurd (omega (arith, e)))
at_updated P ts (suc i) t (suc j) new old =
    at_updated P (λ n. ts (suc n)) i t j (λ e. new (ap suc e))
      (λ e. old (λ e'. e (omega (arith, e'))))

module _ {W : Type 0} (s : Services W) (Held : Message → W → Type 0)
    (sound : IsSoundSystem s.k s.random_bytes s.context Held) where
  abbrev Orderly : State W → Type 0
  Orderly a = IsOrderly s Held sound a

  blank-Fits : (g : Ledger) (w : W) → Fits s Held sound blank g w
  blank-Fits g w = record {
    held = λ n a. absurd a;
    knows = λ id r e a. absurd a;
    unsent = λ id a. absurd a;
  }

  -- If the thread at `i` is replaced, and the world changes as the others can bear.
  replaced-IsOrderly :
      (a : State W) (i : ℕ) (t : Thread) (g : Ledger) (w : W)
      → IsKept s Held sound g w
      → Fits s Held sound t.mind g w
      → Obeys t.mind t.rest
      → ((j : ℕ) → i ≢ j → Fits s Held sound (a.threads j).mind g w)
      → ((j : ℕ) → i ≢ j → IsApartFrom g t.mind (a.threads j).mind)
      → ((j l : ℕ) → j ≢ l → IsApartFrom g (a.threads j).mind (a.threads l).mind)
      → ((j : ℕ) → Obeys (a.threads j).mind (a.threads j).rest)
      → Orderly (record { world = w; ledger = g; threads = updated a.threads i t })
  replaced-IsOrderly a i t g w kept fits obeys others apart others_apart obey = record {
    kept = kept;
    fits = λ j.
        at_updated (λ (x : Thread). Fits s Held sound x.mind g w) a.threads i t j (λ _. fits)
          (others j);
    obeys = λ j.
        at_updated (λ (x : Thread). Obeys x.mind x.rest) a.threads i t j (λ _. obeys) (λ _. obey j);
    apart = λ j l differ.
        at_updated (λ (x : Thread). IsApartFrom g x.mind (updated a.threads i t l).mind) a.threads i
          t j
          (λ same.
            at_updated (λ (y : Thread). IsApartFrom g t.mind y.mind) a.threads i t l
              (λ same'. absurd (differ (sym same ∙ same'))) (apart l))
          (λ other.
            at_updated (λ (y : Thread). IsApartFrom g (a.threads j).mind y.mind) a.threads i t l
              (λ same. IsApartFrom-sym g t.mind (a.threads j).mind (apart j other))
              (λ other'. others_apart j l differ));
  }

  begun-IsOrderly : (a : State W) (i : ℕ) (p : Process) → Orderly a → Orderly (begun s i p a)
  begun-IsOrderly a i p o =
      replaced-IsOrderly a i (record { mind = blank; rest = code_of p }) a.ledger a.world o.kept
        (blank-Fits a.ledger a.world) (code_of-Obeys p blank) (λ j _. o.fits j)
        (λ j _. blank-IsApartFrom a.ledger (a.threads j).mind) o.apart o.obeys

  answered-IsOrderly :
      (a : State W) (i : ℕ) (c : Call) (rest : Reply c → Code Unit)
      → Orderly a
      → Obeys (a.threads i).mind (call c rest)
      → IsExclusiveNext s i (call c rest) a
      → Orderly (answered s i c rest a)
  answered-IsOrderly a i c rest o obeys (put_apart, new) =
      let mind = (a.threads i).mind in
      let (r, w) = answer s c a.world in
      let e =
        answer-IsSafeCall s Held sound mind a.ledger a.world o.kept (o.fits i) c r obeys.0 new
          refl in
      let g = note c r a.ledger in
      replaced-IsOrderly a i (record { mind = learn c r mind; rest = rest r }) g w e.kept e.fits
        (obeys.1 r e.reply)
        (λ j other.
          Spares-Fits s Held sound (a.threads j).mind a.ledger g a.world w
            (e.spares (a.threads j).mind (o.apart i j other)) (o.fits j))
        (λ j other.
          learn-IsApartFrom mind (a.threads j).mind a.ledger (o.apart i j other) c r
            (put_apart j other))
        (λ j l differ.
          IsApartFrom-grows a.ledger g (torn-note c r a.ledger) (a.threads j).mind
            (a.threads l).mind (o.apart j l differ))
        o.obeys

  advanced-IsOrderly :
      (a : State W) (i : ℕ) (p : Code Unit)
      → Orderly a
      → Obeys (a.threads i).mind p
      → IsExclusiveNext s i p a
      → Orderly (advanced s i p a)
  advanced-IsOrderly a i (done u) o obeys exclusive = o
  advanced-IsOrderly a i (call c rest) o obeys exclusive =
      answered-IsOrderly a i c rest o obeys exclusive

  step-IsOrderly : (a b : State W) → Step s (IsExclusive s) a b → Orderly a → Orderly b
  step-IsOrderly a _ (begins i p) o = begun-IsOrderly a i p o
  step-IsOrderly a _ (calls i exclusive) o =
      advanced-IsOrderly a i (a.threads i).rest o (o.obeys i) exclusive

  pub Reach-IsOrderly : (a b : State W) → Reach s (IsExclusive s) a b → Orderly a → Orderly b
  Reach-IsOrderly a _ here o = o
  Reach-IsOrderly a b (then {b = c} before step) o =
      step-IsOrderly c b step (Reach-IsOrderly a c before o)

  -- No process runs.
  abbrev pub IsAtRest : State W → Type 0
  IsAtRest a = (i : ℕ) → a.threads i ≡ idle

  pub rest-IsOrderly : (a : State W) → IsAtRest a → IsKept s Held sound a.ledger a.world → Orderly a
  rest-IsOrderly a rest v = record {
    kept = v;
    fits = λ i.
        subst (λ (t : Thread). Fits s Held sound t.mind a.ledger a.world) (sym (rest i))
          (blank-Fits a.ledger a.world);
    obeys = λ i. subst (λ (t : Thread). Obeys t.mind t.rest) (sym (rest i)) tt;
    apart = λ i j differ.
        subst (λ (t : Thread). IsApartFrom a.ledger t.mind (a.threads j).mind) (sym (rest i))
          (blank-IsApartFrom a.ledger (a.threads j).mind);
  }

  -- If any number of requests and of workers' loops run at once, their calls come in any order, and
  -- any of them may die at any point, then the following stays true once it is true: each record is
  -- filed under its job's id, and every job that is provisioning, or pending with its provision
  -- message sent, and whose deletion has not begun, has a provision message that is not acked. At
  -- first no process runs; no call hands over a message that another process has at hand, or one
  -- about a job that another process is about, unless that job's deletion has begun; and an id that
  -- is drawn was not given out, and no other process is about it. Here the store keeps what it is
  -- given and no write fails, the queue holds a message from its enqueueing to its ack, and the other
  -- services, the clock and the contexts touch neither jobs nor messages.
  pub Reach-IsKept :
      (a b : State W)
      → Reach s (IsExclusive s) a b
      → IsAtRest a
      → IsKept s Held sound a.ledger a.world
      → IsKept s Held sound b.ledger b.world
  Reach-IsKept a b r rest v = (Reach-IsOrderly a b r (rest-IsOrderly a rest v)).kept
