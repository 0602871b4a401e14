-- ===== src/Threads/Effects/Answering.antt =====
-- internal/worker/worker.go, internal/api/api.go: any permitted call.
use infraforge.Base.{ℤ, ◌≡◌, refl, Text}
use infraforge.Queue.{Message}
use infraforge.Worker.Crash.{IsQuiet}
use infraforge.System.Always.{IsSoundSystem}
use infraforge.Calls.{
  Call, put, get, list, enqueue, dequeue, reclaim, ack, dead_letter, list_dead, provision,
  deprovision, register, unregister, read_clock, random, ended, sleep, Reply, Services, answer,
}
use infraforge.Threads.{Mind, Ledger, IsNew}
use infraforge.Threads.Discipline.{Permits}
use infraforge.Threads.Invariant.{IsKept, Fits, IsSafeCall}
use infraforge.Threads.Effects.Writing.{put-IsSafeCall}
use infraforge.Threads.Effects.Acking.{ack-IsSafeCall}
use infraforge.Threads.Effects.Sending.{enqueue-IsSafeCall}
use infraforge.Threads.Effects.Asking.{
  plain-IsSafeCall, get-IsSafeCall, dequeue-IsSafeCall, reclaim-IsSafeCall, random-IsSafeCall,
}

module _ {W : Type 0} (s : Services W) (Held : Message → W → Type 0)
    (sound : IsSoundSystem s.k s.random_bytes s.context Held) (m : Mind) (g : Ledger) (w : W)
    (v : IsKept s Held sound g w) (f : Fits s Held sound m g w) where
  open sound use {worker}

  dead_letter_quiet :
      (n : Message) (d : Text) (a : ℤ) → IsQuiet s.k Held (s.k.queue.dead_letter n d a)
  dead_letter_quiet n d a w = record {
    records = λ id. worker.get-dead_letter id n d a w;
    messages = λ x h. worker.group.Held-dead_letter x n d a w h;
  }

  list_dead_quiet : (n : ℤ) → IsQuiet s.k Held (s.k.queue.list_dead n)
  list_dead_quiet n w = record {
    records = λ id. worker.get-list_dead id n w;
    messages = λ x h. worker.group.Held-list_dead x n w h;
  }

  pub answer-IsSafeCall :
      (c : Call) (r : Reply c)
      → Permits m c
      → IsNew g c r
      → (answer s c w).0 ≡ r
      → IsSafeCall s Held sound m c r g w (answer s c w).1
  answer-IsSafeCall (put j) r p new is = put-IsSafeCall s Held sound m g w v f j p r
  answer-IsSafeCall (get id) r p new is = get-IsSafeCall s Held sound m g w v f id r is
  answer-IsSafeCall list r p new is =
      plain-IsSafeCall s Held sound m g w v f list r worker.list_quiet refl refl tt
  answer-IsSafeCall (enqueue id a) r p new is =
      enqueue-IsSafeCall s Held sound m g w v f id a r p is
  answer-IsSafeCall (dequeue t b) r p new is = dequeue-IsSafeCall s Held sound m g w v f t b r is
  answer-IsSafeCall (reclaim t i n) r p new is =
      reclaim-IsSafeCall s Held sound m g w v f t i n r is
  answer-IsSafeCall (ack msg) r p new is = ack-IsSafeCall s Held sound m g w v f msg p r
  answer-IsSafeCall (dead_letter n d a) r p new is =
      plain-IsSafeCall s Held sound m g w v f (dead_letter n d a) r (dead_letter_quiet n d a) refl
        refl tt
  answer-IsSafeCall (list_dead n) r p new is =
      plain-IsSafeCall s Held sound m g w v f (list_dead n) r (list_dead_quiet n) refl refl tt
  answer-IsSafeCall (provision j) r p new is =
      plain-IsSafeCall s Held sound m g w v f (provision j) r (worker.provision_quiet j) refl refl
        tt
  answer-IsSafeCall (deprovision j) r p new is =
      plain-IsSafeCall s Held sound m g w v f (deprovision j) r (worker.deprovision_quiet j) refl
        refl tt
  answer-IsSafeCall (register n h q) r p new is =
      plain-IsSafeCall s Held sound m g w v f (register n h q) r (worker.register_quiet n h q) refl
        refl tt
  answer-IsSafeCall (unregister n h q) r p new is =
      plain-IsSafeCall s Held sound m g w v f (unregister n h q) r (worker.unregister_quiet n h q)
        refl refl tt
  answer-IsSafeCall read_clock r p new is =
      plain-IsSafeCall s Held sound m g w v f read_clock r worker.now_quiet refl refl tt
  answer-IsSafeCall (random n) r p new is = random-IsSafeCall s Held sound m g w v f n r new
  answer-IsSafeCall (ended t) r p new is =
      plain-IsSafeCall s Held sound m g w v f (ended t) r (sound.context_quiet t).ended_quiet refl
        refl tt
  answer-IsSafeCall (sleep t n) r p new is =
      plain-IsSafeCall s Held sound m g w v f (sleep t n) r ((sound.context_quiet t).sleep_quiet n)
        refl refl tt
