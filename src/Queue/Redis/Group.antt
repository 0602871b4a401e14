-- ===== src/Queue/Redis/Group.antt =====
-- internal/queue/queue.go: `RedisQueue` keeps the promises of a stream with a consumer group.
use infraforge.Base.{
  pos, ltb_ℤ, ◌≡◌, ◌≢◌, refl, sym, ap, ◌∙◌, subst, txt, Text, List, [], ℤ, none, some, Result, ok,
  err, All, arith, map, if◌then◌else◌,
}
use infraforge.Queue.{Message, Action}
use infraforge.Queue.Group.{IsApart, IsGroup}
use infraforge.Queue.Redis.{
  Entry, Streams, stream_key, group, message_from, enqueue, dequeue, reclaim, ack, dead_letter,
  list_dead, redis_queue, enqueued_values, first_message, dead_values, dead_stream_key,
  dead_stream_max_len,
}
use infraforge.Queue.Redis.Roundtrip.{stored, message_from-enqueued}
use infraforge.Queue.Redis.Laws.{IsStreams, HeldIn}
use infraforge.Queue.Redis.Entries.{
  dequeue_world, reclaim_world, list_dead_world, message_from_id, some_answer, same_answer,
  named_action, IsApart-map, held_map, held_first, no_message,
}

dead-ne-live : dead_stream_key ≢ stream_key
unfolding dead_stream_key stream_key txt
dead-ne-live e = cc

module _ {W : Type 0} (r : Streams W) (Pending : Entry → W → Type 0) where
  module _ (laws : (IsStreams r Pending)) where
    held_unique :
        (m n : Message) (w : W)
        → (HeldIn r Pending) m w
        → (HeldIn r Pending) n w
        → m.id ≡ n.id
        → m ≡ n
    held_unique m n w (e, p, em) (f, q, fn) same =
        let ids : e.id ≡ f.id =
          sym ((message_from_id r Pending) e)
          ∙ ap (λ (x : Message). x.id) em
          ∙ same
          ∙ ap (λ (x : Message). x.id) (sym fn)
          ∙ (message_from_id r Pending) f in
        sym em ∙ ap message_from (laws.unique e f w p q ids) ∙ fn

    enqueued_held :
        (job_id : Text) (a : Action) (w : W)
        → a ≢ []
        → (enqueue r job_id a w).0 ≡ none
        → (m : Message) × (HeldIn r Pending) m (enqueue r job_id a w).1
          × (m.job_id ≡ job_id)
          × (m.action ≡ a)
    unfolding enqueue
    enqueued_held job_id a w some_action fine =
        let (e, p, vs) = laws.added (enqueued_values r job_id a) w fine in
        let same : message_from e
            ≡ message_from (record { id = e.id; values = stored (enqueued_values r job_id a) }) =
          ap (λ v. message_from (record { id = e.id; values = v })) vs in
        let is = same ∙ message_from-enqueued r e.id job_id a in
        (
          message_from e,
          (e, p, refl),
          ap (λ (x : Message). x.job_id) is,
          ap (λ (x : Message). x.action) is ∙ (named_action r Pending) a some_action,
        )

    dequeued_held :
        (c : Text) (b : ℤ) (w : W) (m : Message)
        → (dequeue r c b w).0 ≡ ok (some m)
        → (HeldIn r Pending) m (dequeue r c b w).1
    unfolding dequeue
    dequeued_held c b w m = split (read w).0 refl
      where
        read : W → Result (List (List Entry)) × W
        read = r.read_group group c stream_key (txt ">") 1 b

        split :
            (x : Result (List (List Entry)))
            → (read w).0 ≡ x
            → (dequeue r c b w).0 ≡ ok (some m)
            → (HeldIn r Pending) m (dequeue r c b w).1
        split (err e) h = rw (h, dequeue) (λ eq. absurd ((no_message r Pending) e m eq))
        split (ok streams) h =
            rw (h, dequeue)
              (λ eq.
                (held_first r Pending) streams (read w).1 m (laws.delivered c b w streams h)
                  ((some_answer r Pending) (first_message r streams) m eq))

    reclaimed_held :
        (c : Text) (i n : ℤ) (w : W) (ms : List Message)
        → (reclaim r c i n w).0 ≡ ok ms
        → IsApart ms × All (λ m. (HeldIn r Pending) m (reclaim r c i n w).1) ms
    unfolding reclaim
    reclaimed_held c i n w ms = split (claim w).0 refl
      where
        claim : W → Result (List Entry) × W
        claim = r.auto_claim stream_key group c i (txt "0-0") n

        split :
            (x : Result (List Entry))
            → (claim w).0 ≡ x
            → (reclaim r c i n w).0 ≡ ok ms
            → IsApart ms × All (λ m. (HeldIn r Pending) m (reclaim r c i n w).1) ms
        split (err e) h = rw (h, reclaim) (λ eq. absurd (ground (arith, eq)))
        split (ok entries) h =
            rw (h, reclaim)
              (λ eq.
                let (apart, pending) = laws.claimed c i n w entries h in
                subst (λ xs. IsApart xs × All (λ m. (HeldIn r Pending) m (claim w).1) xs)
                  ((same_answer r Pending) (map message_from entries) ms eq)
                  (
                    (IsApart-map r Pending) entries apart,
                    (held_map r Pending) entries (claim w).1 pending,
                  ))

    -- If Redis keeps a stream entry from its addition until it is acknowledged under its id, whatever
    -- is added to that stream without a maximal length or to another stream, gives an id to one entry, and delivers and claims entries that it keeps, a claim with different ids, then
    -- `RedisQueue` does likewise for messages: one that is enqueued with an action is held until its
    -- ack, only held messages are delivered and handed over, and an ack lets go of its own message
    -- only.
    pub redis_queue-IsGroup : IsGroup (redis_queue r) (HeldIn r Pending)
    unfolding enqueue dequeue reclaim ack dead_letter list_dead
    redis_queue-IsGroup = record {
      unique = held_unique;
      enqueued = enqueued_held;
      dequeued = dequeued_held;
      reclaimed = reclaimed_held;
      Held-enqueue =
          λ m job_id a w (e, p, em). (e, laws.Pending-add e (enqueued_values r job_id a) w p, em);
      Held-dequeue = λ m c b w (e, p, em).
          subst ((HeldIn r Pending) m) ((dequeue_world r Pending) c b w)
            (e, laws.Pending-read e c b w p, em);
      Held-reclaim = λ m c i n w (e, p, em).
          subst ((HeldIn r Pending) m) ((reclaim_world r Pending) c i n w)
            (e, laws.Pending-claim e c i n w p, em);
      Held-ack = λ m n w apart (e, p, em). (
        e,
        laws.Pending-ack e n.id w
            (λ same.
              apart (ap (λ (x : Message). x.id) (sym em) ∙ (message_from_id r Pending) e ∙ same))
            p,
        em,
      );
      Held-dead_letter = λ m n d a w (e, p, em). (
        e,
        laws.Pending-add_other e dead_stream_key (some dead_stream_max_len)
            (dead_values r n d a (r.now w).0) (r.now w).1 dead-ne-live (laws.Pending-now e w p),
        em,
      );
      Held-list_dead = λ m n w (e, p, em).
          subst ((HeldIn r Pending) m) ((list_dead_world r Pending) n w) (
            e,
            laws.Pending-range e dead_stream_key (if ltb_ℤ (pos 0) n then n else pos 100) w p,
            em,
          );
    }
