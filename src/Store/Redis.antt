-- ===== src/Store/Redis.antt =====
-- internal/store/redis.go: `RedisStore`, over the Redis client and the JSON encoding of a job.
pub mod Listing
mod Tests
use infraforge.Base.{
  ℕ, zero, suc, ◌==◌, ◌≡◌, ◌≢◌, refl, ap, sym, ◌∙◌, Text, txt, List, [], ◌∷◌, ◌++◌, Option, none,
  some, GoError, Result, ok, err, errors_is, redis_nil, new_error, wrap, if◌then◌else◌, arith,
  Result-cases, inl, inr,
}
use infraforge.Model.{Job}
use infraforge.Store.{Store, IsLawful}
use infraforge.Store.Mem.{not_found}

-- The commands that the code uses. A page of a scan comes with the next cursor.
pub record Redis (W : Type 0) : Type 0 where
  pub set : Text → Text → W → Option GoError × W
  pub get : Text → W → Result Text × W
  pub scan : ℕ → Text → ℕ → W → Result (List Text × ℕ) × W

-- `json.Marshal` and `json.Unmarshal` of a job.
pub record Codec : Type 0 where
  pub marshal : Job → Result Text
  pub unmarshal : Text → Result Job

unfoldable pub job_key_prefix : Text
unfolding txt
job_key_prefix = txt "infraforge:job:"

unfoldable pub job_key : Text → Text
job_key id = job_key_prefix ++ id

module _ {W : Type 0} (redis : Redis W) (codec : Codec) where
  unfoldable pub put : Job → W → Option GoError × W
  unfolding job_key
  put j w = elim (codec.marshal j) [ err e ↦ (some e, w) | ok b ↦ redis.set (job_key j.id) b w ]

  -- The reply of a `GET`: a key that is not there is `ErrNotFound`.
  abbrev pub decoded : Result Text → Result Job
  decoded (err e) = if errors_is e redis_nil then err not_found else err e
  decoded (ok b) = codec.unmarshal b

  unfoldable pub get : Text → W → Result Job × W
  unfolding job_key not_found
  get id w = let (b, w) = redis.get (job_key id) w in (decoded b, w)

  abbrev pub with_job : Text → List Job → Result Job → Result (List Job)
  with_job k jobs (err e) = err (wrap (txt "decode " ++ (k ++ txt ": ")) e [])
  with_job k jobs (ok j) = ok (jobs ++ (j ∷ []))

  -- What a `GET` of a scanned key adds: a key that has gone is skipped.
  abbrev pub added : Text → List Job → Result Text → Result (List Job)
  added k jobs (err e) =
      if errors_is e redis_nil then ok jobs else err (wrap (txt "get " ++ (k ++ txt ": ")) e [])
  added k jobs (ok b) = with_job k jobs (codec.unmarshal b)

  -- The loop over the keys of a page.
  unfoldable pub read_keys : List Text → List Job → W → Result (List Job) × W
  unfolding txt
  read_keys [] jobs w = (ok jobs, w)
  read_keys (k ∷ ks) jobs w =
      let (b, w) = redis.get k w in
      elim (added k jobs b) [ err e ↦ (err e, w) | ok jobs' ↦ read_keys ks jobs' w ]

  -- The loop over the pages, for a number of rounds; `none` if they are used up.
  unfoldable pub scan_from : ℕ → ℕ → List Job → W → Option (Result (List Job) × W)
  unfolding read_keys txt
  scan_from zero cursor jobs w = none
  scan_from (suc rounds) cursor jobs w =
      let (page, w) = redis.scan cursor (job_key_prefix ++ txt "*") 100 w in
      elim page [
        | err e ↦ some (err (wrap (txt "scan: ") e []), w)
        | ok p ↦
            let (read, w) = read_keys p.0 jobs w in
            elim read [
              | err e ↦ some (err e, w)
              | ok jobs' ↦
                  let more = scan_from rounds p.1 jobs' w in
                  if p.1 == 0 then some (ok jobs', w) else more
            ]
      ]

  unfoldable pub list : ℕ → W → Option (Result (List Job) × W)
  unfolding scan_from
  list rounds w = scan_from rounds 0 [] w

  -- `RedisStore` as the interface; a scan that takes more than the rounds is an error here.
  abbrev pub redis_store : ℕ → Store W
  redis_store rounds = record {
    put = put;
    get = get;
    list = λ w. elim (list rounds w) [ some p ↦ p | none ↦ (err (new_error []), w) ];
  }

-- What the code relies on in Redis: a `SET` that reports no error is what `GET` returns, it touches
-- no other key, and a `GET` changes nothing.
pub record IsRedis {W : Type 0} (r : Redis W) : Type 0 where
  pub get-set : (k v : Text) (w : W) → (r.set k v w).0 ≡ none → (r.get k (r.set k v w).1).0 ≡ ok v
  pub get-set_ne : (k l v : Text) (w : W) → k ≢ l → (r.get l (r.set k v w).1).0 ≡ (r.get l w).0
  pub get-get : (k l : Text) (w : W) → (r.get l (r.get k w).1).0 ≡ (r.get l w).0

-- A job that is encoded is decoded to itself.
abbrev pub IsCodec : Codec → Type 0
IsCodec codec = (j : Job) (b : Text) → codec.marshal j ≡ ok b → codec.unmarshal b ≡ ok j

prefix_cancel : (p s t : Text) → p ++ s ≡ p ++ t → s ≡ t
prefix_cancel [] s t e = e
prefix_cancel (c ∷ p) s t e = prefix_cancel p s t (ground arith)

job_key-injective : (i k : Text) → job_key i ≡ job_key k → i ≡ k
unfolding job_key
job_key-injective i k e = prefix_cancel job_key_prefix i k e

-- `RedisStore` keeps what clients of a store rely on: a write without an error is read back, it
-- touches no other job, and a read changes nothing.
pub redis_store-IsLawful :
    {W : Type 0} (r : Redis W) (codec : Codec) (rounds : ℕ)
    → IsRedis r
    → IsCodec codec
    → IsLawful (redis_store r codec rounds)
unfolding put get
redis_store-IsLawful {W} r codec rounds law coded = record {
  get-put = λ j w h. elim (Result-cases (codec.marshal j)) [
    | inl (e, bad) ↦ absurd (ground (arith, bad))
    | inr (b, good) ↦ ground (arith, good, law.get-set (job_key j.id) b w, coded j b good)
  ];
  get-put_ne = λ j k w ne. elim (Result-cases (codec.marshal j)) [
    | inl (e, bad) ↦ ground (arith, bad)
    | inr (b, good) ↦ ground (
      arith,
      good,
      law.get-set_ne (job_key j.id) (job_key k) b w (λ e. ne (job_key-injective j.id k e)),
    )
  ];
  get-get = λ i k w. ground (arith, law.get-get (job_key i) (job_key k) w);
}
