-- ===== src/Store/Redis/Tests.antt =====
-- internal/store/redis.go: a key space kept in memory.
use infraforge.Base.{
  ◌≡◌, refl, ap, Bool, true, false, ◌&&◌, Text, txt, [], ◌∷◌, pos, Option, none, some, GoError,
  Result, ok, err, redis_nil, new_error, if◌then◌else◌, text_eq, text_eq_iff, int_eq, int_eq_iff,
  arith, ◌==◌,
}
use infraforge.Base.Dict
use infraforge.Base.Dict.{Dict, lookup-insert, lookup-insert_self}
use infraforge.Model.{Job, pending, same_status}
use infraforge.Store.{IsLawful}
use infraforge.Store.Redis.{Redis, Codec, IsRedis, IsCodec, redis_store, redis_store-IsLawful, list}
use infraforge.Store.Redis.Listing.{IsStill, last, no_key, job_at, list_complete}

abbrev missing : GoError
missing = record { message = txt "redis: nil"; chain = redis_nil ∷ [] }

abbrev reply : Option Text → Result Text
reply none = err missing
reply (some v) = ok v

abbrev keyspace : Redis (Dict Text)
keyspace = record {
  set = λ k v w. (none, Dict.insert k v w);
  get = λ k w. (reply (Dict.lookup k w), w);
  scan = λ c pattern n w. (ok (Dict.keys w, 0), w);
}

keyspace-IsRedis : IsRedis keyspace
keyspace-IsRedis = record {
  get-set = λ k v w h. ap reply (lookup-insert_self k v w);
  get-set_ne = λ k l v w ne. ap reply (ground (arith, lookup-insert k l v w, text_eq_iff k l));
  get-get = λ k l w. refl;
}

abbrev plain : Text → Job
plain id = record {
  id = id;
  service_name = [];
  resource = [];
  status = pending;
  detail = [];
  attempts = pos 0;
  connection = none;
  http = none;
  created_at = 0;
  updated_at = 0;
}

abbrev is_absent {ℓ} : {A : Type ℓ} → Option A → Bool
is_absent none = true
is_absent (some a) = false

abbrev is_plain : Job → Bool
is_plain j =
    text_eq j.service_name []
    && (text_eq j.resource []
        && (same_status j.status pending
            && (text_eq j.detail []
                && (int_eq j.attempts (pos 0)
                    && (is_absent j.connection
                        && (is_absent j.http && (j.created_at == 0 && j.updated_at == 0)))))))

plain_lem : (j : Job) → is_plain j ≡ true → plain j.id ≡ j
plain_lem j h = ground (
  arith,
  text_eq_iff j.service_name [],
  text_eq_iff j.resource [],
  text_eq_iff j.detail [],
  int_eq_iff j.attempts (pos 0),
)

-- A codec that encodes a job by its id, and no other than plain jobs.
abbrev by_id : Codec
by_id = record {
  marshal = λ j. if is_plain j then ok j.id else err (new_error (txt "unsupported"));
  unmarshal = λ b. ok (plain b);
}

by_id-IsCodec : IsCodec by_id
by_id-IsCodec j b h = ground (arith, plain_lem j)

redis_store-IsLawful_example : IsLawful (redis_store keyspace by_id 1)
redis_store-IsLawful_example = redis_store-IsLawful keyspace by_id 1 keyspace-IsRedis by_id-IsCodec

abbrev one_key : Dict Text
one_key = (txt "infraforge:job:j1", txt "j1") ∷ []

abbrev one_key-IsStill : IsStill keyspace one_key
one_key-IsStill = record {
  value = λ k. reply (Dict.lookup k one_key);
  page = λ c. (Dict.keys one_key, 0);
  get_value = λ k. refl;
  scan_page = λ c. refl;
}

one_key_found : reply (Dict.lookup (txt "infraforge:job:j1") one_key) ≡ ok (txt "j1")
unfolding Dict.lookup txt text_eq
one_key_found = refl

list_complete_example : list keyspace by_id 1 one_key ≡ some (ok (plain (txt "j1") ∷ []), one_key)
list_complete_example =
    list_complete keyspace by_id one_key one_key-IsStill 1 (plain (txt "j1") ∷ []) 1
      (last (job_at one_key_found refl no_key) refl) (omega arith)
