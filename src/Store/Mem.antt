-- ===== src/Store/Mem.antt =====
-- internal/store/store.go: `MemStore`, a map from ids to jobs. Its methods hold the lock from
-- start to end, so each is one step. A caller has the job's value, as with the Redis
-- store, and not the pointer that the map keeps.
use infraforge.Base.{
  Text, txt, Option, none, some, List, [], ◌∷◌, refl, ap, arith, Result, ok, err, GoError,
  err_not_found, text_eq_iff,
}
use infraforge.Base.Dict
use infraforge.Base.Dict.{Dict}
use infraforge.Model.{Job}
use infraforge.Store.{Store, IsLawful}

pub record MemStore : Type 0 where
  pub jobs : Dict Job

unfoldable pub new_mem : MemStore
new_mem = record { jobs = [] }

unfoldable pub put : Job → MemStore → Option GoError × MemStore
put j s = (none, record { jobs = Dict.insert j.id j s.jobs })

-- `ErrNotFound`
unfoldable pub not_found : GoError
unfolding txt
not_found = record { message = txt "job not found"; chain = err_not_found ∷ [] }

abbrev found : Option Job → Result Job
found none = err not_found
found (some j) = ok j

unfoldable pub get : Text → MemStore → Result Job × MemStore
get id s = (found (Dict.lookup id s.jobs), s)

abbrev values : Dict Job → List Job
values [] = []
values ((_, j) ∷ m) = j ∷ values m

unfoldable pub list : MemStore → Result (List Job) × MemStore
list s = (ok (values s.jobs), s)

-- The methods as the interface.
abbrev pub memory_store : Store MemStore
memory_store = record { put = put; get = get; list = list }

-- `MemStore` keeps what clients rely on.
pub memory_store-IsLawful : IsLawful memory_store
unfolding put get
memory_store-IsLawful = record {
  get-put = λ j s h. ap found (Dict.lookup-insert_self j.id j s.jobs);
  get-put_ne =
      λ j k s h. ap found (ground (arith, Dict.lookup-insert j.id k j s.jobs, text_eq_iff j.id k));
  get-get = λ i k s. refl;
}
