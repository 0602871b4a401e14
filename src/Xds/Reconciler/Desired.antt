-- ===== src/Xds/Reconciler/Desired.antt =====
-- internal/xds/reconciler.go: `buildDesired` asks for exactly the endpoints of the ready jobs.
use infraforge.Base.{
  ℕ, ◌+◌, ◌≤◌, ◌≡◌, ◌≢◌, refl, ◌∙◌, Bool, true, false, ◌&&◌, ◌||◌, Text, List, [], ◌∷◌, ◌++◌, arith,
  Option, none, some, text_eq, text_eq_iff, if◌then◌else◌, inl, inr, Bool-cases, contains,
  NodupTexts, count_if,
}
use infraforge.Base.Dict
use infraforge.Base.Dict.{Dict, NodupKeys, lookup-insert, insert-NodupKeys, lookup-absent}
use infraforge.Model.{Job, HttpEndpoint, ready, same_status}
use infraforge.Xds.Registry.{Endpoint, endpoint_key}
use infraforge.Xds.Registry.Replace.{endpoint_keys, list_or_empty, wanted, IsDesired}
use infraforge.Xds.Registry.Replace.Equal.{NodupLists}
use infraforge.Xds.Reconciler.{append_endpoint, add_job, build_desired_onto, build_desired, list_at}

abbrev has_endpoint : Option HttpEndpoint → Endpoint → Bool
has_endpoint none e = false
has_endpoint (some h) e =
    text_eq (endpoint_key (record { host = h.host; port = h.port })) (endpoint_key e)

-- The job is ready and reaches the service at the endpoint.
abbrev pub serves : Text → Endpoint → Job → Bool
serves svc e j = same_status j.status ready && text_eq j.service_name svc && has_endpoint j.http e

-- Some job of the inventory serves it.
abbrev pub served : List Job → Text → Endpoint → Bool
served [] svc e = false
served (j ∷ jobs) svc e = serves svc e j || served jobs svc e

-- No two jobs serve one endpoint of one service.
abbrev pub DistinctEndpoints : List Job → Type 0
DistinctEndpoints jobs = (svc : Text) (e : Endpoint) → count_if (serves svc e) jobs ≤ 1

contains-snoc :
    (l : List Endpoint) (e : Endpoint) (k : Text)
    → contains (endpoint_keys (l ++ (e ∷ []))) k
      ≡ (contains (endpoint_keys l) k || text_eq (endpoint_key e) k)
contains-snoc [] e k = ground arith
contains-snoc (d ∷ l) e k = ground (arith, contains-snoc l e k)

wanted-add_job :
    (j : Job) (o : Option HttpEndpoint) (out : Dict (List Endpoint)) (svc : Text) (e : Endpoint)
    → wanted (add_job j o out) svc e ≡ (
        wanted out svc e
        || (same_status j.status ready && text_eq j.service_name svc && has_endpoint o e))
unfolding wanted add_job
wanted-add_job j none out svc e = ground arith
wanted-add_job j (some h) out svc e =
    let d : Endpoint = record { host = h.host; port = h.port } in
    let old = list_at (Dict.lookup j.service_name out) in
    elim (Bool-cases (same_status j.status ready)) [
      | inl up ↦ rw up (
          ground (
            arith,
            lookup-insert j.service_name svc (old ++ (d ∷ [])) out,
            text_eq_iff j.service_name svc,
            contains-snoc old d (endpoint_key e),
          ))
      | inr down ↦ rw down (ground arith)
    ]

wanted-build_desired_onto :
    (out : Dict (List Endpoint)) (jobs : List Job) (svc : Text) (e : Endpoint)
    → wanted (build_desired_onto out jobs) svc e ≡ (wanted out svc e || served jobs svc e)
unfolding build_desired_onto
wanted-build_desired_onto out [] svc e = ground arith
wanted-build_desired_onto out (j ∷ jobs) svc e = ground (
  arith,
  wanted-build_desired_onto (add_job j j.http out) jobs svc e,
  wanted-add_job j j.http out svc e,
)

nothing : (svc : Text) (e : Endpoint) (b : Bool) → (wanted [] svc e || b) ≡ b
unfolding wanted Dict.lookup
nothing svc e b = refl

-- An endpoint is desired for a service exactly if some ready job of the inventory serves it.
pub wanted-build_desired :
    (jobs : List Job) (svc : Text) (e : Endpoint)
    → wanted (build_desired jobs) svc e ≡ served jobs svc e
unfolding build_desired
wanted-build_desired jobs svc e =
    wanted-build_desired_onto [] jobs svc e ∙ nothing svc e (served jobs svc e)

append-ne-nil {ℓ} : {A : Type ℓ} (l : List A) (a : A) → l ++ (a ∷ []) ≢ []
append-ne-nil [] a = λ e. cc
append-ne-nil (b ∷ l) a = λ e. cc

append_endpoint-IsDesired :
    (svc : Text) (e : Endpoint) (out : Dict (List Endpoint))
    → IsDesired out
    → IsDesired (append_endpoint svc e out)
unfolding append_endpoint
append_endpoint-IsDesired svc e out d =
    let old = list_at (Dict.lookup svc out) in
    record {
      nodup = insert-NodupKeys svc (old ++ (e ∷ [])) out d.nodup;
      nonempty = λ j l p.
          ground
            (arith, lookup-insert svc j (old ++ (e ∷ [])) out, d.nonempty j l, append-ne-nil old e);
    }

add_job-IsDesired :
    (j : Job) (o : Option HttpEndpoint) (out : Dict (List Endpoint))
    → IsDesired out
    → IsDesired (add_job j o out)
unfolding add_job
add_job-IsDesired j none out d = d
add_job-IsDesired j (some h) out d = elim (Bool-cases (same_status j.status ready)) [
  | inl up ↦
      rw up
        (append_endpoint-IsDesired j.service_name (record { host = h.host; port = h.port }) out d)
  | inr down ↦ rw down d
]

build_desired_onto-IsDesired :
    (out : Dict (List Endpoint)) (jobs : List Job)
    → IsDesired out
    → IsDesired (build_desired_onto out jobs)
unfolding build_desired_onto
build_desired_onto-IsDesired out [] d = d
build_desired_onto-IsDesired out (j ∷ jobs) d =
    build_desired_onto-IsDesired (add_job j j.http out) jobs (add_job-IsDesired j j.http out d)

pub build_desired-IsDesired : (jobs : List Job) → IsDesired (build_desired jobs)
unfolding build_desired Dict.lookup
build_desired-IsDesired jobs =
    build_desired_onto-IsDesired [] jobs (record { nodup = tt; nonempty = λ svc l p. cc })

abbrev occurs : Text → List Text → ℕ
occurs k = count_if (λ t. text_eq t k)

-- How often the map asks for the endpoint.
demand : Dict (List Endpoint) → Text → Endpoint → ℕ
demand out svc e = occurs (endpoint_key e) (endpoint_keys (list_or_empty (Dict.lookup svc out)))

occurs-snoc :
    (l : List Endpoint) (e : Endpoint) (k : Text)
    → occurs k (endpoint_keys (l ++ (e ∷ [])))
      ≡ occurs k (endpoint_keys l) + (if text_eq (endpoint_key e) k then 1 else 0)
occurs-snoc [] e k = ground arith
occurs-snoc (d ∷ l) e k = ground (arith, occurs-snoc l e k)

demand-add_job :
    (j : Job) (o : Option HttpEndpoint) (out : Dict (List Endpoint)) (svc : Text) (e : Endpoint)
    → demand (add_job j o out) svc e
      ≡ demand out svc e
        + (if same_status j.status ready && text_eq j.service_name svc && has_endpoint o e
            then 1
            else 0)
unfolding demand add_job
demand-add_job j none out svc e = ground arith
demand-add_job j (some h) out svc e =
    let d : Endpoint = record { host = h.host; port = h.port } in
    let old = list_at (Dict.lookup j.service_name out) in
    elim (Bool-cases (same_status j.status ready)) [
      | inl up ↦ rw up (
          ground (
            arith,
            lookup-insert j.service_name svc (old ++ (d ∷ [])) out,
            text_eq_iff j.service_name svc,
            occurs-snoc old d (endpoint_key e),
          ))
      | inr down ↦ rw down (ground arith)
    ]

demand-build_desired_onto :
    (out : Dict (List Endpoint)) (jobs : List Job) (svc : Text) (e : Endpoint)
    → demand (build_desired_onto out jobs) svc e ≡ demand out svc e + count_if (serves svc e) jobs
unfolding build_desired_onto
demand-build_desired_onto out [] svc e = omega arith
demand-build_desired_onto out (j ∷ jobs) svc e = omega (
  arith,
  demand-build_desired_onto (add_job j j.http out) jobs svc e,
  demand-add_job j j.http out svc e,
)

occurs-pos : (k : Text) (ks : List Text) → contains ks k ≡ true → 1 ≤ occurs k ks
occurs-pos k [] h = cc
occurs-pos k (j ∷ ks) h = ground (arith, occurs-pos k ks)

occurs-NodupTexts :
    (l : List Endpoint)
    → ((e : Endpoint) → occurs (endpoint_key e) (endpoint_keys l) ≤ 1)
    → NodupTexts (endpoint_keys l)
occurs-NodupTexts [] h = tt
occurs-NodupTexts (e ∷ l) h = (
  ground (
    arith,
    h e,
    occurs-pos (endpoint_key e) (endpoint_keys l),
    text_eq_iff (endpoint_key e) (endpoint_key e),
  ),
  occurs-NodupTexts l (λ d. ground (arith, h d)),
)

demand_at :
    (out : Dict (List Endpoint)) (svc : Text) (e : Endpoint) (l : List Endpoint)
    → Dict.lookup svc out ≡ some l
    → demand out svc e ≡ occurs (endpoint_key e) (endpoint_keys l)
unfolding demand
demand_at out svc e l h = rw h

demand_nil : (svc : Text) (e : Endpoint) → demand [] svc e ≡ 0
unfolding demand Dict.lookup
demand_nil svc e = refl

-- Where no two jobs serve one endpoint of one service, no desired list names an endpoint twice.
pub build_desired-NodupLists :
    (jobs : List Job) → DistinctEndpoints jobs → NodupLists (build_desired jobs)
unfolding build_desired
build_desired-NodupLists jobs distinct svc l h = occurs-NodupTexts l λ e. omega (
  arith,
  distinct svc e,
  demand-build_desired_onto [] jobs svc e,
  demand_nil svc e,
  demand_at (build_desired_onto [] jobs) svc e l h,
)
