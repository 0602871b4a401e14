-- ===== src/Xds/Interleaving.antt =====
-- internal/xds/registry.go: concurrent calls of the registry. A method holds the lock while it
-- changes the registry and builds the snapshot, and pushes the snapshot after it has let go of the
-- lock, so pushes may come in any order. A `ReplaceAll` is that of the reconciler, for a job list.
use infraforge.Base.{
  ℕ, ◌≡◌, refl, ◌∙◌, true, false, Text, List, [], ◌∷◌, arith, Option, none, some, subst,
  text_eq_refl, inl, inr, Bool-cases,
}
use infraforge.Model.{Job}
use infraforge.Base.Dict
use infraforge.Xds.Envoy.{Snapshot, SnapshotCache, uint32, make_lb_endpoint}
use infraforge.Xds.Registry.Build.Routing.{is_at, routes_to, routes_to-registered, routes_to-apart}
use infraforge.Xds.Registry.{
  Endpoint, endpoint_key, Registry, bucket, build_locked, register_locked, unregister_locked,
  equal_locked, replace_all_locked, push_snapshot,
}
use infraforge.Xds.Registry.View.{registered, IsValid}
use infraforge.Xds.Registry.Methods.{
  registered-register_locked, register_locked-IsValid, unregister_locked-IsValid,
}
use infraforge.Xds.Registry.Replace.{services_of-IsValid}
use infraforge.Xds.Reconciler.{build_desired}
use infraforge.Xds.Reconciler.Desired.{build_desired-IsDesired}

-- The sections under the lock.
pub data Section : Type 0 where
  registering : Text → Endpoint → Section
  unregistering : Text → Endpoint → Section
  rebuilding : Section
  reconciling : List Job → Section

unfoldable pub enter : ℕ → Section → Registry → Option (Snapshot × Registry)
enter unix (registering svc e) r = some (register_locked unix svc e r)
enter unix (unregistering svc e) r = some (unregister_locked unix svc e r)
enter unix rebuilding r = some (build_locked unix r)
enter unix (reconciling jobs) r = replace_all_locked unix (build_desired jobs) r

-- `x` is taken out of the list.
pub data Pick {A : Type 0} (x : A) : List A → List A → Type 0 where
  first : (xs : List A) → Pick x (x ∷ xs) xs
  later : (y : A) {xs ys : List A} → Pick x xs ys → Pick x (y ∷ xs) (y ∷ ys)

module _ (unix : ℕ) (r : Registry) (v : IsValid r.services) where
  abbrev Entered : Option (Snapshot × Registry) → Type 0
  Entered none = Unit
  Entered (some (_, t)) = IsValid t.services

  enter-IsValid : (op : Section) → Entered (enter unix op r)
  unfolding enter build_locked replace_all_locked
  enter-IsValid (registering svc e) = register_locked-IsValid unix svc e r v
  enter-IsValid (unregistering svc e) = unregister_locked-IsValid unix svc e r v
  enter-IsValid rebuilding = v
  enter-IsValid (reconciling jobs) =
      elim (Bool-cases (equal_locked r.services (build_desired jobs))) [
        | inl same ↦ rw (same, replace_all_locked) tt
        | inr differ ↦
            rw (differ, replace_all_locked)
              (services_of-IsValid (build_desired jobs) (build_desired-IsDesired jobs))
      ]

-- The registry of which `Register` builds the snapshot.
abbrev with_endpoint : Text → Endpoint → Registry → Registry
with_endpoint svc e r = record r {
  services = Dict.insert svc (Dict.insert (endpoint_key e) e (bucket svc r.services)) r.services;
}

own_registered :
    (unix : ℕ) (svc : Text) (e : Endpoint) (r : Registry)
    → registered (register_locked unix svc e r).1.services svc e ≡ true
own_registered unix svc e r =
    registered-register_locked unix svc svc e e r
    ∙ ground (arith, text_eq_refl svc, text_eq_refl (endpoint_key e))

routes_to-register :
    (unix : ℕ) (svc : Text) (e : Endpoint) (r : Registry)
    → IsValid r.services
    → routes_to svc e (register_locked unix svc e r).0 ≡ true
unfolding register_locked build_locked
routes_to-register unix svc e r v =
    routes_to-registered unix (with_endpoint svc e r) svc e (register_locked-IsValid unix svc e r v)
      (own_registered unix svc e r)

routes_to-register_apart :
    (unix : ℕ) (svc svc' : Text) (e e' : Endpoint) (r : Registry)
    → IsValid r.services
    → ((d : Endpoint)
        → registered (register_locked unix svc e r).1.services svc' d ≡ true
        → is_at e' (make_lb_endpoint d.host (uint32 d.port)) ≡ false)
    → routes_to svc' e' (register_locked unix svc e r).0 ≡ false
unfolding register_locked build_locked
routes_to-register_apart unix svc svc' e e' r v apart =
    routes_to-apart unix (with_endpoint svc e r) svc' e' (register_locked-IsValid unix svc e r v)
      apart

module _ {C : Type 0} (cache : SnapshotCache C) where
  -- `pushing` has the snapshots of the calls that are past the lock and have not pushed yet.
  abbrev pub System : Type 0
  System = record { registry : Registry; envoy : C; pushing : List Snapshot }

  pub data Step (s t : System) : Type 0 where
    locked :
        (unix : ℕ) (op : Section) (snap : Snapshot) (r : Registry)
        → enter unix op s.registry ≡ some (snap, r)
        → t ≡ record { registry = r; envoy = s.envoy; pushing = snap ∷ s.pushing }
        → Step s t
    pushed :
        (snap : Snapshot) (rest : List Snapshot)
        → Pick snap s.pushing rest
        → t ≡ record {
          registry = s.registry;
          envoy = (push_snapshot cache snap s.envoy).1;
          pushing = rest;
        }
        → Step s t

  pub data Reach (s : System) : System → Type 0 where
    here : Reach s s
    next : {t u : System} → Reach s t → Step t u → Reach s u

  Step-IsValid :
      {s t : System} → Step s t → IsValid s.registry.services → IsValid t.registry.services
  Step-IsValid {s} (locked unix op snap r e p) v =
      rw p (subst (Entered unix s.registry v) e (enter-IsValid unix s.registry v op))
  Step-IsValid (pushed snap rest pick p) v = rw p v

  -- However the calls interleave, a registry that is well formed at the start is well formed at
  -- every moment.
  pub Reach-IsValid :
      {s t : System} → Reach s t → IsValid s.registry.services → IsValid t.registry.services
  Reach-IsValid here v = v
  Reach-IsValid (next r st) v = Step-IsValid st (Reach-IsValid r v)

  -- Two `Register` calls on a well-formed registry may interleave so that, once both have pushed, the
  -- last snapshot that the cache was given is that of the first call. If the second service has no
  -- endpoint at the second one's address after the first call, that snapshot does not route the
  -- second service to the second endpoint, though it is registered, and though the other snapshot,
  -- which was pushed earlier, does.
  pub overtaken_push :
      (unix unix' : ℕ) (svc svc' : Text) (e e' : Endpoint) (s : System)
      → s.pushing ≡ []
      → IsValid s.registry.services
      → ((d : Endpoint)
          → registered (register_locked unix svc e s.registry).1.services svc' d ≡ true
          → is_at e' (make_lb_endpoint d.host (uint32 d.port)) ≡ false)
      → let one = register_locked unix svc e s.registry in
        let two = register_locked unix' svc' e' one.1 in
        (t : System) × Reach s t
        × (t.pushing ≡ [])
        × (t.envoy ≡ (push_snapshot cache one.0 (push_snapshot cache two.0 s.envoy).1).1)
        × (registered t.registry.services svc' e' ≡ true)
        × (routes_to svc' e' one.0 ≡ false)
        × (routes_to svc' e' two.0 ≡ true)
  unfolding enter
  overtaken_push unix unix' svc svc' e e' s idle v apart =
      let one = register_locked unix svc e s.registry in
      let two = register_locked unix' svc' e' one.1 in
      let s1 : System = record { registry = one.1; envoy = s.envoy; pushing = one.0 ∷ s.pushing } in
      let s2 : System = record {
        registry = two.1;
        envoy = s.envoy;
        pushing = two.0 ∷ one.0 ∷ s.pushing;
      } in
      let s3 : System = record {
        registry = two.1;
        envoy = (push_snapshot cache two.0 s.envoy).1;
        pushing = one.0 ∷ s.pushing;
      } in
      let s4 : System = record {
        registry = two.1;
        envoy = (push_snapshot cache one.0 (push_snapshot cache two.0 s.envoy).1).1;
        pushing = s.pushing;
      } in
      (
        s4,
        next {t = s3}
            (next {t = s2}
              (next {t = s1}
                (next {t = s} here (locked unix (registering svc e) one.0 one.1 refl refl))
                (locked unix' (registering svc' e') two.0 two.1 refl refl))
              (pushed two.0 (one.0 ∷ s.pushing) (first (one.0 ∷ s.pushing)) refl))
            (pushed one.0 s.pushing (first s.pushing) refl),
        idle,
        refl,
        own_registered unix' svc' e' one.1,
        routes_to-register_apart unix svc svc' e e' s.registry v apart,
        routes_to-register unix' svc' e' one.1 (register_locked-IsValid unix svc e s.registry v),
      )
