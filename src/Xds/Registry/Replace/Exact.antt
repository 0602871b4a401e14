-- ===== src/Xds/Registry/Replace/Exact.antt =====
-- internal/xds/registry.go: `ReplaceAll` as a whole.
use infraforge.Base.{
  ℕ, ◌≡◌, ◌≢◌, true, false, Text, List, [], ◌∷◌, arith, none, text_eq_iff, text_eq_refl,
  if◌then◌else◌, contains, inl, inr, Bool-cases, ◌↔◌,
}
use infraforge.Base.Dict
use infraforge.Base.Dict.{Dict}
use infraforge.Xds.Envoy.{SnapshotCache}
use infraforge.Xds.Registry.{
  Endpoint, endpoint_key, Registry, build_locked, equal_locked, services_of, replace_all,
}
use infraforge.Xds.Registry.Key.{endpoint_key-injective}
use infraforge.Xds.Registry.View.{registered, IsValid}
use infraforge.Xds.Registry.Replace.{
  wanted, endpoint_keys, IsDesired, registered-services_of, services_of-IsValid,
}
use infraforge.Xds.Registry.Replace.Equal.{NodupLists, equal_locked_sound}
use infraforge.Xds.Registry.Replace.Complete.{equal_locked_complete}

module _ {C : Type 0} (cache : SnapshotCache C) where
  -- The services after a call, by the outcome of the comparison.
  services-replace_all :
      (unix : ℕ) (desired : Dict (List Endpoint)) (r : Registry) (c : C)
      → (replace_all cache unix desired (r, c)).1.0.services
        ≡ (if equal_locked r.services desired then r.services else services_of desired [])
  unfolding replace_all build_locked
  services-replace_all unix desired r c = ground arith

  changed-replace_all :
      (unix : ℕ) (desired : Dict (List Endpoint)) (r : Registry) (c : C)
      → (replace_all cache unix desired (r, c)).0.changed
        ≡ (if equal_locked r.services desired then false else true)
  unfolding replace_all
  changed-replace_all unix desired r c = ground arith

  -- `ReplaceAll` keeps the registry well formed.
  pub replace_all-IsValid :
      (unix : ℕ) (desired : Dict (List Endpoint)) (r : Registry) (c : C)
      → IsDesired desired
      → IsValid r.services
      → IsValid (replace_all cache unix desired (r, c)).1.0.services
  replace_all-IsValid unix desired r c d v =
      rw services-replace_all (elim (Bool-cases (equal_locked r.services desired)) [
        | inl same ↦ rw same v
        | inr differ ↦ rw differ (services_of-IsValid desired d)
      ])

  -- Whatever a well-formed registry held before and whether or not the push succeeds, it holds
  -- exactly the desired pairs after `ReplaceAll`, if no desired list names an endpoint twice and none
  -- is empty.
  pub registered-replace_all :
      (unix : ℕ) (desired : Dict (List Endpoint)) (r : Registry) (c : C) (svc : Text) (e : Endpoint)
      → IsValid r.services
      → IsDesired desired
      → NodupLists desired
      → registered (replace_all cache unix desired (r, c)).1.0.services svc e ≡ wanted desired svc e
  registered-replace_all unix desired r c svc e v d distinct =
      rw services-replace_all (elim (Bool-cases (equal_locked r.services desired)) [
        | inl same ↦ rw same (equal_locked_sound r.services desired d v distinct svc e same)
        | inr differ ↦ rw differ (registered-services_of desired svc e d.nodup)
      ])

  -- `ReplaceAll` reports no change exactly when the registry, well formed, held the desired pairs
  -- already, if no desired list names an endpoint twice and none is empty.
  pub replace_all-unchanged_iff :
      (unix : ℕ) (desired : Dict (List Endpoint)) (r : Registry) (c : C)
      → IsValid r.services
      → IsDesired desired
      → NodupLists desired
      → ((replace_all cache unix desired (r, c)).0.changed ≡ false)
        ↔ ((svc : Text) (e : Endpoint) → registered r.services svc e ≡ wanted desired svc e)
  replace_all-unchanged_iff unix desired r c v d distinct = (
    λ h svc e.
        equal_locked_sound r.services desired d v distinct svc e
          (ground (arith, changed-replace_all unix desired r c)),
    λ same. ground (
      arith,
      changed-replace_all unix desired r c,
      equal_locked_complete r.services desired v d same distinct,
    ),
  )

  pub unchanged :
      (unix : ℕ) (desired : Dict (List Endpoint)) (r : Registry) (c : C)
      → equal_locked r.services desired ≡ true
      → replace_all cache unix desired (r, c) ≡ (record { changed = false; failure = none }, (r, c))
  unfolding replace_all
  unchanged unix desired r c h = ground arith

  -- A second call of `ReplaceAll` with the same desired lists, none empty and none naming an endpoint
  -- twice, reports no change and leaves registry, version and cache as they are.
  pub replace_all-replace_all :
      (unix unix' : ℕ) (desired : Dict (List Endpoint)) (r : Registry) (c : C)
      → IsValid r.services
      → IsDesired desired
      → NodupLists desired
      → let p = (replace_all cache unix desired (r, c)).1 in
        replace_all cache unix' desired p ≡ (record { changed = false; failure = none }, p)
  replace_all-replace_all unix unix' desired r c v d distinct =
      let p = (replace_all cache unix desired (r, c)).1 in
      unchanged unix' desired p.0 p.1 (
        equal_locked_complete p.0.services desired (replace_all-IsValid unix desired r c d v) d
          (λ svc e. registered-replace_all unix desired r c svc e v d distinct) distinct)

  equal_of_unchanged :
      (unix : ℕ) (desired : Dict (List Endpoint)) (r : Registry) (c : C)
      → (replace_all cache unix desired (r, c)).0.changed ≡ false
      → equal_locked r.services desired ≡ true
  equal_of_unchanged unix desired r c h = ground (arith, changed-replace_all unix desired r c)

  -- Take a desired map for which `ReplaceAll` reports no change, whose first list names `a`, then `b`,
  -- then others, with `b` once. For the map that names `a` in the place of `b`, so that it has `a`
  -- twice and no `b`, it reports no change either and changes nothing: `b`, which is not wanted, stays
  -- registered.
  pub replace_all_blind :
      (unix : ℕ) (svc : Text) (a b : Endpoint) (others : List Endpoint)
      (rest : Dict (List Endpoint)) (r : Registry) (c : C)
      → a ≢ b
      → contains (endpoint_keys others) (endpoint_key b) ≡ false
      → (replace_all cache unix ((svc, a ∷ b ∷ others) ∷ rest) (r, c)).0.changed ≡ false
      → let doubled : Dict (List Endpoint) = (svc, a ∷ a ∷ others) ∷ rest in
        (replace_all cache unix doubled (r, c)
          ≡ (record { changed = false; failure = none }, (r, c)))
        × (registered r.services svc b ≡ true)
        × (wanted doubled svc b ≡ false)
  unfolding registered wanted equal_locked Dict.lookup
  replace_all_blind unix svc a b others rest r c differ once same =
      let equal = equal_of_unchanged unix ((svc, a ∷ b ∷ others) ∷ rest) r c same in
      (
        unchanged unix ((svc, a ∷ a ∷ others) ∷ rest) r c (ground (arith, equal)),
        ground (arith, equal),
        ground (
          arith,
          once,
          text_eq_refl svc,
          text_eq_iff (endpoint_key a) (endpoint_key b),
          endpoint_key-injective a b,
        ),
      )
