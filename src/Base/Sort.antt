-- ===== src/Base/Sort.antt =====
-- Go's `sort.Slice` and `sort.Strings`, as an insertion sort. Ties keep their order here; the
-- theorems about sorted lists do not depend on it.
use mathlib.Core.Path.{◌≡◌, refl, ◌∙◌}
use mathlib.Core.Logic.{◌⊎◌, inl, inr}
use mathlib.Core.Bool.{Bool, true, false}
use mathlib.Core.List.{List, [], ◌∷◌, Perm}
use mathlib.Core.List.Perm
use native.Mathlib.Omega.{arith}
use infraforge.Base.Tests.{if◌then◌else◌, Bool-cases}
use infraforge.Base.Lists.{All, contains, NodupTexts, count_if, Among}
use infraforge.Base.Strings.{
  Text, text_eq_iff, text_leb, text_leb-total, text_leb_trans, text_leb_antisymm,
}

module _ {ℓ} {A : Type ℓ} (le : A → A → Bool) where
  unfoldable pub insert_sorted : A → List A → List A
  insert_sorted x [] = x ∷ []
  insert_sorted x (y ∷ ys) = if le x y then x ∷ y ∷ ys else y ∷ insert_sorted x ys

  unfoldable pub sort_by : List A → List A
  unfolding insert_sorted
  sort_by [] = []
  sort_by (x ∷ xs) = insert_sorted x (sort_by xs)

  -- Each element comes before all that follow it.
  abbrev pub IsSorted : List A → Type 0
  IsSorted [] = Unit
  IsSorted (x ∷ xs) = All (λ y. le x y ≡ true) xs × IsSorted xs

  count_if-insert_sorted :
      (p : A → Bool) (x : A) (ys : List A) → count_if p (insert_sorted x ys) ≡ count_if p (x ∷ ys)
  unfolding insert_sorted
  count_if-insert_sorted p x [] = refl
  count_if-insert_sorted p x (y ∷ ys) = ground (arith, count_if-insert_sorted p x ys)

  pub count_if-sort_by : (p : A → Bool) (xs : List A) → count_if p (sort_by xs) ≡ count_if p xs
  unfolding sort_by
  count_if-sort_by p [] = refl
  count_if-sort_by p (x ∷ xs) =
      ground (arith, count_if-insert_sorted p x (sort_by xs), count_if-sort_by p xs)

  insert_sorted-perm : (x : A) (ys : List A) → Perm (insert_sorted x ys) (x ∷ ys)
  unfolding insert_sorted
  insert_sorted-perm x [] = Perm.refl _
  insert_sorted-perm x (y ∷ ys) = elim (Bool-cases (le x y)) [
    | inl h ↦ rw h (Perm.refl _)
    | inr h ↦ rw h (Perm.trans (Perm.cons y (insert_sorted-perm x ys)) (Perm.swap x y ys))
  ]

  -- Sorting only reorders.
  pub sort_by-perm : (xs : List A) → Perm (sort_by xs) xs
  unfolding sort_by
  sort_by-perm [] = Perm.refl []
  sort_by-perm (x ∷ xs) =
      Perm.trans (insert_sorted-perm x (sort_by xs)) (Perm.cons x (sort_by-perm xs))

module _ {ℓ} {A : Type ℓ} (le : A → A → Bool)
    (total : (a b : A) → (le a b ≡ true) ⊎ (le b a ≡ true))
    (trans : (a b c : A) → le a b ≡ true → le b c ≡ true → le a c ≡ true) where
  All-le_trans :
      (x y : A) (ys : List A)
      → le x y ≡ true
      → All (λ z. le y z ≡ true) ys
      → All (λ z. le x z ≡ true) ys
  All-le_trans x y [] h all = tt
  All-le_trans x y (z ∷ ys) h all = (trans x y z h all.0, All-le_trans x y ys h all.1)

  All-insert_sorted :
      (x y : A) (ys : List A)
      → le y x ≡ true
      → All (λ z. le y z ≡ true) ys
      → All (λ z. le y z ≡ true) (insert_sorted le x ys)
  unfolding insert_sorted
  All-insert_sorted x y [] h all = (h, tt)
  All-insert_sorted x y (z ∷ ys) h all = elim (Bool-cases (le x z)) [
    | inl e ↦ rw e (h, all)
    | inr e ↦ rw e (all.0, All-insert_sorted x y ys h all.1)
  ]

  insert_sorted-IsSorted :
      (x : A) (ys : List A) → IsSorted le ys → IsSorted le (insert_sorted le x ys)
  unfolding insert_sorted
  insert_sorted-IsSorted x [] s = (tt, tt)
  insert_sorted-IsSorted x (y ∷ ys) s = elim (Bool-cases (le x y)) [
    | inl e ↦ rw e ((e, All-le_trans x y ys e s.0), s)
    | inr e ↦
        rw e (
          All-insert_sorted x y ys (ground (arith, total x y)) s.0,
          insert_sorted-IsSorted x ys s.1,
        )
  ]

  pub sort_by-IsSorted : (xs : List A) → IsSorted le (sort_by le xs)
  unfolding sort_by
  sort_by-IsSorted [] = tt
  sort_by-IsSorted (x ∷ xs) = insert_sorted-IsSorted x (sort_by le xs) (sort_by-IsSorted xs)

-- `sort.Strings`
unfoldable pub sort_texts : List Text → List Text
unfolding sort_by
sort_texts = sort_by text_leb

pub sort_texts-IsSorted : (xs : List Text) → IsSorted text_leb (sort_texts xs)
unfolding sort_texts
sort_texts-IsSorted = sort_by-IsSorted text_leb text_leb-total text_leb_trans

contains-insert_sorted :
    (x : Text) (ys : List Text) (k : Text)
    → contains (insert_sorted text_leb x ys) k ≡ contains (x ∷ ys) k
unfolding insert_sorted
contains-insert_sorted x [] k = refl
contains-insert_sorted x (y ∷ ys) k = ground (arith, contains-insert_sorted x ys k)

pub contains-sort_texts : (xs : List Text) (k : Text) → contains (sort_texts xs) k ≡ contains xs k
unfolding sort_texts
contains-sort_texts [] k = refl
contains-sort_texts (x ∷ xs) k =
    ground (arith, contains-insert_sorted x (sort_by text_leb xs) k, contains-sort_texts xs k)

insert_sorted-NodupTexts :
    (x : Text) (ys : List Text)
    → contains ys x ≡ false
    → NodupTexts ys
    → NodupTexts (insert_sorted text_leb x ys)
unfolding insert_sorted
insert_sorted-NodupTexts x [] h n = (refl, tt)
insert_sorted-NodupTexts x (y ∷ ys) h n = ground (
  arith,
  insert_sorted-NodupTexts x ys (ground arith) n.1,
  contains-insert_sorted x ys y,
  text_eq_iff x y,
  text_eq_iff y x,
)

pub sort_texts-NodupTexts : (xs : List Text) → NodupTexts xs → NodupTexts (sort_texts xs)
unfolding sort_texts
sort_texts-NodupTexts [] n = tt
sort_texts-NodupTexts (x ∷ xs) n =
    insert_sorted-NodupTexts x (sort_by text_leb xs) (contains-sort_texts xs x ∙ n.0)
      (sort_texts-NodupTexts xs n.1)

All-contains :
    (x y : Text) (ys : List Text)
    → All (λ z. text_leb x z ≡ true) ys
    → contains ys y ≡ true
    → text_leb x y ≡ true
All-contains x y [] a h = cc
All-contains x y (z ∷ ys) a h = ground (arith, text_eq_iff z y, All-contains x y ys a.1)

-- A sorted list without repetitions is fixed by its members.
pub sorted_unique :
    (xs ys : List Text)
    → IsSorted text_leb xs
    → IsSorted text_leb ys
    → NodupTexts xs
    → NodupTexts ys
    → ((k : Text) → contains xs k ≡ contains ys k)
    → xs ≡ ys
sorted_unique [] [] sx sy nx ny same = refl
sorted_unique [] (y ∷ ys) sx sy nx ny same = ground (arith, same y, text_eq_iff y y)
sorted_unique (x ∷ xs) [] sx sy nx ny same = ground (arith, same x, text_eq_iff x x)
sorted_unique (x ∷ xs) (y ∷ ys) sx sy nx ny same =
    let heads : x ≡ y = ground (
      arith,
      same x,
      same y,
      text_eq_iff x x,
      text_eq_iff y y,
      text_eq_iff x y,
      text_eq_iff y x,
      All-contains x y xs sx.0,
      All-contains y x ys sy.0,
      text_leb_antisymm x y,
    ) in
    let tails : xs ≡ ys =
      sorted_unique xs ys sx.1 sy.1 nx.1 ny.1
        λ k. ground (arith, same k, text_eq_iff x k, text_eq_iff y k) in
    cc

module _ {A : Type 0} (le : A → A → Bool) where
  Among-insert_sorted : (x z : A) (ys : List A) → Among (x ∷ ys) z → Among (insert_sorted le x ys) z
  unfolding insert_sorted
  Among-insert_sorted x z [] h = h
  Among-insert_sorted x z (y ∷ ys) h = ground (arith, Among-insert_sorted x z ys)

  pub Among-sort_by : (xs : List A) (z : A) → Among xs z → Among (sort_by le xs) z
  unfolding sort_by
  Among-sort_by [] z h = absurd h
  Among-sort_by (x ∷ xs) z (inl e) = Among-insert_sorted x z (sort_by le xs) (inl e)
  Among-sort_by (x ∷ xs) z (inr a) =
      Among-insert_sorted x z (sort_by le xs) (inr (Among-sort_by xs z a))
