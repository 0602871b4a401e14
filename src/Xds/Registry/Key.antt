-- ===== src/Xds/Registry/Key.antt =====
-- internal/xds/registry.go: `endpointKey` tells endpoints apart, whatever the host holds.
use infraforge.Base.{
  ℕ, ◌≡◌, ap, Bool, true, false, Text, [], ◌∷◌, ◌++◌, arith, has_char, show_int, show_int-injective,
  no_colon-show_int, text_eq, text_eq_iff, ◌↔◌,
}
use infraforge.Xds.Registry.{Endpoint, endpoint_key}

has_char-middle : (c : ℕ) (xs ys : Text) → has_char c (xs ++ c ∷ ys) ≡ true
has_char-middle c [] ys = ground arith
has_char-middle c (x ∷ xs) ys = ground (arith, has_char-middle c xs ys)

-- A text splits in one way at the last `c`.
split_last :
    (c : ℕ) (xs ys ds es : Text)
    → has_char c ds ≡ false
    → has_char c es ≡ false
    → xs ++ c ∷ ds ≡ ys ++ c ∷ es
    → (xs ≡ ys) × (ds ≡ es)
split_last c [] [] ds es hd he p = ground arith
split_last c [] (y ∷ ys) ds es hd he p = ground (arith, has_char-middle c ys es)
split_last c (x ∷ xs) [] ds es hd he p = ground (arith, has_char-middle c xs ds)
split_last c (x ∷ xs) (y ∷ ys) ds es hd he p = ground (arith, split_last c xs ys ds es hd he)

-- Two endpoints with one key are one endpoint.
pub endpoint_key-injective : (a b : Endpoint) → endpoint_key a ≡ endpoint_key b → a ≡ b
unfolding endpoint_key
endpoint_key-injective a b p =
    let same =
      split_last b':' a.host b.host (show_int a.port) (show_int b.port) (no_colon-show_int a.port)
        (no_colon-show_int b.port) p in
    ground (arith, same, show_int-injective a.port b.port)

abbrev pub endpoint_eq : Endpoint → Endpoint → Bool
endpoint_eq a b = text_eq (endpoint_key a) (endpoint_key b)

pub endpoint_eq_iff : (a b : Endpoint) → (endpoint_eq a b ≡ true) ↔ (a ≡ b)
endpoint_eq_iff a b = (
  λ h. endpoint_key-injective a b ((text_eq_iff _ _).0 h),
  λ p. (text_eq_iff _ _).1 (ap endpoint_key p),
)
