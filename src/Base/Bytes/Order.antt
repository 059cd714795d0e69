-- ===== src/Base/Bytes/Order.antt =====
-- The byte order of Go strings is a total order, and a prefix is a range of it.
use sloop.Base.{true, false, [], ◌∷◌, ◌++◌, ◌≡◌, refl, arith}
use sloop.Base.Bytes.{Bytes, lt_bytes, le_bytes, has_prefix}

pub lt_bytes_irrefl : (s : Bytes) → lt_bytes s s ≡ false
unfolding lt_bytes
lt_bytes_irrefl [] = refl
lt_bytes_irrefl (x ∷ xs) = ground (arith, lt_bytes_irrefl xs)

pub lt_bytes_trans :
    (s t u : Bytes) → lt_bytes s t ≡ true → lt_bytes t u ≡ true → lt_bytes s u ≡ true
unfolding lt_bytes
lt_bytes_trans s t [] h k = k
lt_bytes_trans s [] (z ∷ zs) h k = cc
lt_bytes_trans [] (y ∷ ys) (z ∷ zs) h k = refl
lt_bytes_trans (x ∷ xs) (y ∷ ys) (z ∷ zs) h k = ground (arith, lt_bytes_trans xs ys zs)

pub lt_bytes_asymm : (s t : Bytes) → lt_bytes s t ≡ true → lt_bytes t s ≡ false
unfolding lt_bytes
lt_bytes_asymm s [] h = cc
lt_bytes_asymm [] (y ∷ ys) h = refl
lt_bytes_asymm (x ∷ xs) (y ∷ ys) h = ground (arith, lt_bytes_asymm xs ys)

-- Two strings of which neither is below the other are equal.
pub lt_bytes_connex : (s t : Bytes) → lt_bytes s t ≡ false → lt_bytes t s ≡ false → s ≡ t
unfolding lt_bytes
lt_bytes_connex [] [] h k = refl
lt_bytes_connex [] (y ∷ ys) h k = cc
lt_bytes_connex (x ∷ xs) [] h k = cc
lt_bytes_connex (x ∷ xs) (y ∷ ys) h k = ground (arith, lt_bytes_connex xs ys)

pub le_bytes_refl : (s : Bytes) → le_bytes s s ≡ true
le_bytes_refl s = ground (arith, lt_bytes_irrefl s)

pub le_bytes_trans :
    (s t u : Bytes) → le_bytes s t ≡ true → le_bytes t u ≡ true → le_bytes s u ≡ true
unfolding lt_bytes
le_bytes_trans [] t u h k = refl
le_bytes_trans (x ∷ xs) [] u h k = cc
le_bytes_trans (x ∷ xs) (y ∷ ys) [] h k = cc
le_bytes_trans (x ∷ xs) (y ∷ ys) (z ∷ zs) h k = ground (arith, le_bytes_trans xs ys zs)

-- A string with a prefix is not below it.
pub le_bytes-has_prefix : (s p : Bytes) → has_prefix s p ≡ true → le_bytes p s ≡ true
unfolding lt_bytes has_prefix
le_bytes-has_prefix [] [] h = refl
le_bytes-has_prefix (x ∷ xs) [] h = refl
le_bytes-has_prefix [] (y ∷ p) h = cc
le_bytes-has_prefix (x ∷ xs) (y ∷ p) h = ground (arith, le_bytes-has_prefix xs p)

-- Past the strings that have the prefix no string has it: the prefix is a range of the order.
pub has_prefix_range :
    (p s t : Bytes)
    → le_bytes p s ≡ true
    → has_prefix s p ≡ false
    → le_bytes s t ≡ true
    → has_prefix t p ≡ false
unfolding lt_bytes has_prefix
has_prefix_range [] s t a b c = absurd (cc)
has_prefix_range (y ∷ p) [] t a b c = absurd (cc)
has_prefix_range (y ∷ p) (x ∷ xs) [] a b c = refl
has_prefix_range (y ∷ p) (x ∷ xs) (z ∷ zs) a b c = ground (arith, has_prefix_range p xs zs)

pub has_prefix-append : (p s : Bytes) → has_prefix (p ++ s) p ≡ true
unfolding has_prefix
has_prefix-append [] s = refl
has_prefix-append (x ∷ p) s = ground (arith, has_prefix-append p s)
