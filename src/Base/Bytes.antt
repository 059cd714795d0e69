-- ===== src/Base/Bytes.antt =====
-- Go strings as lists of bytes: equality, the byte order of `<=` and of package sort, prefixes,
-- `strings.Split` and `strings.Contains`.
pub mod Order
pub mod Split
pub mod Decimal
use Prim.Native.Char.{code}
use sloop.Base.{
  ℕ, String, Bool, true, false, ◌&&◌, ◌||◌, not, List, [], ◌∷◌, ◌++◌, ◌≡◌, refl, ◌↔◌, arith, ltb,
  ◌==◌, if◌then◌else◌,
}

abbrev pub Bytes : Type 0
Bytes = List ℕ

-- The code points of a literal: its bytes, for the ASCII literals of the source.
abbrev pub codes : String → Bytes
codes String.[] = []
codes (String.◌∷◌ c s) = code c ∷ codes s

-- s == t
unfoldable pub eqb : Bytes → Bytes → Bool
eqb [] [] = true
eqb [] (y ∷ ys) = false
eqb (x ∷ xs) [] = false
eqb (x ∷ xs) (y ∷ ys) = x == y && eqb xs ys

-- s < t, byte by byte
unfoldable pub lt_bytes : Bytes → Bytes → Bool
lt_bytes xs [] = false
lt_bytes [] (y ∷ ys) = true
lt_bytes (x ∷ xs) (y ∷ ys) = ltb x y || (x == y && lt_bytes xs ys)

-- s <= t
abbrev pub le_bytes : Bytes → Bytes → Bool
le_bytes s t = not (lt_bytes t s)

-- strings.HasPrefix(s, p), bytes.HasPrefix
unfoldable pub has_prefix : Bytes → Bytes → Bool
has_prefix s [] = true
has_prefix [] (p ∷ ps) = false
has_prefix (x ∷ xs) (p ∷ ps) = x == p && has_prefix xs ps

-- strings.Contains(s, sub)
unfoldable pub contains_bytes : Bytes → Bytes → Bool
contains_bytes [] sub = has_prefix [] sub
contains_bytes (x ∷ xs) sub = has_prefix (x ∷ xs) sub || contains_bytes xs sub

pub eqb_iff : (s t : Bytes) → (eqb s t ≡ true) ↔ (s ≡ t)
unfolding eqb
eqb_iff [] [] = ground arith
eqb_iff [] (y ∷ ys) = ground arith
eqb_iff (x ∷ xs) [] = ground arith
eqb_iff (x ∷ xs) (y ∷ ys) = ground (arith, eqb_iff xs ys)

pub eqb_refl : (s : Bytes) → eqb s s ≡ true
eqb_refl s = (eqb_iff s s).1 refl
