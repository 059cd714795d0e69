-- ===== src/Base/Bytes/Decimal.antt =====
-- `fmt.Sprintf("%0wd", n)` and `strconv.ParseInt(s, 10, 64)`.
pub mod Laws
use sloop.Base.{
  ℕ, zero, suc, ◌+◌, ◌-◌, ◌*◌, ◌/◌, ◌%◌, ◌^◌, Bool, true, false, ◌&&◌, ◌||◌, List, [], ◌∷◌, ◌++◌,
  ◌≡◌, refl, Option, none, some, arith, ltb, leb, ◌==◌, if◌then◌else◌, length, replicate,
}
use sloop.Base.Int.{ℤ, pos, negsuc}
use sloop.Base.Bytes.{Bytes, codes}

-- The digits of `n` in front of `out`, with fuel for the digits that are left.
unfoldable pub emit : ℕ → ℕ → Bytes → Bytes
emit zero n out = out
emit (suc f) n out =
    let rest = emit f (n / 10) ((b'0' + n % 10) ∷ out) in
    if ltb n 10 then (b'0' + n) ∷ out else rest

-- A uint64 has at most 20 digits.
unfoldable pub format_uint : ℕ → Bytes
unfolding emit
format_uint n = emit 20 n []

-- fmt.Sprintf("%d", n) for an int64
unfoldable pub format_int : ℤ → Bytes
unfolding format_uint
format_int (pos n) = format_uint n
format_int (negsuc n) = b'-' ∷ format_uint (suc n)

-- fmt.Sprintf("%0wd", n): zeros in front, up to the width
unfoldable pub format_padded : ℕ → ℕ → Bytes
unfolding format_uint
format_padded w n = let s = format_uint n in replicate (w - length s) b'0' ++ s

unfoldable pub scan : Bytes → ℕ → Option ℕ
scan [] n = some n
scan (c ∷ s) n = if leb b'0' c && leb c b'9' then scan s (n * 10 + (c - b'0')) else none

-- Digits, one at least, of a number below `2 ^ 64`.
unfoldable pub parse_uint : Bytes → Option ℕ
unfolding scan
parse_uint [] = none
parse_uint (c ∷ s) = elim (scan (c ∷ s) 0) [
  | none ↦ none
  | some n ↦ if ltb n (2 ^ 64) then some n else none
]

abbrev pub in_int64_pos : Option ℕ → Option ℤ
in_int64_pos none = none
in_int64_pos (some n) = if ltb n (2 ^ 63) then some (pos n) else none

abbrev pub in_int64_neg : Option ℕ → Option ℤ
in_int64_neg none = none
in_int64_neg (some n) =
    if n == 0 then some (pos 0) else if leb n (2 ^ 63) then some (negsuc (n - 1)) else none

unfoldable pub parse_int : Bytes → Option ℤ
unfolding parse_uint
parse_int [] = none
parse_int (c ∷ s) =
    if c == b'-'
    then in_int64_neg (parse_uint s)
    else if c == b'+'
    then in_int64_pos (parse_uint s)
    else in_int64_pos (parse_uint (c ∷ s))

parse_runs :
    (parse_int (codes "000001567036800") ≡ some (pos 1567036800))
    × (parse_int (codes "-9223372036854775808") ≡ some (negsuc 9223372036854775807))
    × (parse_int (codes "9223372036854775808") ≡ none)
    × (parse_int (codes "1_000") ≡ none)
unfolding parse_int
parse_runs = (refl, refl, refl, refl)

padded_runs :
    (format_padded 12 1567036800 ≡ codes "001567036800")
    × (format_padded 12 1234567890123 ≡ codes "1234567890123")
unfolding format_padded
padded_runs = (refl, refl)
