-- ===== src/Common.antt =====
-- pkg/sloop/common/utilities.go: the helpers on keys, lists and numbers.
pub mod Deletion
pub mod Partitions
use sloop.Base.{
  ℕ, suc, Bool, true, false, ◌≡◌, List, [], ◌∷◌, length, ltb, ◌==◌, not, if◌then◌else◌,
}
use sloop.Base.Int.{ℤ, ltb_ℤ}
use sloop.Base.Bytes.{Bytes, eqb}
use sloop.Base.Bytes.Split.{split}
use sloop.Base.Outcome.{Outcome, ok, err, bad_key}

abbrev pub slash : ℕ
slash = b'/'

-- The parts of a key with seven of them, the first empty. With an error the source returns the parts
-- too, which no caller reads.
unfoldable pub check_parts : List Bytes → Outcome (List Bytes)
check_parts [] = err bad_key
check_parts (p ∷ parts) =
    if not (length (p ∷ parts) == 7)
    then err bad_key
    else if not (eqb p [])
    then err bad_key
    else ok (p ∷ parts)

unfoldable pub parse_key : Bytes → Outcome (List Bytes)
unfolding check_parts
parse_key key = check_parts (split slash key)

unfoldable pub contains : List Bytes → Bytes → Bool
contains [] elem = false
contains (str ∷ rest) elem = if eqb str elem then true else contains rest elem

unfoldable pub max : ℤ → ℤ → ℤ
max x y = if ltb_ℤ x y then y else x
