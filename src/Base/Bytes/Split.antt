-- ===== src/Base/Bytes/Split.antt =====
-- `strings.Split` at one byte, and its round trip with the parts joined.
use sloop.Base.{
  ℕ, true, false, List, [], ◌∷◌, ◌++◌, append_assoc, append-nil, ◌≡◌, ◌≢◌, ◌∙◌, refl, arith, ◌==◌,
  All,
}
use sloop.Base.Bytes.{Bytes}

-- The first part is the text up to the first separator; there is always at least one part.
unfoldable pub split_from : ℕ → Bytes → Bytes → List Bytes
split_from sep cur [] = cur ∷ []
split_from sep cur (c ∷ s) = elim (c == sep) [
  | true ↦ cur ∷ split_from sep [] s
  | false ↦ split_from sep (cur ++ c ∷ []) s
]

-- strings.Split(s, sep)
unfoldable pub split : ℕ → Bytes → List Bytes
unfolding split_from
split sep s = split_from sep [] s

-- The separator does not occur.
abbrev pub Lacks : ℕ → Bytes → Type 0
Lacks sep = All (λ c. c ≢ sep)

-- Each part behind a separator, the first in front.
unfoldable pub join_from : ℕ → Bytes → List Bytes → Bytes
join_from sep p [] = p
join_from sep p (q ∷ qs) = p ++ (sep ∷ join_from sep q qs)

split_from-append :
    (sep : ℕ) (cur p rest : Bytes)
    → Lacks sep p
    → split_from sep cur (p ++ rest) ≡ split_from sep (cur ++ p) rest
unfolding split_from
split_from-append sep cur [] rest h = simp append-nil
split_from-append sep cur (c ∷ p) rest h =
    ground (arith, split_from-append sep (cur ++ c ∷ []) p rest, append_assoc cur (c ∷ []) p)

pub split_from_last : (sep : ℕ) (p : Bytes) → Lacks sep p → split_from sep [] p ≡ p ∷ []
split_from_last sep p h =
    let e : split_from sep [] (p ++ []) ≡ split_from sep p [] = split_from-append sep [] p [] h in
    let e' : split_from sep [] p ≡ split_from sep p [] = rw append-nil at e in
    e' ∙ (unfold split_from in refl)

pub split_from_sep :
    (sep : ℕ) (p rest : Bytes)
    → Lacks sep p
    → split_from sep [] (p ++ (sep ∷ rest)) ≡ p ∷ split_from sep [] rest
split_from_sep sep p rest h =
    split_from-append sep [] p (sep ∷ rest) h ∙ (unfold split_from in ground arith)
