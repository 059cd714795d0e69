-- ===== src/Typed/Key.antt =====
-- What pkg/sloop/store/typed/tabletemplate.go asks of its `KeyType`, and the texts that the
-- `fmt.Sprintf("/%v/%v...")` of the four key types print.
use sloop.Base.{Bool, ◌≡◌, ◌∙◌, ap, List, [], ◌∷◌, ◌++◌, append-nil, All}
use sloop.Base.Bytes.{Bytes}
use sloop.Base.Bytes.Split.{Lacks, split, split_from, split_from_sep, split_from_last}
use sloop.Base.Outcome.{Outcome}
use sloop.Common.{slash}

pub record KeyType : Type 1 where
  pub Key : Type 0
  pub table_name : Bytes
  pub parse : Bytes → Outcome Key
  pub to_string : Key → Bytes
  pub partition_id : Key → Bytes
  pub set_partition_id : Key → Bytes → Key
  -- `==` of two keys, as a Go map compares them
  pub same : Key → Key → Bool

-- A slash before each part.
unfoldable pub path : List Bytes → Bytes
path [] = []
path (p ∷ ps) = slash ∷ (p ++ path ps)

split_from-path :
    (p : Bytes) (ps : List Bytes)
    → Lacks slash p
    → All (Lacks slash) ps
    → split_from slash [] (p ++ path ps) ≡ p ∷ ps
unfolding path
split_from-path p [] h k = rw (append-nil p) (split_from_last slash p h)
split_from-path p (q ∷ ps) h (hq, hps) =
    split_from_sep slash p (q ++ path ps) h ∙ ap (λ t. p ∷ t) (split_from-path q ps hq hps)

-- Splitting a path of parts without slashes gives the empty text in front and the parts.
pub split-path : (ps : List Bytes) → All (Lacks slash) ps → split slash (path ps) ≡ [] ∷ ps
unfolding split
split-path ps h = split_from-path [] ps tt h
