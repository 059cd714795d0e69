-- ===== src/KubeExtractor/Names.antt =====
-- The name of an event and of the object that it is about, pkg/sloop/kubeextractor/events.go.
use sloop.Base.{
  ℕ, ◌≡◌, refl, [], ◌∷◌, ◌++◌, Option, none, some, ◌==◌, Bool-cases, inl, inr, if◌then◌else◌,
  ==_iff,
}
use sloop.Base.Bytes.{Bytes}
use sloop.Base.Bytes.Split.{Lacks}
use sloop.Base.Outcome.{Outcome, ok, err, or_err, bad_event_name}

abbrev pub dot : ℕ
dot = b'.'

-- The text in front of the last separator: strings.LastIndex and the slice up to it.
unfoldable pub before_last : ℕ → Bytes → Option Bytes
before_last sep [] = none
before_last sep (c ∷ cs) = elim (before_last sep cs) [
  | some front ↦ some (c ∷ front)
  | none ↦ if c == sep then some [] else none
]

unfoldable pub get_involved_object_name_from_event_name : Bytes → Outcome Bytes
unfolding before_last
get_involved_object_name_from_event_name event_name =
    or_err (before_last dot event_name) bad_event_name

before_last-Lacks : (sep : ℕ) (cs : Bytes) → Lacks sep cs → before_last sep cs ≡ none
unfolding before_last
before_last-Lacks sep [] h = refl
before_last-Lacks sep (c ∷ cs) (h, hs) =
    rw (before_last-Lacks sep cs hs)
      (elim (Bool-cases (c == sep)) [ inl e ↦ absurd (h ((==_iff c sep).0 e)) | inr e ↦ rw e ])

before_last-append :
    (sep : ℕ) (name suffix : Bytes)
    → Lacks sep suffix
    → before_last sep (name ++ sep ∷ suffix) ≡ some name
unfolding before_last
before_last-append sep [] suffix h = rw (before_last-Lacks sep suffix h, (==_iff sep sep).1 refl)
before_last-append sep (c ∷ name) suffix h = rw (before_last-append sep name suffix h)

-- The name of an event is the name of its object, dots included, a dot, and a suffix without a dot: the
-- object's name is read back from it. A name without a dot is refused.
pub involved_name_read_back :
    (name suffix : Bytes)
    → Lacks dot suffix
    → (get_involved_object_name_from_event_name (name ++ dot ∷ suffix) ≡ ok name)
      × (get_involved_object_name_from_event_name suffix ≡ err bad_event_name)
unfolding get_involved_object_name_from_event_name
involved_name_read_back name suffix h =
    (rw (before_last-append dot name suffix h), rw (before_last-Lacks dot suffix h))
