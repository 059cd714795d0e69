-- ===== src/Typed/Table/Written.antt =====
-- What a write that succeeds leaves in the table.
use sloop.Base.{◌≡◌, ◌∙◌, false, inl, inr, ap}
use sloop.Base.Bytes.{Bytes, eqb, eqb_refl}
use sloop.Base.Outcome.{ok}
use sloop.Mock.{MockTxn, get, lookup}
use sloop.Typed.Key.{KeyType}
use sloop.Typed.Table.{Codec, set_value, get_value}
use sloop.Typed.Table.Frame.{set_value-cases}
use sloop.Typed.Table.Values.{RoundTrips, get_value-set_value}

module _ (K : KeyType) {V : Type 0} (c : Codec V) where
  -- The value at the key, and elsewhere what was there.
  abbrev pub IsWritten : Bytes → V → MockTxn → MockTxn → Type 0
  IsWritten key v t t' =
      (get_value K c t' key ≡ ok v)
      × ((j : Bytes) → eqb key j ≡ false → get_value K c t' j ≡ get_value K c t j)

  pub set_value-IsWritten :
      (key : Bytes) (v : V) (t : MockTxn)
      → RoundTrips c
      → (set_value K c key v t).0 ≡ ok tt
      → IsWritten key v t (set_value K c key v t).1
  set_value-IsWritten key v t r done = elim (set_value-cases K c key v t) [
    | inr (same, never) ↦ absurd (never tt done)
    | inl (k, b, p, q) ↦ (
      elim (get_value-set_value K c key key b k v t r p q) [
        | inr (ro, e) ↦ absurd (cc (ap (λ x. x.0) e, done))
        | inl (ro, d, after) ↦ after ∙ rw (eqb_refl key)
      ],
      λ j h. elim (get_value-set_value K c key j b k v t r p q) [
        | inr (ro, e) ↦ absurd (cc (ap (λ x. x.0) e, done))
        | inl (ro, d, after) ↦ after ∙ rw h
      ],
    )
  ]

  get_from_lookup :
      (t t' : MockTxn) (j : Bytes)
      → lookup j t'.db.entries ≡ lookup j t.db.entries
      → get t' j ≡ get t j
  unfolding get
  get_from_lookup t t' j e = rw (e, get)

  -- What a table reads depends on the value at the key alone.
  pub value_from_lookup :
      (t t' : MockTxn) (j : Bytes)
      → lookup j t'.db.entries ≡ lookup j t.db.entries
      → get_value K c t' j ≡ get_value K c t j
  unfolding get_value
  value_from_lookup t t' j e = rw (get_from_lookup t t' j e)
