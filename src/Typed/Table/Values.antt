-- ===== src/Typed/Table/Values.antt =====
-- Reading and writing one row of a table.
use sloop.Base.{true, false, ◌≡◌, ◌∙◌, ◌⊎◌, inl, inr, some, if◌then◌else◌, Bool-cases}
use sloop.Base.Bytes.{Bytes, eqb, eqb_iff}
use sloop.Base.Outcome.{ok, err, Error, read_only_txn}
use sloop.Mock.{MockTxn, get, set}
use sloop.Mock.MapLaws.{get-set}
use sloop.Typed.Key.{KeyType}
use sloop.Typed.Table.{Codec, set_value, get_value}

-- What is unmarshalled from the bytes of a value is that value.
abbrev pub RoundTrips : {V : Type 0} → Codec V → Type 0
RoundTrips {V} c = (v : V) (b : Bytes) → c.marshal v ≡ some b → c.unmarshal b ≡ some v

module _ (K : KeyType) {V : Type 0} (c : Codec V) where
  then_set :
      (key b : Bytes) (k : K.Key) (v : V) (t : MockTxn)
      → K.parse key ≡ ok k
      → c.marshal v ≡ some b
      → set_value K c key v t ≡ set key b t
  unfolding set_value
  then_set key b k v t p m = rw (p, m)

  value_unchanged :
      (t t' : MockTxn) (j : Bytes) → get t' j ≡ get t j → get_value K c t' j ≡ get_value K c t j
  unfolding get_value
  value_unchanged t t' j e = rw e

  value_here :
      (t : MockTxn) (j b : Bytes) (k : K.Key) (v : V)
      → K.parse j ≡ ok k
      → get t j ≡ ok b
      → c.unmarshal b ≡ some v
      → get_value K c t j ≡ ok v
  unfolding get_value
  value_here t j b k v p e u = rw (p, e, u)

  -- With an encoding that round-trips, for a key that parses and a value that can be marshalled: in a
  -- transaction that may write, `set_value` succeeds, after it `get_value` returns the value at that
  -- key, and at any other key, valid or not, what it returned before; a read-only transaction
  -- refuses and stays as it is.
  pub get_value-set_value :
      (key j b : Bytes) (k : K.Key) (v : V) (t : MockTxn)
      → RoundTrips c
      → K.parse key ≡ ok k
      → c.marshal v ≡ some b
      → ((t.read_only ≡ false)
          × ((set_value K c key v t).0 ≡ ok tt)
          × (get_value K c (set_value K c key v t).1 j
              ≡ (if eqb key j then ok v else get_value K c t j)))
        ⊎ ((t.read_only ≡ true) × (set_value K c key v t ≡ (err read_only_txn, t)))
  get_value-set_value key j b k v t r p m =
      rw (then_set key b k v t p m) (elim (get-set t key j b) [
        | inr (ro, e) ↦ inr (ro, e)
        | inl (ro, done, after) ↦ inl (
          ro,
          done,
          elim (Bool-cases (eqb key j)) [
            | inl q ↦
                let same : key ≡ j = (eqb_iff key j).0 q in
                let parsed : K.parse j ≡ ok k = rw (← same) p in
                rw q (value_here (set key b t).1 j b k v parsed (after ∙ rw q) (r v b m))
            | inr q ↦ rw q (value_unchanged t (set key b t).1 j (after ∙ rw q))
          ],
        )
      ])

  -- A key that does not parse is refused with the parser's error by both operations, and the
  -- transaction stays as it is.
  pub invalid_key_refused :
      (key : Bytes) (v : V) (t : MockTxn) (e : Error)
      → K.parse key ≡ err e
      → (set_value K c key v t ≡ (err e, t)) × (get_value K c t key ≡ err e)
  unfolding set_value get_value
  invalid_key_refused key v t e p = (rw p, rw p)
