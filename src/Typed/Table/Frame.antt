-- ===== src/Typed/Table/Frame.antt =====
-- What a write to a table changes: a key that the table accepts, or nothing.
use sloop.Base.{false, ◌≡◌, ◌≢◌, ◌∙◌, refl, ◌⊎◌, inl, inr, subst, Option, none, some, Bool-cases}
use sloop.Base.Bytes.{Bytes, eqb, eqb_iff}
use sloop.Base.Outcome.{
  Outcome, ok, err, panic, running, ◌>>=◌, >>=-eq-ok, or_err, Error, marshal_failed,
}
use sloop.Mock.{MockTxn, Exec, set, lookup}
use sloop.Mock.MapLaws.{get-set, lookup-insert}
use sloop.Typed.Key.{KeyType}
use sloop.Typed.Table.{Codec, set_value, then_exec, bind_exec, return, validate_key}

-- The key parses to no key of the table.
abbrev pub IsForeign : KeyType → Bytes → Type 0
IsForeign K j = (k : K.Key) → K.parse j ≢ ok k

-- The step changes no value at the key.
unfoldable pub KeepsAt : {A : Type 0} → Bytes → Exec A → Type 0
KeepsAt j fn = (t : MockTxn) → lookup j (fn t).1.db.entries ≡ lookup j t.db.entries

-- The step succeeds, or leaves everything as it was.
abbrev pub IsAtomic : Exec (Unit {0}) → Type 0
IsAtomic fn = (t : MockTxn) → ((fn t).0 ≡ ok tt) ⊎ ((fn t).1 ≡ t)

pub KeepsAt-then_exec :
    {A B : Type 0} (j : Bytes) (m : Outcome A) (f : A → Exec B)
    → ((a : A) → m ≡ ok a → KeepsAt j (f a))
    → KeepsAt j (then_exec m f)
unfolding then_exec KeepsAt
KeepsAt-then_exec j (ok a) f h t = h a refl t
KeepsAt-then_exec j (err e) f h t = refl
KeepsAt-then_exec j panic f h t = refl
KeepsAt-then_exec j running f h t = refl

pub IsAtomic-then_exec :
    {A : Type 0} (m : Outcome A) (f : A → Exec (Unit {0}))
    → ((a : A) → IsAtomic (f a))
    → IsAtomic (then_exec m f)
unfolding then_exec
IsAtomic-then_exec (ok a) f h t = h a t
IsAtomic-then_exec (err e) f h t = inr refl
IsAtomic-then_exec panic f h t = inr refl
IsAtomic-then_exec running f h t = inr refl

pub KeepsAt-return : {A : Type 0} (j : Bytes) (a : A) → KeepsAt j (return a)
unfolding return KeepsAt
KeepsAt-return j a t = refl

pub KeepsAt-bind_exec :
    {A B : Type 0} (j : Bytes) (fn : Exec A) (f : A → Exec B)
    → KeepsAt j fn
    → ((a : A) → KeepsAt j (f a))
    → KeepsAt j (bind_exec fn f)
unfolding bind_exec KeepsAt
KeepsAt-bind_exec j fn f h k t =
    let later : KeepsAt j (then_exec (fn t).0 f) = KeepsAt-then_exec j (fn t).0 f (λ a e. k a) in
    later (fn t).1 ∙ h t

-- The second step runs, or nothing happens and there is no result.
pub then_exec-cases :
    {A B : Type 0} (m : Outcome A) (f : A → Exec B) (t : MockTxn)
    → ((a : A) × (m ≡ ok a) × (then_exec m f t ≡ f a t))
      ⊎ (((then_exec m f t).1 ≡ t) × ((b : B) → (then_exec m f t).0 ≢ ok b))
unfolding then_exec
then_exec-cases (ok a) f t = inl (a, refl, refl)
then_exec-cases (err e) f t = inr (refl, λ b h. cc)
then_exec-cases panic f t = inr (refl, λ b h. cc)
then_exec-cases running f t = inr (refl, λ b h. cc)

pub ruleset keeps = (KeepsAt-return, KeepsAt-then_exec, KeepsAt-bind_exec)

set-IsAtomic : (k v : Bytes) → IsAtomic (set k v)
set-IsAtomic k v t = elim (get-set t k k v) [
  | inl (ro, done, after) ↦ inl done
  | inr (ro, e) ↦ inr (rw e)
]

set-KeepsAt : (k v j : Bytes) → eqb k j ≡ false → KeepsAt j (set k v)
unfolding set KeepsAt
set-KeepsAt k v j h t = elim (Bool-cases t.read_only) [
  | inl r ↦ rw r
  | inr r ↦ rw r (lookup-insert k j v t.db.entries ∙ rw h)
]

module _ (K : KeyType) {V : Type 0} (c : Codec V) where
  -- The guards of a write, before the database is asked.
  abbrev encoded : Bytes → V → Outcome Bytes
  encoded key v = do u ← validate_key K key; or_err (c.marshal v) marshal_failed

  encoded_parses :
      (key b : Bytes) (v : V) → encoded key v ≡ ok b → (k : K.Key) × (K.parse key ≡ ok k)
  unfolding validate_key
  encoded_parses key b v e =
      let (u, e1, e2) =
        >>=-eq-ok (validate_key K key) (λ u. or_err (c.marshal v) marshal_failed) e in
      let (k, e3, e4) = >>=-eq-ok (K.parse key) (λ k. ok tt) e1 in (k, e3)

  pub set_value-IsAtomic : (key : Bytes) (v : V) → IsAtomic (set_value K c key v)
  unfolding set_value
  set_value-IsAtomic key v =
      IsAtomic-then_exec (encoded key v) (λ b. set key b) (λ b. set-IsAtomic key b)

  pub set_value-other :
      (key j : Bytes) (v : V) → eqb key j ≡ false → KeepsAt j (set_value K c key v)
  unfolding set_value
  set_value-other key j v h =
      KeepsAt-then_exec j (encoded key v) (λ b. set key b) (λ b e. set-KeepsAt key b j h)

  -- Only a key of the table is written.
  pub set_value-foreign : (key j : Bytes) (v : V) → IsForeign K j → KeepsAt j (set_value K c key v)
  unfolding set_value
  set_value-foreign key j v h = elim (Bool-cases (eqb key j)) [
    | inr e ↦ set_value-other key j v e
    | inl e ↦
        KeepsAt-then_exec j (encoded key v) (λ b. set key b)
          (λ b q.
            let (k, p) = encoded_parses key b v q in
            absurd (h k (subst (λ x. K.parse x ≡ ok k) ((eqb_iff key j).0 e) p)))
  ]

  or_err-some : {A : Type 0} (o : Option A) (e : Error) (a : A) → or_err o e ≡ ok a → o ≡ some a
  or_err-some none e a h = absurd (cc)
  or_err-some (some b) e a h = cc

  encoded_marshals : (key b : Bytes) (v : V) → encoded key v ≡ ok b → c.marshal v ≡ some b
  encoded_marshals key b v e =
      let (u, e1, e2) =
        >>=-eq-ok (validate_key K key) (λ u. or_err (c.marshal v) marshal_failed) e in
      or_err-some (c.marshal v) marshal_failed b e2

  -- A write that succeeds or changes anything has a key of the table and a value that can be
  -- marshalled.
  pub set_value-cases :
      (key : Bytes) (v : V) (t : MockTxn)
      → ((k : K.Key) × (b : Bytes) × (K.parse key ≡ ok k) × (c.marshal v ≡ some b))
        ⊎ (((set_value K c key v t).1 ≡ t) × ((u : Unit {0}) → (set_value K c key v t).0 ≢ ok u))
  unfolding set_value
  set_value-cases key v t = elim (then_exec-cases (encoded key v) (λ b. set key b) t) [
    | inr same ↦ inr same
    | inl (b, e, q) ↦
        let (k, p) = encoded_parses key b v e in inl (k, b, p, encoded_marshals key b v e)
  ]
