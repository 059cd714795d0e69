-- ===== src/Base/Outcome.antt =====
-- What a Go call may do: return a value, return an error, or panic; a loop may also not
-- end. A handler of errors sees neither. The text of an error is not kept, its kind is.
use sloop.Base.{◌≡◌, refl, Option, none, some, Bool, true, false}

pub data Error : Type 0 where
  -- strconv and time
  bad_number bad_time bad_duration : Error
  -- keys and tables
  bad_key bad_table marshal_failed unmarshal_failed key_not_found read_only_txn no_previous_key :
      Error
  -- queries
  no_range_params lookback_with_start start_end_pair query_not_found : Error
  -- payloads
  bad_payload bad_event_name : Error
  -- the store
  bad_partition_duration open_failed no_partitions nil_record : Error

pub data Outcome {ℓ} (A : Type ℓ) : Type ℓ where
  ok : A → Outcome A
  err : Error → Outcome A
  panic : Outcome A
  -- the bound on the rounds of a loop was met, and the loop was still running
  running : Outcome A

infixl 5 ◌>>=◌
abbrev pub ◌>>=◌ {ℓ κ} : {A : Type ℓ} {B : Type κ} → Outcome A → (A → Outcome B) → Outcome B
ok a >>= f = f a
err e >>= f = err e
panic >>= f = panic
running >>= f = running

-- A failed conversion, as the error that the caller returns.
abbrev pub or_err {ℓ} : {A : Type ℓ} → Option A → Error → Outcome A
or_err none e = err e
or_err (some a) e = ok a

-- A chain that succeeds had both of its steps succeed.
pub >>=-eq-ok {ℓ κ} :
    {S : Type ℓ} {T : Type κ} (first : Outcome S) (step : S → Outcome T) {y : T}
    → (first >>= step) ≡ ok y
    → (x : S) × (first ≡ ok x) × (step x ≡ ok y)
>>=-eq-ok running step e = cc
>>=-eq-ok panic step e = cc
>>=-eq-ok (err kind) step e = cc
>>=-eq-ok (ok x) step e = (x, refl, e)

pub >>=_assoc {ℓ κ μ} :
    {A : Type ℓ} {B : Type κ} {C : Type μ} (m : Outcome A) (f : A → Outcome B) (g : B → Outcome C)
    → ((m >>= f) >>= g) ≡ (m >>= λ a. f a >>= g)
>>=_assoc (ok a) f g = refl
>>=_assoc (err e) f g = refl
>>=_assoc panic f g = refl
>>=_assoc running f g = refl

pub >>=_cong {ℓ κ} :
    {A : Type ℓ} {B : Type κ} (m : Outcome A) (f g : A → Outcome B)
    → ((a : A) → f a ≡ g a)
    → (m >>= f) ≡ (m >>= g)
>>=_cong (ok a) f g h = h a
>>=_cong (err e) f g h = refl
>>=_cong panic f g h = refl
>>=_cong running f g h = refl

-- err == badger.ErrKeyNotFound
abbrev pub is_key_not_found : Error → Bool
is_key_not_found key_not_found = true
is_key_not_found _ = false

-- A missing key replaced by a value.
abbrev pub or_default {ℓ} : {A : Type ℓ} → Outcome A → A → Outcome A
or_default (err e) a = elim (is_key_not_found e) [ true ↦ ok a | false ↦ err e ]
or_default (ok b) a = ok b
or_default panic a = panic
or_default running a = running
