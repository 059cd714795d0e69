-- ===== src/Typed/Table.antt =====
-- The operations of a table over any key type, and any value type with its protobuf encoding:
-- pkg/sloop/store/typed/tabletemplate.go and the four generated files beside it (watchtablegen.go and
-- so on), which have the same code but for the names, and `GetMinPartition` and `GetMaxPartition`,
-- which the template does not have.
pub mod Values
pub mod Frame
pub mod Written
pub mod RangeRead
pub mod RangeReadSound
use sloop.Base.{
  ℕ, zero, suc, ◌+◌, Bool, true, false, ◌&&◌, ◌≡◌, List, [], ◌∷◌, ◌++◌, Option, none, some, length,
  if◌then◌else◌,
}
use mathlib.Core.List.{reverse}
use sloop.Base.Bytes.{Bytes, eqb, lt_bytes, has_prefix}
use sloop.Base.Outcome.{
  Outcome, ok, err, panic, running, ◌>>=◌, or_err, Error, marshal_failed, unmarshal_failed,
  no_previous_key,
}
use sloop.GoTime.{Time, Duration}
use sloop.Partition.Sequence.{partitions_loop, get_partitions_from_time_range}
use sloop.Common.{slash}
use sloop.Mock.{
  Data, MockTxn, MockIterator, IteratorOptions, Exec, get, set, lookup, new_iterator, seek, next,
  valid, item_key, valid_for_prefix, visit_prefix,
}
use sloop.Typed.Key.{KeyType, path}

-- proto.Marshal and proto.Unmarshal at the value type, as the table uses them.
pub record Codec (V : Type 0) : Type 0 where
  pub marshal : V → Option Bytes
  pub unmarshal : Bytes → Option V

-- string(rune(255)): two bytes in UTF-8
abbrev pub rune_255 : Bytes
rune_255 = 0xC3 ∷ 0xBF ∷ []

pub record RangeReadStats : Type 0 where
  pub table_name : Bytes
  pub partition_count : ℕ
  pub rows_visited_count : ℕ
  pub rows_passed_key_predicate_count : ℕ
  pub rows_passed_value_predicate_count : ℕ

-- What an operation that fails leaves undone.
unfoldable pub then_exec : {A B : Type 0} → Outcome A → (A → Exec B) → Exec B
then_exec (ok a) f t = f a t
then_exec (err e) f t = (err e, t)
then_exec panic f t = (panic, t)
then_exec running f t = (running, t)

-- One step, then another with its result.
unfoldable pub bind_exec : {A B : Type 0} → Exec A → (A → Exec B) → Exec B
unfolding then_exec
bind_exec fn f t = let (r, t') = fn t in then_exec r f t'

unfoldable pub return : {A : Type 0} → A → Exec A
return a t = (ok a, t)

-- ValueType_KeyPredicateFns and ValueType_ValPredicateFns: all of the predicates hold.
unfoldable pub predicate_fns : {A : Type 0} → List (A → Bool) → A → Bool
predicate_fns [] result = true
predicate_fns (this_fn ∷ fns) result = this_fn result && predicate_fns fns result

module _ (K : KeyType) where
  open K use {Key, table_name, parse, to_string, partition_id, set_partition_id, same}

  unfoldable pub validate_key : Bytes → Outcome (Unit {0})
  validate_key key = do k ← parse key; ok tt

  -- "/" + t.tableName + "/"
  abbrev pub table_prefix : Bytes
  table_prefix = slash ∷ (table_name ++ slash ∷ [])

  -- `none` for the result false, ""
  unfoldable pub get_min_key : MockTxn → Option Bytes
  get_min_key t =
      let i =
        seek table_prefix (new_iterator (record { prefix = table_prefix; reversed = false }) t) in
      if valid_for_prefix table_prefix i then item_key i else none

  unfoldable pub get_max_key : MockTxn → Option Bytes
  get_max_key t =
      let i =
        seek (table_prefix ++ rune_255)
          (new_iterator (record { prefix = table_prefix; reversed = true }) t) in
      if valid i then item_key i else none

  -- A stored key that does not parse is a panic.
  unfoldable pub partition_of_stored : Bytes → Outcome Bytes
  partition_of_stored text = elim (parse text) [
    | ok k ↦ ok (partition_id k)
    | err e ↦ panic
    | panic ↦ panic
    | running ↦ running
  ]

  unfoldable pub get_max_partition : MockTxn → Outcome (Option Bytes)
  unfolding partition_of_stored get_max_key
  get_max_partition t = elim (get_max_key t) [
    | none ↦ ok none
    | some max_key ↦ (do p ← partition_of_stored max_key; ok (some p))
  ]

  unfoldable pub get_min_partition : MockTxn → Outcome (Option Bytes)
  unfolding partition_of_stored get_min_key
  get_min_partition t = elim (get_min_key t) [
    | none ↦ ok none
    | some min_key ↦ (do p ← partition_of_stored min_key; ok (some p))
  ]

  -- `none` for the result false, whatever comes with it
  unfoldable pub get_min_max_partitions : MockTxn → Outcome (Option (Bytes × Bytes))
  unfolding get_min_partition get_max_partition
  get_min_max_partitions t = do
    lo ← get_min_partition t
    elim lo [
      | none ↦ ok none
      | some min_par ↦ (do
        hi ← get_max_partition t
        elim hi [ none ↦ ok none | some max_par ↦ ok (some (min_par, max_par)) ])
    ]

  unfoldable pub get_unique_partition_list : ℕ → Duration → MockTxn → Outcome (List Bytes)
  unfolding get_min_max_partitions
  get_unique_partition_list f d t = do
    bounds ← get_min_max_partitions t
    elim bounds [ none ↦ ok [] | some (min_par, max_par) ↦ partitions_loop f d min_par max_par ]

  -- The two keys are passed by reference, and their partition is overwritten for the caller too.
  pub record Search : Type 0 where
    pub cur_key : Key
    pub comparator : Key
    pub found : Option Key

  unfoldable pub get_last_matching_key_in_partition : MockTxn → Bytes → Key → Key → Outcome Search
  get_last_matching_key_in_partition t cur_partition cur_key comparator =
      let old_key = to_string cur_key in
      let cur' = set_partition_id cur_key cur_partition in
      let comparator' = set_partition_id comparator cur_partition in
      let i =
        seek (to_string cur' ++ rune_255)
          (new_iterator (record { prefix = []; reversed = true }) t) in
      let at_old : Bool = elim (item_key i) [ none ↦ false | some k ↦ eqb old_key k ] in
      let i' = if at_old then next i else i in
      elim (item_key i') [
        | none ↦ ok (record { cur_key = cur'; comparator = comparator'; found = none })
        | some k ↦
            if has_prefix k (to_string comparator')
            then (do
              key ← parse k
              ok (record { cur_key = cur'; comparator = comparator'; found = some key }))
            else ok (record { cur_key = cur'; comparator = comparator'; found = none })
      ]

  -- The loop over the partitions, the newest first.
  unfoldable pub previous_key_loop : MockTxn → Bytes → List Bytes → Key → Key → Outcome Key
  previous_key_loop t current_partition [] key comparator = err no_previous_key
  previous_key_loop t current_partition (pre_part ∷ parts) key comparator =
      elim (lt_bytes current_partition pre_part) [
        | true ↦ previous_key_loop t current_partition parts key comparator
        | false ↦ (do
          s ← get_last_matching_key_in_partition t pre_part key comparator
          elim s.found [
            | some prev_key ↦ ok prev_key
            | none ↦ previous_key_loop t current_partition parts s.cur_key s.comparator
          ])
      ]

  unfoldable pub get_previous_key : ℕ → Duration → MockTxn → Key → Key → Outcome Key
  unfolding previous_key_loop get_unique_partition_list
  get_previous_key f d t key comparator = do
    partition_list ← get_unique_partition_list f d t
    previous_key_loop t (partition_id key) (reverse partition_list) key comparator

  module _ {V : Type 0} (c : Codec V) where
    open c use {marshal, unmarshal}

    unfoldable pub set_value : Bytes → V → Exec (Unit {0})
    unfolding then_exec validate_key
    set_value key value =
        then_exec (do u ← validate_key key; or_err (marshal value) marshal_failed)
          (λ outb. set key outb)

    unfoldable pub get_value : MockTxn → Bytes → Outcome V
    unfolding validate_key
    get_value t key = do
      u ← validate_key key
      value_bytes ← get t key
      or_err (unmarshal value_bytes) unmarshal_failed
