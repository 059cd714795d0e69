-- ===== src/Typed/Table/RangeRead.antt =====
-- `RangeRead` of pkg/sloop/store/typed/tabletemplate.go: all rows of the partitions of a range of
-- time whose key and value pass the predicates. `Elapsed` of the statistics is a clock and left out.
use sloop.Base.{
  ℕ, suc, ◌+◌, Bool, true, false, ◌≡◌, List, [], ◌∷◌, ◌++◌, Option, none, some, length, inl, inr,
  arith, if◌then◌else◌, All, Has, Bool-cases,
}
use sloop.Base.Bytes.{Bytes}
use sloop.Base.Outcome.{Outcome, ok, ◌>>=◌, or_err, unmarshal_failed}
use sloop.GoTime.{ZonedTime, Duration}
use sloop.Partition.Sequence.{get_partitions_from_time_range}
use sloop.Common.{slash}
use sloop.Mock.{MockTxn, lookup, new_iterator, seek, visit_prefix, sort_strings, keys_of}
use sloop.Mock.Scan.{seek_visits_prefix, with_prefix}
use sloop.Typed.Key.{KeyType}
use sloop.Typed.Table.{Codec, RangeReadStats}

-- A predicate that is nil holds of everything.
unfoldable pub passes : {A : Type 0} → Option (A → Bool) → A → Bool
passes none a = true
passes (some p) a = p a

module _ (K : KeyType) {V : Type 0} (c : Codec V) where
  open K use {Key, table_name, parse, to_string, set_partition_id, same}
  open c use {unmarshal}

  -- resources[key] = value
  unfoldable pub put_row : Key → V → List (Key × V) → List (Key × V)
  put_row key v [] = (key, v) ∷ []
  put_row key v ((j, w) ∷ rows) = if same j key then (j, v) ∷ rows else (j, w) ∷ put_row key v rows

  pub record ReadState : Type 0 where
    pub resources : List (Key × V)
    pub stats : RangeReadStats

  module _ (t : MockTxn) (key_predicate : Option (Bytes → Bool))
      (val_predicate : Option (V → Bool)) where
    -- The rest of the loop's body for a row whose key passed.
    unfoldable pub read_value : Bytes → Key → ReadState → Outcome ReadState
    read_value text key st = do
      let stats = record st.stats {
        rows_passed_key_predicate_count = st.stats.rows_passed_key_predicate_count + 1;
      }
      let value_bytes : Bytes = elim (lookup text t.db.entries) [ none ↦ [] | some v ↦ v ]
      value ← or_err (unmarshal value_bytes) unmarshal_failed
      if passes val_predicate value
          then ok (record {
            resources = put_row key value st.resources;
            stats = record stats {
              rows_passed_value_predicate_count = stats.rows_passed_value_predicate_count + 1;
            };
          })
          else ok (record st { stats = stats })

    -- The body of the loop over the keys.
    unfoldable pub read_row : Bytes → ReadState → Outcome ReadState
    unfolding read_value
    read_row text st =
        let visited = record st {
          stats = record st.stats { rows_visited_count = st.stats.rows_visited_count + 1 };
        } in
        if passes key_predicate text
        then (do key ← parse text; read_value text key visited)
        else ok visited

    unfoldable pub read_rows : List Bytes → ReadState → Outcome ReadState
    read_rows [] st = ok st
    read_rows (text ∷ texts) st = do st' ← read_row text st; read_rows texts st'

    -- The text that is sought in one partition: the whole partition if no key prefix is given.
    unfoldable pub seek_str : Option Key → Bytes → Bytes
    seek_str none partition = slash ∷ (table_name ++ (slash ∷ (partition ++ slash ∷ [])))
    seek_str (some k) partition = to_string (set_partition_id k partition)

    -- The loop ends within one round more than there are keys.
    abbrev pub rounds : ℕ
    rounds = suc (length (keys_of t.db.entries))

    unfoldable pub read_partition : Option Key → Bytes → ReadState → Outcome ReadState
    unfolding seek_str read_rows
    read_partition key_prefix partition st = do
      let s = seek_str key_prefix partition
      texts ←
          visit_prefix rounds s (seek s (new_iterator (record { prefix = s; reversed = false }) t))
      read_rows texts st

    unfoldable pub read_partitions : Option Key → List Bytes → ReadState → Outcome ReadState
    unfolding read_partition
    read_partitions key_prefix [] st = ok st
    read_partitions key_prefix (p ∷ ps) st = do
      st' ← read_partition key_prefix p st
      read_partitions key_prefix ps st'

    abbrev pub start_state : ℕ → ReadState
    start_state n = record {
      resources = [];
      stats = record {
        table_name = [];
        partition_count = n;
        rows_visited_count = 0;
        rows_passed_key_predicate_count = 0;
        rows_passed_value_predicate_count = 0;
      };
    }

    unfoldable pub range_read :
        ℕ
        → Duration
        → Option Key
        → ZonedTime
        → ZonedTime
        → Outcome (List (Key × V) × RangeReadStats)
    unfolding read_partitions
    range_read f d key_prefix start_time end_time = do
      partition_list ← get_partitions_from_time_range f d start_time end_time
      st ← read_partitions key_prefix partition_list (start_state (length partition_list))
      ok (st.resources, record st.stats { table_name = table_name })

-- What a row of the result comes from: a key text among `texts` that passes the key predicate and
-- parses to the row's key, with a stored value that is the row's and passes the value predicate.
abbrev pub FromStore :
    (K : KeyType) {V : Type 0} (c : Codec V) (t : MockTxn)
    → Option (Bytes → Bool)
    → Option (V → Bool)
    → List Bytes
    → K.Key × V
    → Type 0
FromStore K c t kp vp texts (key, value) =
    (text : Bytes) × Has text texts
    × (K.parse text ≡ ok key)
    × (passes kp text ≡ true)
    × (c.unmarshal (elim (lookup text t.db.entries) [ none ↦ [] | some v ↦ v ]) ≡ some value)
    × (passes vp value ≡ true)

module _ (K : KeyType) {V : Type 0} (c : Codec V) (t : MockTxn) (kp : Option (Bytes → Bool))
    (vp : Option (V → Bool)) where
  -- In one partition the loop over the iterator ends, and reads exactly the keys of the database that
  -- have the partition's text as a prefix, in byte order.
  pub read_partition_lem :
      (o : Option K.Key) (partition : Bytes) (st : ReadState K c)
      → read_partition K c t kp vp o partition st
        ≡ read_rows K c t kp vp
            (with_prefix (seek_str K c t kp vp o partition) (sort_strings (keys_of t.db.entries)))
            st
  unfolding read_partition
  read_partition_lem o partition st = rw (
      seek_visits_prefix t (seek_str K c t kp vp o partition) (seek_str K c t kp vp o partition)
        (suc (length (keys_of t.db.entries))) (omega arith))

  pub put_row-All :
      (P : K.Key × V → Type 0) (key : K.Key) (v : V) (rows : List (K.Key × V))
      → ((j : K.Key) → K.same j key ≡ true → j ≡ key)
      → P (key, v)
      → All P rows
      → All P (put_row K c key v rows)
  unfolding put_row
  put_row-All P key v [] s h hs = (h, tt)
  put_row-All P key v ((j, w) ∷ rows) s h (p, ps) = elim (Bool-cases (K.same j key)) [
    | inl e ↦ rw e (rw (s j e) h, ps)
    | inr e ↦ rw e (p, put_row-All P key v rows s h ps)
  ]
