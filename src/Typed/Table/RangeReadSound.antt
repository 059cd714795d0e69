-- ===== src/Typed/Table/RangeReadSound.antt =====
-- The rows that `RangeRead` returns come from the store, and its statistics count them.
use sloop.Base.{
  ℕ, suc, ◌+◌, ◌≤◌, Bool, true, false, ◌≡◌, ◌∙◌, sym, subst, refl, List, [], ◌∷◌, ◌++◌, Option,
  none, some, length, inl, inr, arith, All, Has, Bool-cases,
}
use sloop.Base.Bytes.{Bytes}
use sloop.Base.Outcome.{Error, ok, ◌>>=◌, or_err, >>=-eq-ok, >>=_cong, >>=_assoc, unmarshal_failed}
use sloop.GoTime.{ZonedTime, Duration}
use sloop.Partition.Sequence.{get_partitions_from_time_range}
use sloop.Mock.{MockTxn, lookup, sort_strings, keys_of}
use sloop.Mock.Scan.{with_prefix}
use sloop.Typed.Key.{KeyType}
use sloop.Typed.Table.{Codec, RangeReadStats}
use sloop.Typed.Table.RangeRead.{
  ReadState, FromStore, passes, put_row, put_row-All, read_value, read_row, read_rows,
  read_partitions, read_partition_lem, range_read, seek_str, start_state,
}

pub or_err-eq-ok : {A : Type 0} (o : Option A) (e : Error) {a : A} → or_err o e ≡ ok a → o ≡ some a
or_err-eq-ok none e h = cc
or_err-eq-ok (some b) e h = cc

module _ (K : KeyType) {V : Type 0} (c : Codec V) (t : MockTxn) (kp : Option (Bytes → Bool))
    (vp : Option (V → Bool)) where
  abbrev visited : ReadState K c → ReadState K c
  visited st = record st {
    stats = record st.stats { rows_visited_count = st.stats.rows_visited_count + 1 };
  }

  abbrev key_passed : ReadState K c → ReadState K c
  key_passed st = record st {
    stats = record st.stats {
      rows_passed_key_predicate_count = st.stats.rows_passed_key_predicate_count + 1;
    };
  }

  abbrev row_kept : K.Key → V → ReadState K c → ReadState K c
  row_kept key value st = record {
    resources = put_row K c key value st.resources;
    stats = record st.stats {
      rows_passed_value_predicate_count = st.stats.rows_passed_value_predicate_count + 1;
    };
  }

  abbrev value_at : Bytes → Bytes
  value_at text = elim (lookup text t.db.entries) [ none ↦ [] | some v ↦ v ]

  -- What one round of the loop may do.
  data RowStep (text : Bytes) (st st' : ReadState K c) : Type 0 where
    skipped : passes kp text ≡ false → st' ≡ visited st → RowStep text st st'
    filtered :
        (key : K.Key) → passes kp text ≡ true → st' ≡ key_passed (visited st) → RowStep text st st'
    taken :
        (key : K.Key) (value : V)
        → passes kp text ≡ true
        → K.parse text ≡ ok key
        → c.unmarshal (value_at text) ≡ some value
        → passes vp value ≡ true
        → st' ≡ row_kept key value (key_passed (visited st))
        → RowStep text st st'

  value_step :
      (text : Bytes) (key : K.Key) (st st' : ReadState K c)
      → passes kp text ≡ true
      → K.parse text ≡ ok key
      → read_value K c t kp vp text key (visited st) ≡ ok st'
      → RowStep text st st'
  unfolding read_value
  value_step text key st st' pk p h =
      let (value, u, w) = >>=-eq-ok _ _ h in
      let u' = or_err-eq-ok (c.unmarshal (value_at text)) unmarshal_failed u in
      elim (Bool-cases (passes vp value)) [
        | inl e ↦ taken key value pk p u' e (let w' = rw e at w in cc w')
        | inr e ↦ filtered key pk (let w' = rw e at w in cc w')
      ]

  read_row-RowStep :
      (text : Bytes) (st st' : ReadState K c)
      → read_row K c t kp vp text st ≡ ok st'
      → RowStep text st st'
  unfolding read_row
  read_row-RowStep text st st' h = elim (Bool-cases (passes kp text)) [
    | inl e ↦ let (key, p, q) = >>=-eq-ok _ _ (rw e at h) in value_step text key st st' e p q
    | inr e ↦ skipped e (let h' = rw e at h in cc h')
  ]

  -- `==` of keys holds of equal keys only.
  abbrev pub SameIsEqual : Type 0
  SameIsEqual = (j k : K.Key) → K.same j k ≡ true → j ≡ k

  -- The counts of the statistics never fall below one another, nor the last below the rows kept.
  pub record IsCounted (st : ReadState K c) : Type 0 where
    pub keys : st.stats.rows_passed_key_predicate_count ≤ st.stats.rows_visited_count
    pub values :
        st.stats.rows_passed_value_predicate_count ≤ st.stats.rows_passed_key_predicate_count
    pub rows : length st.resources ≤ st.stats.rows_passed_value_predicate_count

  abbrev FromTexts : List Bytes → ReadState K c → Type 0
  FromTexts texts st = All (FromStore K c t kp vp texts) st.resources

  length-put_row :
      (key : K.Key) (v : V) (rows : List (K.Key × V))
      → length (put_row K c key v rows) ≤ suc (length rows)
  unfolding put_row
  length-put_row key v [] = omega arith
  length-put_row key v ((j, w) ∷ rows) = ground (arith, length-put_row key v rows)

  RowStep-keeps :
      (texts : List Bytes) (text : Bytes) (st st' : ReadState K c)
      → SameIsEqual
      → Has text texts
      → RowStep text st st'
      → FromTexts texts st × IsCounted st
      → FromTexts texts st' × IsCounted st'
  RowStep-keeps texts text st st' s m (skipped a e) (f, n) = rw e (f, omega arith)
  RowStep-keeps texts text st st' s m (filtered key a e) (f, n) = rw e (f, omega arith)
  RowStep-keeps texts text st st' s m (taken key value a p u b e) (f, n) = rw e (
    put_row-All K c t kp vp (FromStore K c t kp vp texts) key value st.resources (λ j h. s j key h)
        (text, m, p, a, u, b) f,
    (let l = length-put_row key value st.resources in omega arith),
  )

  read_rows-keeps :
      (all texts : List Bytes) (st st' : ReadState K c)
      → SameIsEqual
      → ((a : Bytes) → Has a texts → Has a all)
      → read_rows K c t kp vp texts st ≡ ok st'
      → FromTexts all st × IsCounted st
      → FromTexts all st' × IsCounted st'
  unfolding read_rows
  read_rows-keeps all [] st st' s m h inv =
      let e : st ≡ st' = cc h in subst (λ x. FromTexts all x × IsCounted x) e inv
  read_rows-keeps all (text ∷ texts) st st' s m h inv =
      let (mid, p, q) = >>=-eq-ok _ _ h in
      read_rows-keeps all texts mid st' s (λ a x. m a (inr x)) q
        (RowStep-keeps all text st mid s (m text (inl refl)) (read_row-RowStep text st mid p) inv)

  -- The keys of the database in the partitions `ps`, in the order in which they are read.
  abbrev pub texts_of : Option K.Key → List Bytes → List Bytes
  texts_of o [] = []
  texts_of o (p ∷ ps) =
      with_prefix (seek_str K c t kp vp o p) (sort_strings (keys_of t.db.entries)) ++ texts_of o ps

  read_rows-append :
      (xs ys : List Bytes) (st : ReadState K c)
      → read_rows K c t kp vp (xs ++ ys) st
        ≡ (do st' ← read_rows K c t kp vp xs st; read_rows K c t kp vp ys st')
  unfolding read_rows
  read_rows-append [] ys st = refl
  read_rows-append (x ∷ xs) ys st =
      >>=_cong (read_row K c t kp vp x st) _ _ (λ st'. read_rows-append xs ys st')
      ∙ sym (
          >>=_assoc (read_row K c t kp vp x st) (read_rows K c t kp vp xs)
            (read_rows K c t kp vp ys))

  read_partitions_lem :
      (o : Option K.Key) (ps : List Bytes) (st : ReadState K c)
      → read_partitions K c t kp vp o ps st ≡ read_rows K c t kp vp (texts_of o ps) st
  unfolding read_partitions
  read_partitions_lem o [] st = unfold read_rows in refl
  read_partitions_lem o (p ∷ ps) st = rw (read_partition_lem K c t kp vp o p st) (
      let texts = with_prefix (seek_str K c t kp vp o p) (sort_strings (keys_of t.db.entries)) in
      >>=_cong (read_rows K c t kp vp texts st) _ _ (λ st'. read_partitions_lem o ps st')
      ∙ sym (read_rows-append texts (texts_of o ps) st))

  -- `range_read` is the fold of the loop's body over one list: the keys of the database that have the
  -- text of a partition of the range as a prefix, partition by partition and in byte order.
  pub range_read_lem :
      (f : ℕ) (d : Duration) (o : Option K.Key) (start_time end_time : ZonedTime)
      → range_read K c t kp vp f d o start_time end_time ≡ (do
        ps ← get_partitions_from_time_range f d start_time end_time
        st ← read_rows K c t kp vp (texts_of o ps) (start_state K c t kp vp (length ps))
        ok (st.resources, record st.stats { table_name = K.table_name }))
  unfolding range_read
  range_read_lem f d o start_time end_time =
      >>=_cong (get_partitions_from_time_range f d start_time end_time) _ _
        (λ ps. rw (read_partitions_lem o ps (start_state K c t kp vp (length ps))))

  -- For keys whose `==` is equality: every row that `range_read` returns comes from a stored key
  -- whose text starts with the text of one of the partitions of the range, that passes the key
  -- predicate and parses to the row's key, and whose stored value is the row's and passes the value
  -- predicate; and the statistics have at most as many rows behind each test as before it, and no
  -- fewer than are returned.
  pub range_read_sound :
      (f : ℕ) (d : Duration) (o : Option K.Key) (start_time end_time : ZonedTime)
      {rows : List (K.Key × V)} {stats : RangeReadStats}
      → SameIsEqual
      → range_read K c t kp vp f d o start_time end_time ≡ ok (rows, stats)
      → (ps : List Bytes) × (get_partitions_from_time_range f d start_time end_time ≡ ok ps)
        × All (FromStore K c t kp vp (texts_of o ps)) rows
        × (stats.rows_passed_key_predicate_count ≤ stats.rows_visited_count)
        × (stats.rows_passed_value_predicate_count ≤ stats.rows_passed_key_predicate_count)
        × (length rows ≤ stats.rows_passed_value_predicate_count)
  range_read_sound f d o start_time end_time {rows} {stats} s h =
      let (ps, a, b) = >>=-eq-ok _ _ (sym (range_read_lem f d o start_time end_time) ∙ h) in
      let (st, p, q) = >>=-eq-ok _ _ b in
      let (sound, n) =
        read_rows-keeps (texts_of o ps) (texts_of o ps) (start_state K c t kp vp (length ps)) st s
          (λ x m. m) p (tt, omega arith) in
      let r : st.resources ≡ rows = cc q in
      let e : record st.stats { table_name = K.table_name } ≡ stats = cc q in
      (
        ps,
        a,
        subst (All (FromStore K c t kp vp (texts_of o ps))) r sound,
        rw (← e) n.keys,
        rw (← e) n.values,
        rw (← e, ← r) n.rows,
      )
