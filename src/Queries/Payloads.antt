-- ===== src/Queries/Payloads.antt =====
-- pkg/sloop/queries/respayloadquery.go: the payloads that an object had over time, without those that
-- repeat the one before.
pub mod Replay
use sloop.Base.{ℕ, Bool, true, false, not, List, [], ◌∷◌, map, if◌then◌else◌}
use sloop.Base.Int.{ℤ}
use sloop.Base.Bytes.{Bytes, codes, eqb}
use sloop.GoTime.{Time, zero_time, unix_nano}
use sloop.KubeExtractor.{is_clusters_scoped_resource}
use sloop.Typed.Schema.{KubeWatchResult}
use sloop.Typed.WatchKey.{WatchTableKey, to_string, new_comparator}

pub record PayloadOutput : Type 0 where
  pub payload_time : ℤ
  pub payload : Bytes
  pub payload_key : Bytes

-- The arguments are the parameters of the query.
unfoldable pub get_key_comparator : Bytes → Bytes → Bytes → WatchTableKey
get_key_comparator selected_namespace selected_name selected_kind =
    new_comparator selected_kind
      (if is_clusters_scoped_resource selected_kind then [] else selected_namespace) selected_name
      zero_time

unfoldable pub get_payload_output_list :
    {TS : Type 0} → List (WatchTableKey × KubeWatchResult TS) → List PayloadOutput
unfolding unix_nano
get_payload_output_list [] = []
get_payload_output_list ((key, val) ∷ watch_res) =
    (record {
      payload_time = unix_nano key.timestamp;
      payload = val.payload;
      payload_key = to_string key;
    })
    ∷ get_payload_output_list watch_res

-- The loop; `last_payload` is the payload before.
unfoldable pub drop_repeats : Bytes → List PayloadOutput → List PayloadOutput
drop_repeats last_payload [] = []
drop_repeats last_payload (val ∷ payloads) =
    let rest = drop_repeats val.payload payloads in
    if not (eqb val.payload last_payload) then val ∷ rest else rest

-- sort.Slice by time is the argument `sort_slice`.
unfoldable pub remove_dupe_payloads :
    (List PayloadOutput → List PayloadOutput) → List PayloadOutput → List PayloadOutput
unfolding drop_repeats
remove_dupe_payloads sort_slice payloads = drop_repeats [] (sort_slice payloads)
