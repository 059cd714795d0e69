-- ===== src/Ingress/Update.antt =====
-- pkg/sloop/ingress/kubewatcher.go: what is sent for one report of an informer, and the rules that
-- exclude reports. `Obj` is the type of the objects of the Kubernetes client.
use sloop.Base.{
  Bool, true, false, ◌&&◌, ◌≡◌, List, [], ◌∷◌, ◌++◌, Option, none, some, All, if◌then◌else◌,
  map_get,
}
use sloop.Base.Bytes.{Bytes, codes, eqb, contains_bytes}
use sloop.Base.Outcome.{Outcome, ok, err, panic, running, ◌>>=◌}
use sloop.KubeExtractor.{Json, event_kind, extract_event_info}
use sloop.Typed.Schema.{KubeWatchResult, WatchType, watch_add, watch_update, watch_delete}

-- The libraries that are called: json.Marshal of a rule and of an object, jsonlogic.Apply, the field
-- `ObjectMeta.Name` by reflection, which is a panic where the object has no such field, and the object
-- in a report on one that was deleted unseen.
pub record Client (Obj Rule : Type 0) : Type 0 where
  pub marshal_rule : Rule → Option Bytes
  pub apply_rule : Bytes → Bytes → Option Bytes
  pub marshal_object : Obj → Option Bytes
  pub object_name : Obj → Option Bytes
  pub final_state : Obj → Option Obj

-- The metrics of events dereference what was extracted, nil where the extraction failed.
unfoldable pub count_event : Json → Bool → Bytes → Bytes → Outcome (Unit {0})
count_event js granular kind resource_json =
    if granular && eqb kind event_kind
    then (elim (extract_event_info js resource_json) [
      | ok info ↦ ok tt
      | err e ↦ panic
      | panic ↦ panic
      | running ↦ running
    ])
    else ok tt

module _ {Obj Rule : Type 0} (c : Client Obj Rule) where
  open c use {marshal_rule, apply_rule, marshal_object, object_name, final_state}

  -- The rules of a kind and those of all kinds.
  unfoldable pub get_exclusion_rules : List (Bytes × List Rule) → Bytes → List Rule
  unfolding map_get
  get_exclusion_rules rules kind =
      (elim (map_get eqb kind rules) as (λ x. List Rule) [ none ↦ [] | some rs ↦ rs ])
      ++ (elim (map_get eqb (codes "_all") rules) as (λ x. List Rule) [ none ↦ [] | some rs ↦ rs ])

  -- What a rule says of an object, `none` where it fails.
  unfoldable pub rule_result : Rule → Bytes → Option Bool
  rule_result rule resource_json = elim (marshal_rule rule) [
    | none ↦ none
    | some logic ↦ elim (apply_rule logic resource_json) [
      | none ↦ none
      | some result ↦ some (contains_bytes result (codes "true"))
    ]
  ]

  -- A rule that fails ends the loop, and the report is not excluded.
  unfoldable pub any_rule : List Rule → Bytes → Bool
  unfolding rule_result
  any_rule [] resource_json = false
  any_rule (rule ∷ rules) resource_json =
      let rest = any_rule rules resource_json in
      elim (rule_result rule resource_json) [ none ↦ false | some hit ↦ if hit then true else rest ]

  unfoldable pub event_excluded : List (Bytes × List Rule) → Bytes → Bytes → Bool
  unfolding get_exclusion_rules any_rule
  event_excluded rules kind resource_json = any_rule (get_exclusion_rules rules kind) resource_json

  module _ {TS : Type 0} (js : Json) (rules : List (Bytes × List Rule)) (granular : Bool) where
    -- `none` where nothing is sent
    unfoldable pub process_update :
        Bytes → Obj → KubeWatchResult TS → Outcome (Option (KubeWatchResult TS))
    unfolding event_excluded count_event
    process_update kind obj watch_result = elim (marshal_object obj) [
      | none ↦ ok none
      | some resource_json ↦
          if event_excluded rules kind resource_json
          then (elim (object_name obj) [ none ↦ panic | some name ↦ ok none ])
          else (do
            u ← count_event js granular kind resource_json
            ok (some (record watch_result { payload = resource_json })))
    ]

    -- A report at the time `now`.
    unfoldable pub report : WatchType → TS → Bytes → Obj → Outcome (Option (KubeWatchResult TS))
    unfolding process_update
    report watch_type now kind obj =
        process_update kind obj
          (record { timestamp = now; kind = kind; watch_type = watch_type; payload = [] })

    unfoldable pub report_add : TS → Bytes → Obj → Outcome (Option (KubeWatchResult TS))
    unfolding report
    report_add now kind obj = report watch_add now kind obj

    unfoldable pub report_update : TS → Bytes → Obj → Outcome (Option (KubeWatchResult TS))
    unfolding report
    report_update now kind new_obj = report watch_update now kind new_obj

    unfoldable pub report_delete : TS → Bytes → Obj → Outcome (Option (KubeWatchResult TS))
    unfolding report
    report_delete now kind obj =
        report watch_delete now kind (elim (final_state obj) [ none ↦ obj | some last ↦ last ])

  -- If a rule fails and no rule in front of it matches, a report is not excluded, whatever the rules
  -- behind it say.
  pub failed_rule_admits :
      (front back : List Rule) (rule : Rule) (resource_json : Bytes)
      → All (λ r. rule_result r resource_json ≡ some false) front
      → rule_result rule resource_json ≡ none
      → any_rule (front ++ rule ∷ back) resource_json ≡ false
  unfolding any_rule
  failed_rule_admits [] back rule j h e = rw (any_rule, e)
  failed_rule_admits (r ∷ front) back rule j (h, hs) e =
      rw (any_rule, h) (failed_rule_admits front back rule j hs e)
