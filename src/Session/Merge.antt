-- ===== src/Session/Merge.antt =====
-- mergeableDeltaEvent of agenthub/internal/session/store.go: a streaming text delta that continues
-- the last event. A JSON object is a list of its fields, one for each key.
use pua.Prelude.{
  ℕ, Bool, true, false, ◌&&◌, ◌||◌, ◌==◌, ltb, length, last?, Option, none, some, List, [], ◌∷◌,
  ◌++◌, Text, txt, text_eq, if◌then◌else◌,
}
use pua.Session.Types.{
  EventType, assistant_delta, reasoning_delta, Event, Value, string, other_value, Codec,
}

abbrev pub Fields : Type 0
Fields = List (Text × Value)

abbrev pub max_merged_delta_event_bytes : ℕ
max_merged_delta_event_bytes = 32768

unfoldable pub get_field : Text → Fields → Option Value
get_field k [] = none
get_field k ((j, v) ∷ fs) = if text_eq j k then some v else get_field k fs

unfoldable pub put_field : Text → Value → Fields → Fields
put_field k v [] = (k, v) ∷ []
put_field k v ((j, w) ∷ fs) =
    let rest = put_field k v fs in if text_eq j k then (k, v) ∷ fs else (j, w) ∷ rest

abbrev pub text_of : Option Value → Option Text
text_of (some (string s)) = some s
text_of _ = none

-- reflect.DeepEqual with a value that may be absent.
unfoldable pub value_eq : Option Value → Value → Bool
value_eq (some (string s)) (string t) = text_eq s t
value_eq (some (other_value s)) (other_value t) = text_eq s t
value_eq _ _ = false

-- Every field but the text stands in the other object, with the same value.
unfoldable pub fields_agree : Fields → Fields → Bool
unfolding get_field value_eq
fields_agree others [] = true
fields_agree others ((k, v) ∷ fs) =
    (text_eq k (txt "text") || value_eq (get_field k others) v) && fields_agree others fs

-- `last.Type == event.Type`, where the event is a delta.
abbrev pub same_delta : EventType → EventType → Bool
same_delta assistant_delta assistant_delta = true
same_delta reasoning_delta reasoning_delta = true
same_delta _ _ = false

-- The texts are appended, and the patch is flagged.
unfoldable pub merge_texts : Fields → Fields → Option Text → Option Text → Option (Fields × Fields)
unfolding put_field
merge_texts last event (some a) (some b) = some (
  put_field (txt "text") (string (a ++ b)) last,
  put_field (txt "append") (other_value (txt "true")) event,
)
merge_texts last event _ _ = none

unfoldable pub merge_fields : Fields → Fields → Option (Fields × Fields)
unfolding merge_texts fields_agree get_field
merge_fields last event =
    if length last == length event && fields_agree last event
    then merge_texts last event (text_of (get_field (txt "text") last))
        (text_of (get_field (txt "text") event))
    else none

abbrev pub merge_decoded : Option Fields → Option Fields → Option (Fields × Fields)
merge_decoded (some a) (some b) = merge_fields a b
merge_decoded _ _ = none

module _ (codec : Codec) where
  open codec use {decode_object}

  unfoldable pub mergeable_with : Event → Event → Option (Fields × Fields)
  unfolding merge_fields
  mergeable_with last e =
      if same_delta last.kind e.kind
        && text_eq last.turn_id e.turn_id
        && ltb (length last.payload) max_merged_delta_event_bytes
      then merge_decoded (decode_object last.payload) (decode_object e.payload)
      else none

  -- The last event, its fields with the merged text, and the patch.
  unfoldable pub mergeable : List Event → Event → Option (Event × Fields × Fields)
  unfolding mergeable_with
  mergeable events e = elim (last? events) [
    | none ↦ none
    | some last ↦ elim (mergeable_with last e) [
      | none ↦ none
      | some (merged, patch) ↦ some (last, merged, patch)
    ]
  ]
