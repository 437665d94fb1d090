-- ===== src/Canvas/Messages.antt =====
-- canvaservice/handler/types.go: the messages as JSON. `encoding/json` is modelled as far as these types
-- use it, on trees of JSON; its way from bytes to trees and back is a parameter. The field `fold`
-- of that parameter is the folding of keys that are no exact match.
pub mod Decoding
pub mod RoundTrip
mod Examples
use fawa.Common.{◌≡◌, String, List, [], ◌∷◌, Option, none, some, ◌⊎◌, inl, inr, ℤ, pos}
use fawa.Canvas.{DrawEvent}
use fawa.Canvas.Messages.Decoding.{
  Value, null, number, string, array, object, Values, empty, item, Members, no_member, member,
  Error, Table, decode_string, decode_int, decode_struct, decode_pointer, decode_slice,
}

-- `Events` is `none` where the slice is nil.
pub record History : Type 0 where
  pub events : Option (List DrawEvent)

pub record ClientDrawRequest : Type 0 where
  pub draw_event : Option DrawEvent

pub record ClientDrawResponse : Type 0 where
  pub draw_event : Option DrawEvent
  pub initial_history : Option History

-- `time` is what `time.Now().UnixMilli()` gives.
unfoldable pub new_draw_event :
    (event_type color client_id : String) (size prev_x prev_y curr_x curr_y time : ℤ) → DrawEvent
new_draw_event event_type color client_id size prev_x prev_y curr_x curr_y time = record {
  type = event_type;
  color = color;
  size = size;
  prev_x = prev_x;
  prev_y = prev_y;
  curr_x = curr_x;
  curr_y = curr_y;
  client_id = client_id;
  time = time;
}

abbrev pub zero_event : DrawEvent
zero_event = record {
  type = "";
  color = "";
  size = pos 0;
  prev_x = pos 0;
  prev_y = pos 0;
  curr_x = pos 0;
  curr_y = pos 0;
  client_id = "";
  time = pos 0;
}

unfoldable pub encode_event : DrawEvent → Value
encode_event e = object (
    member "type" (string e.type) (
      member "color" (string e.color) (
        member "size" (number e.size) (
          member "prev_x" (number e.prev_x) (
            member "prev_y" (number e.prev_y) (
              member "curr_x" (number e.curr_x) (
                member "curr_y" (number e.curr_y) (
                  member "client_id" (string e.client_id)
                    (member "time" (number e.time) no_member)))))))))

unfoldable pub encode_events : List DrawEvent → Values
unfolding encode_event
encode_events [] = empty
encode_events (e ∷ es) = item (encode_event e) (encode_events es)

unfoldable pub encode_history : History → Value
unfolding encode_events
encode_history h =
    object (
      member "events" (elim h.events [ none ↦ null | some es ↦ array (encode_events es) ])
        no_member)

-- A member that is left out where it is nil (`omitempty`).
unfoldable pub omit_empty : String → Option Value → Members → Members
omit_empty key none rest = rest
omit_empty key (some v) rest = member key v rest

unfoldable pub encode_request : ClientDrawRequest → Value
unfolding omit_empty encode_event
encode_request r = object (
    omit_empty "draw_event" (elim r.draw_event [ none ↦ none | some e ↦ some (encode_event e) ])
      no_member)

unfoldable pub encode_response : ClientDrawResponse → Value
unfolding omit_empty encode_event encode_history
encode_response r = object (
    omit_empty "draw_event" (elim r.draw_event [ none ↦ none | some e ↦ some (encode_event e) ])
      (omit_empty "initial_history"
        (elim r.initial_history [ none ↦ none | some h ↦ some (encode_history h) ]) no_member))

abbrev pub event_fields : Table DrawEvent
event_fields =
    ("type", λ v e. let (x, err) = decode_string v e.type in (record e { type = x }, err))
    ∷ ("color", λ v e. let (x, err) = decode_string v e.color in (record e { color = x }, err))
    ∷ ("size", λ v e. let (x, err) = decode_int v e.size in (record e { size = x }, err))
    ∷ ("prev_x", λ v e. let (x, err) = decode_int v e.prev_x in (record e { prev_x = x }, err))
    ∷ ("prev_y", λ v e. let (x, err) = decode_int v e.prev_y in (record e { prev_y = x }, err))
    ∷ ("curr_x", λ v e. let (x, err) = decode_int v e.curr_x in (record e { curr_x = x }, err))
    ∷ ("curr_y", λ v e. let (x, err) = decode_int v e.curr_y in (record e { curr_y = x }, err))
    ∷ (
      "client_id",
      λ v e. let (x, err) = decode_string v e.client_id in (record e { client_id = x }, err),
    )
    ∷ ("time", λ v e. let (x, err) = decode_int v e.time in (record e { time = x }, err))
    ∷ []

abbrev pub history_fields : (String → String) → Table History
history_fields fold =
    (
      "events",
      λ v h.
          let (x, err) = decode_slice fold event_fields zero_event v h.events in
          (record { events = x }, err),
    )
    ∷ []

abbrev pub request_fields : (String → String) → Table ClientDrawRequest
request_fields fold =
    (
      "draw_event",
      λ v r.
          let (x, err) = decode_pointer fold event_fields zero_event v r.draw_event in
          (record { draw_event = x }, err),
    )
    ∷ []

abbrev pub response_fields : (String → String) → Table ClientDrawResponse
response_fields fold =
    (
      "draw_event",
      λ v r.
          let (x, err) = decode_pointer fold event_fields zero_event v r.draw_event in
          (record r { draw_event = x }, err),
    )
    ∷ (
      "initial_history",
      λ v r.
          let (x, err) =
            decode_pointer fold (history_fields fold) (record { events = none }) v
              r.initial_history in
          (record r { initial_history = x }, err),
    )
    ∷ []

-- The bytes of JSON, their syntax, and the folding of keys.
pub record Json : Type 1 where
  pub Bytes : Type 0
  pub print : Value → Bytes
  pub parse : Bytes → Value ⊎ Error
  pub fold : String → String

-- What is documented of `encoding/json`: what `Marshal` writes is the JSON of the value.
pub record IsLawfulJson (json : Json) : Type 0 where
  pub parse-print : (v : Value) → json.parse (json.print v) ≡ inl v

module _ (json : Json) where
  -- `json.Unmarshal` into a zero value, which is returned with the error, if any.
  unfoldable pub unmarshal : {S : Type 0} → Table S → S → json.Bytes → S × Option Error
  unfolding decode_struct
  unmarshal t start data' = elim (json.parse data') [
    | inl v ↦ decode_struct json.fold t v start
    | inr err ↦ (start, some err)
  ]

  unfoldable pub draw_event_to_json : DrawEvent → json.Bytes
  unfolding encode_event
  draw_event_to_json x = json.print (encode_event x)

  unfoldable pub draw_event_from_json : json.Bytes → DrawEvent × Option Error
  unfolding unmarshal
  draw_event_from_json = unmarshal event_fields zero_event

  unfoldable pub history_to_json : History → json.Bytes
  unfolding encode_history
  history_to_json x = json.print (encode_history x)

  unfoldable pub history_from_json : json.Bytes → History × Option Error
  unfolding unmarshal
  history_from_json = unmarshal (history_fields json.fold) (record { events = none })

  unfoldable pub client_draw_request_to_json : ClientDrawRequest → json.Bytes
  unfolding encode_request
  client_draw_request_to_json x = json.print (encode_request x)

  unfoldable pub client_draw_request_from_json : json.Bytes → ClientDrawRequest × Option Error
  unfolding unmarshal
  client_draw_request_from_json =
      unmarshal (request_fields json.fold) (record { draw_event = none })

  unfoldable pub client_draw_response_to_json : ClientDrawResponse → json.Bytes
  unfolding encode_response
  client_draw_response_to_json x = json.print (encode_response x)

  unfoldable pub client_draw_response_from_json : json.Bytes → ClientDrawResponse × Option Error
  unfolding unmarshal
  client_draw_response_from_json =
      unmarshal (response_fields json.fold) (record { draw_event = none; initial_history = none })
