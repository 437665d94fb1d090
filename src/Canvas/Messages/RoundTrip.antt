-- ===== src/Canvas/Messages/RoundTrip.antt =====
-- canvaservice/handler/types.go: a message that is decoded from its own JSON is the same.
use fawa.Common.{String, ◌≡◌, refl, ap, ◌∙◌, true, List, [], ◌∷◌, Option, none, some, All}
use fawa.Canvas.{DrawEvent}
use fawa.Canvas.Messages.{
  History, ClientDrawRequest, ClientDrawResponse, Json, IsLawfulJson, zero_event, event_fields,
  history_fields, request_fields, response_fields, encode_event, encode_events, encode_history,
  encode_request, encode_response, omit_empty, unmarshal, draw_event_to_json, draw_event_from_json,
  history_to_json, history_from_json, client_draw_request_to_json, client_draw_request_from_json,
  client_draw_response_to_json, client_draw_response_from_json,
}
use fawa.Canvas.Messages.Decoding.{
  Value, Error, Table, fits, then_item, at_pointer, decode_string, decode_int, find_field, field_of,
  set_field, first_error, decode_members, decode_struct, decode_items, decode_slice, decode_pointer,
}

-- The numbers of an event are numbers of 64 bits.
abbrev pub Fits : DrawEvent → Type 0
Fits e =
    (fits e.size ≡ true)
    × (fits e.prev_x ≡ true)
    × (fits e.prev_y ≡ true)
    × (fits e.curr_x ≡ true)
    × (fits e.curr_y ≡ true)
    × (fits e.time ≡ true)

abbrev pub Every : {A : Type 0} → (A → Type 0) → Option A → Type 0
Every P none = Unit
Every P (some a) = P a

abbrev pub HistoryFits : History → Type 0
HistoryFits h = Every (λ (es : List DrawEvent). All Fits es) h.events

module _ (fold : String → String) where
  event_decodes :
      (e : DrawEvent)
      → Fits e
      → decode_struct fold event_fields (encode_event e) zero_event ≡ (e, none)
  unfolding encode_event decode_struct decode_members field_of find_field set_field first_error
      decode_string decode_int
  event_decodes e (a, b, c, d, f, g) = rw (a, b, c, d, f, g) refl

  events_decode :
      (es : List DrawEvent)
      → All Fits es
      → decode_items fold event_fields zero_event (encode_events es) ≡ (es, none)
  unfolding encode_events decode_items then_item first_error
  events_decode [] fit = refl
  events_decode (e ∷ es) (fit, rest) =
      ap (λ d. then_item d (decode_items fold event_fields zero_event (encode_events es)))
        (event_decodes e fit)
      ∙ ap (λ d. then_item (e, none) d) (events_decode es rest)

  history_decodes_from :
      (es : Option (List DrawEvent))
      → Every (All Fits) es
      → decode_struct fold
          (history_fields fold)
          (encode_history (record { events = es }))
          (record { events = none })
        ≡ (record { events = es }, none)
  unfolding encode_history decode_struct decode_members field_of find_field set_field first_error
      decode_slice
  history_decodes_from none fit = refl
  history_decodes_from (some es) fit =
      ap
        (λ (d : List DrawEvent × Option Error).
          (record { events = some d.0 }, first_error d.1 none))
        (events_decode es fit)

  history_decodes :
      (h : History)
      → HistoryFits h
      → decode_struct fold (history_fields fold) (encode_history h) (record { events = none })
        ≡ (h, none)
  history_decodes h fit = history_decodes_from h.events fit

  -- What the pointers of a request and of a response decode to.
  event_pointer_decodes :
      (e : DrawEvent)
      → Fits e
      → decode_pointer fold event_fields zero_event (encode_event e) none ≡ (some e, none)
  unfolding encode_event decode_pointer at_pointer
  event_pointer_decodes e fit = ap (λ d. at_pointer d) (event_decodes e fit)

  history_pointer_decodes :
      (h : History)
      → HistoryFits h
      → decode_pointer fold (history_fields fold) (record { events = none }) (encode_history h) none
        ≡ (some h, none)
  unfolding encode_history decode_pointer at_pointer
  history_pointer_decodes h fit = ap (λ d. at_pointer d) (history_decodes h fit)

  request_decodes_from :
      (o : Option DrawEvent)
      → Every Fits o
      → decode_struct fold
          (request_fields fold)
          (encode_request (record { draw_event = o }))
          (record { draw_event = none })
        ≡ (record { draw_event = o }, none)
  unfolding encode_request omit_empty decode_struct decode_members field_of find_field set_field
      first_error
  request_decodes_from none fit = refl
  request_decodes_from (some e) fit =
      ap
        (λ (d : Option DrawEvent × Option Error).
          (record { draw_event = d.0 }, first_error d.1 none))
        (event_pointer_decodes e fit)

  response_decodes_from :
      (o : Option DrawEvent) (p : Option History)
      → Every Fits o
      → Every HistoryFits p
      → decode_struct fold
          (response_fields fold)
          (encode_response (record { draw_event = o; initial_history = p }))
          (record { draw_event = none; initial_history = none })
        ≡ (record { draw_event = o; initial_history = p }, none)
  unfolding encode_response omit_empty decode_struct decode_members field_of find_field set_field
      first_error
  response_decodes_from none none fit hfit = refl
  response_decodes_from (some e) none fit hfit =
      ap
        (λ (d : Option DrawEvent × Option Error).
          (record { draw_event = d.0; initial_history = none }, first_error d.1 none))
        (event_pointer_decodes e fit)
  response_decodes_from none (some h) fit hfit =
      ap
        (λ (d : Option History × Option Error).
          (record { draw_event = none; initial_history = d.0 }, first_error d.1 none))
        (history_pointer_decodes h hfit)
  response_decodes_from (some e) (some h) fit hfit =
      rw (event_pointer_decodes e fit, history_pointer_decodes h hfit, first_error) refl

-- A `FromJSON` of what was printed decodes the value that was encoded.
unmarshal-print :
    (json : Json)
    → IsLawfulJson json
    → {S : Type 0} (t : Table S) (zero_value : S) (v : Value)
    → unmarshal json t zero_value (json.print v) ≡ decode_struct json.fold t v zero_value
unfolding unmarshal
unmarshal-print json L t zero_value v = rw (unmarshal, L.parse-print v) refl

-- Each of the four `FromJSON` gives back, with no error, what the `ToJSON` of the same type was called
-- on, if the numbers in it are of 64 bits: also where a pointer or the slice of events is nil, and for
-- an empty slice, which comes back as empty and not as nil.
pub from_json-to_json :
    (json : Json) (e : DrawEvent) (h : History) (q : ClientDrawRequest) (r : ClientDrawResponse)
    → IsLawfulJson json
    → Fits e
    → HistoryFits h
    → Every Fits q.draw_event
    → Every Fits r.draw_event
    → Every HistoryFits r.initial_history
    → (draw_event_from_json json (draw_event_to_json json e) ≡ (e, none))
      × (history_from_json json (history_to_json json h) ≡ (h, none))
      × (client_draw_request_from_json json (client_draw_request_to_json json q) ≡ (q, none))
      × (client_draw_response_from_json json (client_draw_response_to_json json r) ≡ (r, none))
unfolding draw_event_from_json draw_event_to_json history_from_json history_to_json
    client_draw_request_from_json client_draw_request_to_json client_draw_response_from_json
    client_draw_response_to_json
from_json-to_json json e h q r L fe fh fq fr fi = (
  unmarshal-print json L event_fields zero_event (encode_event e) ∙ event_decodes json.fold e fe,
  unmarshal-print json L (history_fields json.fold) _ (encode_history h)
      ∙ history_decodes json.fold h fh,
  unmarshal-print json L (request_fields json.fold) _ (encode_request q)
      ∙ request_decodes_from json.fold q.draw_event fq,
  unmarshal-print json L (response_fields json.fold) _ (encode_response r)
      ∙ response_decodes_from json.fold r.draw_event r.initial_history fr fi,
)
