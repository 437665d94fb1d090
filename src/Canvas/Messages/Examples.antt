-- ===== src/Canvas/Messages/Examples.antt =====
-- The messages of canvaservice at concrete data.
use fawa.Common.{◌≡◌, ◌^◌, refl, [], ◌∷◌, none, some, inl, pos, negsuc}
use fawa.Canvas.{DrawEvent}
use fawa.Canvas.Messages.{
  History, ClientDrawRequest, ClientDrawResponse, Json, IsLawfulJson, new_draw_event,
  draw_event_to_json, draw_event_from_json, history_to_json, history_from_json,
  client_draw_request_to_json, client_draw_request_from_json, client_draw_response_to_json,
  client_draw_response_from_json,
}
use fawa.Canvas.Messages.Decoding.{
  Value, number, string, object, no_member, member, type_mismatch, fits, decode_string, decode_int,
}
use fawa.Canvas.Messages.RoundTrip.{from_json-to_json}

-- JSON that is not written out.
abbrev trees : Json
trees = record { Bytes = Value; print = λ v. v; parse = λ v. inl v; fold = λ key. key }

trees-IsLawfulJson : IsLawfulJson trees
trees-IsLawfulJson = record { parse-print = λ v. refl }

abbrev line_drawn : DrawEvent
line_drawn =
    new_draw_event "draw" "red" "7f3a" (pos 2) (negsuc 4) (pos 0) (pos 5) (pos 7)
      (pos 1700000000000)

abbrev two_lines : History
two_lines = record { events = some (line_drawn ∷ line_drawn ∷ []) }

abbrev empty_request : ClientDrawRequest
empty_request = record { draw_event = none }

abbrev history_response : ClientDrawResponse
history_response = record { draw_event = none; initial_history = some two_lines }

from_json-to_json_example :
    (draw_event_from_json trees (draw_event_to_json trees line_drawn) ≡ (line_drawn, none))
    × (history_from_json trees (history_to_json trees two_lines) ≡ (two_lines, none))
    × (client_draw_request_from_json trees (client_draw_request_to_json trees empty_request)
        ≡ (empty_request, none))
    × (client_draw_response_from_json trees (client_draw_response_to_json trees history_response)
        ≡ (history_response, none))
unfolding new_draw_event fits
from_json-to_json_example =
    from_json-to_json trees line_drawn two_lines empty_request history_response trees-IsLawfulJson
      (refl, refl, refl, refl, refl, refl)
      ((refl, refl, refl, refl, refl, refl), ((refl, refl, refl, refl, refl, refl), tt)) tt tt
      ((refl, refl, refl, refl, refl, refl), ((refl, refl, refl, refl, refl, refl), tt))

-- A number that is too large is reported and left out, and the member behind it is decoded.
too_large :
    draw_event_from_json trees (
      object (
        member "size"
          (number (pos (2 ^ 63)))
          (member "color" (string "red") (member "pen" (string "fine") no_member))))
    ≡ (
      record (draw_event_from_json trees (object no_member)).0 { color = "red" },
      some type_mismatch,
    )
unfolding draw_event_from_json decode_string decode_int
too_large = refl
