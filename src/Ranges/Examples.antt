-- ===== src/Ranges/Examples.antt =====
-- Loops over maps with two entries, in both orders.
use mathlib.Core.List.{Permᴰ}
use fawa.Common.{ℕ, ◌≡◌, refl, [], ◌∷◌, pos, ◌*◌, ◌^◌}
use fawa.Common.Dict
use fawa.Common.Dict.{Dict, NodupKeys}
use fawa.Canvax.{DrawEvent, Client, broadcast_to_clients}
use fawa.Canvax.System.{for_stream}
use fawa.Canvas.{CanvasSession, clean}
use fawa.Ranges.{any_order}

abbrev stroke : DrawEvent
stroke = record {
  type = "draw";
  color = "blue";
  size = pos 1;
  prev_x = pos 0;
  prev_y = pos 0;
  curr_x = pos 2;
  curr_y = pos 3;
  client_id = "a";
}

abbrev clients : Dict Client
clients = ("a", record { id = "a"; stream = 0 }) ∷ ("b", record { id = "b"; stream = 1 }) ∷ []

abbrev clients_turned : Dict Client
clients_turned =
    ("b", record { id = "b"; stream = 1 }) ∷ ("a", record { id = "a"; stream = 0 }) ∷ []

-- The first session is expired after eleven minutes, the second is not.
abbrev heap : ℕ → CanvasSession
heap p = record {
  code = "abc";
  clients = [];
  history = [];
  broadcast = [];
  last_active = p * 5 * 60 * 10 ^ 9;
}

abbrev sessions : Dict ℕ
sessions = ("abc", 0) ∷ ("xyz", 1) ∷ []

abbrev sessions_turned : Dict ℕ
sessions_turned = ("xyz", 1) ∷ ("abc", 0) ∷ []

sessions_nodup : NodupKeys sessions
unfolding Dict.lookup
sessions_nodup = (refl, (refl, tt))

any_order_example :
    (for_stream 1 (broadcast_to_clients stroke clients_turned)
      ≡ for_stream 1 (broadcast_to_clients stroke clients))
    × (Dict.lookup "abc" (clean (11 * 60 * 10 ^ 9) heap sessions_turned)
        ≡ Dict.lookup "abc" (clean (11 * 60 * 10 ^ 9) heap sessions))
any_order_example =
    any_order stroke 1 (11 * 60 * 10 ^ 9) heap "abc" (Permᴰ.swap refl refl) (Permᴰ.swap refl refl)
      sessions_nodup
