-- ===== src/Route/Memory.antt =====
-- A connect in memory, in which a handler is its method, and a network of one service, for examples.
use Prim.Native.String.{◌++◌ as ◌<>◌}
use text.Mathlib.TextLemmas.{nil-append, cons-append}
use fawa.Common.{String, ◌≡◌, refl, ap, ◌∙◌, List, Option, none, some}
use fawa.Route.{
  Connect, IsLawfulConnect, UnaryCalls, ServerStreamCalls, ClientStreamCalls, BidiStreamCalls,
  IsLawfulCalls,
}
use fawa.Route.Mux.{Served, served, redirects, not_found, serve}
use fawa.Route.Network.{IsServed}

-- A handler for a method of each kind, if it is implemented.
pub data Method (U S K B : Type 0) : Type 0 where
  unary : Option U → Method U S K B
  server_stream : Option S → Method U S K B
  client_stream : Option K → Method U S K B
  bidi_stream : Option B → Method U S K B
  missing : Method U S K B

module _ (U S K B : Type 0) where
  abbrev pub memory_connect : Connect
  memory_connect = record {
    Unary = Option U;
    ServerStream = Option S;
    ClientStream = Option K;
    BidiStream = Option B;
    Handler = Method U S K B;
    Client = String;
    new_unary_handler = λ procedure m. unary m;
    new_server_stream_handler = λ procedure m. server_stream m;
    new_client_stream_handler = λ procedure m. client_stream m;
    new_bidi_stream_handler = λ procedure m. bidi_stream m;
    not_found = missing;
    error_unary = λ code m. none;
    error_server_stream = λ code m. none;
    error_client_stream = λ code m. none;
    error_bidi_stream = λ code m. none;
    new_client = λ u. u;
    url = λ client. client;
  }

  pub memory_connect-IsLawful : IsLawfulConnect memory_connect
  memory_connect-IsLawful = record { url-new_client = λ u. refl }

  abbrev unary_of : Option (Method U S K B) → Option U
  unary_of (some (unary m)) = m
  unary_of _ = none

  abbrev server_stream_of : Option (Method U S K B) → Option S
  server_stream_of (some (server_stream m)) = m
  server_stream_of _ = none

  abbrev client_stream_of : Option (Method U S K B) → Option K
  client_stream_of (some (client_stream m)) = m
  client_stream_of _ = none

  abbrev bidi_stream_of : Option (Method U S K B) → Option B
  bidi_stream_of (some (bidi_stream m)) = m
  bidi_stream_of _ = none

  abbrev pub unary_calls : UnaryCalls memory_connect U
  unary_calls = record { method = λ run. some run; call = λ client net. unary_of (net client) }

  abbrev pub server_stream_calls : ServerStreamCalls memory_connect S
  server_stream_calls = record {
    method = λ run. some run;
    call = λ client net. server_stream_of (net client);
  }

  abbrev pub client_stream_calls : ClientStreamCalls memory_connect K
  client_stream_calls = record {
    method = λ run. some run;
    call = λ client net. client_stream_of (net client);
  }

  abbrev pub bidi_stream_calls : BidiStreamCalls memory_connect B
  bidi_stream_calls = record {
    method = λ run. some run;
    call = λ client net. bidi_stream_of (net client);
  }

  pub unary_calls-IsLawful : IsLawfulCalls memory_connect _ _ U unary_calls
  unary_calls-IsLawful = record {
    call-method = λ client net procedure run found. ap unary_of found;
  }

  pub server_stream_calls-IsLawful : IsLawfulCalls memory_connect _ _ S server_stream_calls
  server_stream_calls-IsLawful = record {
    call-method = λ client net procedure run found. ap server_stream_of found;
  }

  pub client_stream_calls-IsLawful : IsLawfulCalls memory_connect _ _ K client_stream_calls
  client_stream_calls-IsLawful = record {
    call-method = λ client net procedure run found. ap client_stream_of found;
  }

  pub bidi_stream_calls-IsLawful : IsLawfulCalls memory_connect _ _ B bidi_stream_calls
  bidi_stream_calls-IsLawful = record {
    call-method = λ client net procedure run found. ap bidi_stream_of found;
  }

-- What stands behind an origin in a URL.
unfoldable pub below : String → String → String
below String.[] u = u
below (String.◌∷◌ c s) String.[] = ""
below (String.◌∷◌ c s) (String.◌∷◌ d u) = below s u

below-append : (origin path : String) → below origin (origin <> path) ≡ path
unfolding below
below-append String.[] path = nil-append path
below-append (String.◌∷◌ c s) path =
    ap (below (String.◌∷◌ c s)) (cons-append c s path) ∙ below-append s path

module _ (C : Connect) where
  abbrev pub from_mux : Served (String → C.Handler) → String → Option C.Handler
  from_mux (served handler) path = some (handler path)
  from_mux (redirects to) path = none
  from_mux not_found path = none

  abbrev pub network : String → List (String × (String → C.Handler)) → String → Option C.Handler
  network origin routes u = from_mux (serve routes (below origin u)) (below origin u)

  pub network-IsServed :
      (origin : String) (routes : List (String × (String → C.Handler)))
      → IsServed C origin routes (network origin routes)
  network-IsServed origin routes path handler found =
      ap (λ p. from_mux (serve routes p) p) (below-append origin path)
      ∙ ap (λ s. from_mux s path) found
