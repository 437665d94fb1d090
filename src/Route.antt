-- ===== src/Route.antt =====
-- The generated code of the services under gen/*/v1/*connect: which paths and URLs the RPCs have, and
-- how a request comes to the method of a handler. The runtime of connect and `http.NotFound` are a
-- parameter.
pub mod GreetConnect
pub mod FileConnect
pub mod CanvaConnect
pub mod Mux
pub mod Agreement
pub mod Network
pub mod Memory
mod Examples
use fawa.Common.{Option, none, some, String, str_eq, List, [], ◌∷◌, ◌≡◌, if◌then◌else◌}

-- The codes of connect's errors that the generated code uses.
pub data Code : Type 0 where
  code_unimplemented : Code

-- `connectrpc.com/connect`: a method of each kind as `NewUnaryHandler` and its like take it, the handler
-- that they make of it, a method that does nothing but return `connect.NewError`, and a client. A
-- handler serves a request whose path was chosen already, so `http.NotFound` is one, too.
pub record Connect : Type 1 where
  pub Unary : Type 0
  pub ServerStream : Type 0
  pub ClientStream : Type 0
  pub BidiStream : Type 0
  pub Handler : Type 0
  pub Client : Type 0
  pub new_unary_handler : String → Unary → Handler
  pub new_server_stream_handler : String → ServerStream → Handler
  pub new_client_stream_handler : String → ClientStream → Handler
  pub new_bidi_stream_handler : String → BidiStream → Handler
  pub not_found : Handler
  pub error_unary : Code → String → Unary
  pub error_server_stream : Code → String → ServerStream
  pub error_client_stream : Code → String → ClientStream
  pub error_bidi_stream : Code → String → BidiStream
  pub new_client : String → Client
  pub url : Client → String

-- What is documented of connect: a client that is made for a URL calls that URL.
pub record IsLawfulConnect (C : Connect) : Type 0 where
  pub url-new_client : (u : String) → C.url (C.new_client u) ≡ u

-- The calls of a client. A `Run` is what a method of one kind does; `method` makes a method of it.
-- `call` is the run that a call starts, where the network, a function from URLs, finds a handler.
pub record Calls (C : Connect) (Method : Type 0) (new_handler : String → Method → C.Handler)
    (Run : Type 0) : Type 0 where
  pub method : Run → Method
  pub call : C.Client → (String → Option C.Handler) → Option Run

-- A call to a URL that a handler answers runs the method that the handler was made of.
pub record IsLawfulCalls (C : Connect) (Method : Type 0) (new_handler : String → Method → C.Handler)
    (Run : Type 0) (Q : Calls C Method new_handler Run) : Type 0 where
  pub call-method :
      (client : C.Client) (net : String → Option C.Handler) (procedure : String) (run : Run)
      → net (C.url client) ≡ some (new_handler procedure (Q.method run))
      → Q.call client net ≡ some run

abbrev pub UnaryCalls : Connect → Type 0 → Type 0
UnaryCalls C Run = Calls C C.Unary C.new_unary_handler Run

abbrev pub ServerStreamCalls : Connect → Type 0 → Type 0
ServerStreamCalls C Run = Calls C C.ServerStream C.new_server_stream_handler Run

abbrev pub ClientStreamCalls : Connect → Type 0 → Type 0
ClientStreamCalls C Run = Calls C C.ClientStream C.new_client_stream_handler Run

abbrev pub BidiStreamCalls : Connect → Type 0 → Type 0
BidiStreamCalls C Run = Calls C C.BidiStream C.new_bidi_stream_handler Run

-- `CallUnary` and `CallServerStream`, which send one request; the calls of the other kinds send
-- nothing at first.
unfoldable pub call_with :
    {C : Connect} {Method A B : Type 0} {new_handler : String → Method → C.Handler}
    → Calls C Method new_handler (A → B)
    → C.Client
    → (String → Option C.Handler)
    → A
    → Option B
call_with Q client net a = elim (Q.call client net) [ none ↦ none | some run ↦ some (run a) ]

-- `switch path`, with its cases in order and its default.
unfoldable pub switch {ℓ} : {H : Type ℓ} → List (String × H) → H → String → H
switch [] other path = other
switch ((procedure, handler) ∷ cases) other path =
    let rest = switch cases other path in if str_eq path procedure then handler else rest

-- `strings.TrimRight` with the cutset `/`.
unfoldable pub trim_right : String → String
trim_right String.[] = ""
trim_right (String.◌∷◌ c s) =
    let rest = trim_right s in if str_eq (String.◌∷◌ c rest) "/" then "" else String.◌∷◌ c rest
