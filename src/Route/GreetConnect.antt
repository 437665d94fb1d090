-- ===== src/Route/GreetConnect.antt =====
-- greetservice/gen/greet/v1/greetv1connect/hello.connect.go
use Prim.Native.String.{◌++◌ as ◌<>◌}
use fawa.Common.{Option, String, List, [], ◌∷◌}
use fawa.Route.{
  UnaryCalls, ServerStreamCalls, ClientStreamCalls, BidiStreamCalls, call_with, Connect,
  code_unimplemented, switch, trim_right,
}

abbrev pub say_hello_procedure : String
say_hello_procedure = "/greet.v1.GreetService/SayHello"

abbrev pub greet_stream_procedure : String
greet_stream_procedure = "/greet.v1.GreetService/GreetStream"

abbrev pub greet_client_stream_procedure : String
greet_client_stream_procedure = "/greet.v1.GreetService/GreetClientStream"

abbrev pub greet_bidi_stream_procedure : String
greet_bidi_stream_procedure = "/greet.v1.GreetService/GreetBidiStream"

module _ (C : Connect) where
  pub record GreetServiceHandler : Type 0 where
    pub say_hello : C.Unary
    pub greet_stream : C.ServerStream
    pub greet_client_stream : C.ClientStream
    pub greet_bidi_stream : C.BidiStream

  -- The cases of the switch on the path.
  abbrev pub greet_cases : GreetServiceHandler → List (String × C.Handler)
  greet_cases svc =
      (say_hello_procedure, C.new_unary_handler say_hello_procedure svc.say_hello)
      ∷ (
        greet_stream_procedure,
        C.new_server_stream_handler greet_stream_procedure svc.greet_stream,
      )
      ∷ (
        greet_client_stream_procedure,
        C.new_client_stream_handler greet_client_stream_procedure svc.greet_client_stream,
      )
      ∷ (
        greet_bidi_stream_procedure,
        C.new_bidi_stream_handler greet_bidi_stream_procedure svc.greet_bidi_stream,
      )
      ∷ []

  -- The path to mount the handler on, and the handler.
  unfoldable pub new_greet_service_handler : GreetServiceHandler → String × (String → C.Handler)
  unfolding switch
  new_greet_service_handler svc = ("/greet.v1.GreetService/", switch (greet_cases svc) C.not_found)

  unfoldable pub unimplemented_greet_service_handler : GreetServiceHandler
  unimplemented_greet_service_handler = record {
    say_hello =
        C.error_unary code_unimplemented "greet.v1.GreetService.SayHello is not implemented";
    greet_stream =
        C.error_server_stream code_unimplemented
          "greet.v1.GreetService.GreetStream is not implemented";
    greet_client_stream =
        C.error_client_stream code_unimplemented
          "greet.v1.GreetService.GreetClientStream is not implemented";
    greet_bidi_stream =
        C.error_bidi_stream code_unimplemented
          "greet.v1.GreetService.GreetBidiStream is not implemented";
  }

  -- The client of each method.
  pub record GreetServiceClient : Type 0 where
    pub say_hello : C.Client
    pub greet_stream : C.Client
    pub greet_client_stream : C.Client
    pub greet_bidi_stream : C.Client

  unfoldable pub new_greet_service_client : String → GreetServiceClient
  unfolding trim_right
  new_greet_service_client base_url =
      let base = trim_right base_url in
      record {
        say_hello = C.new_client (base <> say_hello_procedure);
        greet_stream = C.new_client (base <> greet_stream_procedure);
        greet_client_stream = C.new_client (base <> greet_client_stream_procedure);
        greet_bidi_stream = C.new_client (base <> greet_bidi_stream_procedure);
      }

-- The methods of `GreetServiceClient`.
module _ (C : Connect) {A B : Type 0} where
  unfoldable pub call_say_hello :
      UnaryCalls C (A → B) → GreetServiceClient C → (String → Option C.Handler) → A → Option B
  unfolding call_with
  call_say_hello Q c net req = call_with Q c.say_hello net req

  unfoldable pub call_greet_stream :
      ServerStreamCalls C (A → B)
      → GreetServiceClient C
      → (String → Option C.Handler)
      → A
      → Option B
  unfolding call_with
  call_greet_stream Q c net req = call_with Q c.greet_stream net req

module _ (C : Connect) {Run : Type 0} where
  unfoldable pub call_greet_client_stream :
      ClientStreamCalls C Run → GreetServiceClient C → (String → Option C.Handler) → Option Run
  call_greet_client_stream Q c net = Q.call c.greet_client_stream net

  unfoldable pub call_greet_bidi_stream :
      BidiStreamCalls C Run → GreetServiceClient C → (String → Option C.Handler) → Option Run
  call_greet_bidi_stream Q c net = Q.call c.greet_bidi_stream net
