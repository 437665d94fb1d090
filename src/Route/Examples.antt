-- ===== src/Route/Examples.antt =====
-- The agreement of the generated clients and handlers, on a connect whose handlers are texts.
use Prim.Native.String.{◌++◌ as ◌<>◌}
use fawa.Common.{String, ℕ, ◌≡◌, ◌≢◌, refl}
use fawa.Route.{Connect, IsLawfulConnect}
use fawa.Route.GreetConnect.{
  GreetServiceHandler, new_greet_service_handler, unimplemented_greet_service_handler,
}
use fawa.Route.FileConnect.{
  FileServiceHandler, new_file_service_handler, unimplemented_file_service_handler,
}
use fawa.Route.CanvaConnect.{
  CanvaServiceHandler, new_canva_service_handler, unimplemented_canva_service_handler,
}
use fawa.Route.Agreement.{slashes, GreetReaches, FileReaches, CanvaReaches, clients-Reaches}

abbrev texts : Connect
texts = record {
  Unary = String;
  ServerStream = String;
  ClientStream = String;
  BidiStream = String;
  Handler = String;
  Client = String;
  new_unary_handler = λ p m. p <> (" unary " <> m);
  new_server_stream_handler = λ p m. p <> (" server stream " <> m);
  new_client_stream_handler = λ p m. p <> (" client stream " <> m);
  new_bidi_stream_handler = λ p m. p <> (" bidi stream " <> m);
  not_found = "404";
  error_unary = λ code m. m;
  error_server_stream = λ code m. m;
  error_client_stream = λ code m. m;
  error_bidi_stream = λ code m. m;
  new_client = λ u. u;
  url = λ u. u;
}

texts-IsLawfulConnect : IsLawfulConnect texts
texts-IsLawfulConnect = record { url-new_client = λ u. refl }

abbrev greeter : GreetServiceHandler texts
greeter = record {
  say_hello = "SayHello";
  greet_stream = "GreetStream";
  greet_client_stream = "GreetClientStream";
  greet_bidi_stream = "GreetBidiStream";
}

abbrev files : FileServiceHandler texts
files = record {
  send_file = "SendFile";
  receive_file = "ReceiveFile";
  get_download_url = "GetDownloadURL";
}

abbrev board : CanvaServiceHandler texts
board = record { collaborate = "Collaborate" }

clients-Reaches_example :
    (origin : String) × ((n : ℕ) × ("https://fawa.io/rpc//" ≡ origin <> slashes n))
    × ((s : String) → origin ≢ s <> "/")
    × GreetReaches texts origin "https://fawa.io/rpc//" greeter
    × FileReaches texts origin "https://fawa.io/rpc//" files
    × CanvaReaches texts origin "https://fawa.io/rpc//" board
clients-Reaches_example =
    clients-Reaches texts "https://fawa.io/rpc//" greeter files board texts-IsLawfulConnect

answers_greeting :
    (new_greet_service_handler texts greeter).1 "/greet.v1.GreetService/GreetStream"
    ≡ "/greet.v1.GreetService/GreetStream server stream GreetStream"
unfolding new_greet_service_handler
answers_greeting = refl

unimplemented :
    ((new_greet_service_handler texts (unimplemented_greet_service_handler texts)).1
        "/greet.v1.GreetService/SayHello"
      ≡ "/greet.v1.GreetService/SayHello unary greet.v1.GreetService.SayHello is not implemented")
    × ((new_file_service_handler texts (unimplemented_file_service_handler texts)).1
          "/file.v1.FileService/ReceiveFile"
        ≡ "/file.v1.FileService/ReceiveFile server stream file.v1.FileService.ReceiveFile is not implemented")
    × ((new_canva_service_handler texts (unimplemented_canva_service_handler texts)).1
          "/canva.v1.CanvaService/Collaborate"
        ≡ "/canva.v1.CanvaService/Collaborate bidi stream canva.v1.CanvaService.Collaborate is not implemented")
unfolding new_greet_service_handler new_file_service_handler new_canva_service_handler
    unimplemented_greet_service_handler unimplemented_file_service_handler
    unimplemented_canva_service_handler
unimplemented = (refl, refl, refl)
