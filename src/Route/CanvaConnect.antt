-- ===== src/Route/CanvaConnect.antt =====
-- canvaxservice/gen/canva/v1/canvav1connect/canva.connect.go
use Prim.Native.String.{◌++◌ as ◌<>◌}
use fawa.Common.{Option, String, List, [], ◌∷◌}
use fawa.Route.{BidiStreamCalls, Connect, code_unimplemented, switch, trim_right}

abbrev pub collaborate_procedure : String
collaborate_procedure = "/canva.v1.CanvaService/Collaborate"

module _ (C : Connect) where
  pub record CanvaServiceHandler : Type 0 where
    pub collaborate : C.BidiStream

  -- The cases of the switch on the path.
  abbrev pub canva_cases : CanvaServiceHandler → List (String × C.Handler)
  canva_cases svc =
      (collaborate_procedure, C.new_bidi_stream_handler collaborate_procedure svc.collaborate) ∷ []

  -- The path to mount the handler on, and the handler.
  unfoldable pub new_canva_service_handler : CanvaServiceHandler → String × (String → C.Handler)
  unfolding switch
  new_canva_service_handler svc = ("/canva.v1.CanvaService/", switch (canva_cases svc) C.not_found)

  unfoldable pub unimplemented_canva_service_handler : CanvaServiceHandler
  unimplemented_canva_service_handler = record {
    collaborate =
        C.error_bidi_stream code_unimplemented
          "canva.v1.CanvaService.Collaborate is not implemented";
  }

  pub record CanvaServiceClient : Type 0 where
    pub collaborate : C.Client

  unfoldable pub new_canva_service_client : String → CanvaServiceClient
  unfolding trim_right
  new_canva_service_client base_url = record {
    collaborate = C.new_client (trim_right base_url <> collaborate_procedure);
  }

  -- The method of `CanvaServiceClient`.
  unfoldable pub call_collaborate :
      {Run : Type 0}
      → BidiStreamCalls C Run
      → CanvaServiceClient
      → (String → Option C.Handler)
      → Option Run
  call_collaborate Q c net = Q.call c.collaborate net
