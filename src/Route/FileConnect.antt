-- ===== src/Route/FileConnect.antt =====
-- fileservice/gen/file/v1/filev1connect/file.connect.go
use Prim.Native.String.{◌++◌ as ◌<>◌}
use fawa.Common.{Option, String, List, [], ◌∷◌}
use fawa.Route.{
  UnaryCalls, ServerStreamCalls, ClientStreamCalls, call_with, Connect, code_unimplemented, switch,
  trim_right,
}

abbrev pub send_file_procedure : String
send_file_procedure = "/file.v1.FileService/SendFile"

abbrev pub receive_file_procedure : String
receive_file_procedure = "/file.v1.FileService/ReceiveFile"

abbrev pub get_download_url_procedure : String
get_download_url_procedure = "/file.v1.FileService/GetDownloadURL"

module _ (C : Connect) where
  pub record FileServiceHandler : Type 0 where
    pub send_file : C.ClientStream
    pub receive_file : C.ServerStream
    pub get_download_url : C.Unary

  -- The cases of the switch on the path.
  abbrev pub file_cases : FileServiceHandler → List (String × C.Handler)
  file_cases svc =
      (send_file_procedure, C.new_client_stream_handler send_file_procedure svc.send_file)
      ∷ (
        receive_file_procedure,
        C.new_server_stream_handler receive_file_procedure svc.receive_file,
      )
      ∷ (
        get_download_url_procedure,
        C.new_unary_handler get_download_url_procedure svc.get_download_url,
      )
      ∷ []

  -- The path to mount the handler on, and the handler.
  unfoldable pub new_file_service_handler : FileServiceHandler → String × (String → C.Handler)
  unfolding switch
  new_file_service_handler svc = ("/file.v1.FileService/", switch (file_cases svc) C.not_found)

  unfoldable pub unimplemented_file_service_handler : FileServiceHandler
  unimplemented_file_service_handler = record {
    send_file =
        C.error_client_stream code_unimplemented "file.v1.FileService.SendFile is not implemented";
    receive_file =
        C.error_server_stream code_unimplemented
          "file.v1.FileService.ReceiveFile is not implemented";
    get_download_url =
        C.error_unary code_unimplemented "file.v1.FileService.GetDownloadURL is not implemented";
  }

  -- The client of each method.
  pub record FileServiceClient : Type 0 where
    pub send_file : C.Client
    pub receive_file : C.Client
    pub get_download_url : C.Client

  unfoldable pub new_file_service_client : String → FileServiceClient
  unfolding trim_right
  new_file_service_client base_url =
      let base = trim_right base_url in
      record {
        send_file = C.new_client (base <> send_file_procedure);
        receive_file = C.new_client (base <> receive_file_procedure);
        get_download_url = C.new_client (base <> get_download_url_procedure);
      }

-- The methods of `FileServiceClient`.
module _ (C : Connect) where
  unfoldable pub call_send_file :
      {Run : Type 0}
      → ClientStreamCalls C Run
      → FileServiceClient C
      → (String → Option C.Handler)
      → Option Run
  call_send_file Q c net = Q.call c.send_file net

  unfoldable pub call_receive_file :
      {A B : Type 0}
      → ServerStreamCalls C (A → B)
      → FileServiceClient C
      → (String → Option C.Handler)
      → A
      → Option B
  unfolding call_with
  call_receive_file Q c net req = call_with Q c.receive_file net req

  unfoldable pub call_get_download_url :
      {A B : Type 0}
      → UnaryCalls C (A → B)
      → FileServiceClient C
      → (String → Option C.Handler)
      → A
      → Option B
  unfolding call_with
  call_get_download_url Q c net req = call_with Q c.get_download_url net req
