-- ===== src/Server/Results.antt =====
-- packages/rust/armonik/src/server/results.rs: the trait of the handlers, and the server that is made of them.
use armoni_k_api.Rpc.Calls.{Status, Call, unimplemented}
use armoni_k_api.Rpc.Unary.{unary}
use armoni_k_api.Common.HashMap.{Iteration}
use armoni_k_api.Common.{Option, List}
use armoni_k_api.Common.Outcome.{Result, err}
use armoni_k_api.Objects.Convert.{to_option}
use armoni_k_api.Objects.Results.Raw.{V3Raw, raw_into, Raw}
use armoni_k_api.Objects.Results.Upload.{
  Request, V3Request, request_from, DownloadRequest, V3DownloadRequest, download_from,
  DownloadResponse, V3DownloadResponse, chunk_into,
}
use armoni_k_api.Rpc.Streams.{stream_client, stream_server}
use armoni_k_api.Objects.Results.ListResults.{
  ListRequest, V3ListRequest, ListResponse, V3ListResponse, list_request_from, list_response_into,
}
use armoni_k_api.Objects.Results.Requests.{
  GetRequest, V3GetRequest, GetResponse, V3GetResponse, DeleteRequest, V3DeleteRequest,
  DeleteResponse, V3DeleteResponse, Configuration, V3Configuration, get_request_from,
  get_response_into, delete_request_from, delete_response_into, configuration_into,
}
use armoni_k_api.Objects.Results.OwnerTaskId.{
  OwnersRequest, V3OwnersRequest, Owners, V3Owners, owners_request_from, owners_into,
}
use armoni_k_api.Objects.Results.CreateMetadata.{
  MetadataRequest, V3MetadataRequest, MetadataResponse, V3MetadataResponse, metadata_request_from,
  metadata_response_into,
}
use armoni_k_api.Objects.Results.Create.{
  CreateRequest, V3CreateRequest, CreateResponse, V3CreateResponse, create_request_from,
  create_response_into,
}
use armoni_k_api.Objects.Results.Import.{
  ImportRequest, V3ImportRequest, ImportResponse, V3ImportResponse, import_request_from,
  import_response_into,
}

-- The calls of the generated service, of its client as of its server.
pub record ResultsWire (S : Type 0) : Type 0 where
  pub list_results : V3ListRequest → Call S Status V3ListResponse
  pub get_result : V3GetRequest → Call S Status V3GetResponse
  pub get_owner_task_id : V3OwnersRequest → Call S Status V3Owners
  pub create_results_meta_data : V3MetadataRequest → Call S Status V3MetadataResponse
  pub create_results : V3CreateRequest → Call S Status V3CreateResponse
  pub import_results_data : V3ImportRequest → Call S Status V3ImportResponse
  pub delete_results_data : V3DeleteRequest → Call S Status V3DeleteResponse
  pub get_service_configuration : (Unit {0}) → Call S Status V3Configuration
  -- The stream of an upload as it arrives.
  pub upload_result_data : List (Result V3Request Status) → Call S Status (Option V3Raw)
  pub download_result_data :
      V3DownloadRequest → Call S Status (List (Result V3DownloadResponse Status))

-- The trait of the handlers.
pub record ResultsService (S Context : Type 0) : Type 0 where
  pub list : ListRequest → Context → Call S Status ListResponse
  pub get : GetRequest → Context → Call S Status GetResponse
  pub get_owner_task_id : OwnersRequest → Context → Call S Status Owners
  pub create_metadata : MetadataRequest → Context → Call S Status MetadataResponse
  pub create : CreateRequest → Context → Call S Status CreateResponse
  pub import : ImportRequest → Context → Call S Status ImportResponse
  pub delete_data : DeleteRequest → Context → Call S Status DeleteResponse
  pub get_service_configuration : (Unit {0}) → Context → Call S Status Configuration
  pub upload : List (Result Request Status) → Context → Call S Status Raw
  pub download : DownloadRequest → Context → Call S Status (List (Result DownloadResponse Status))

-- The server of the handlers, for calls that come with the given context.
unfoldable pub serve :
    Iteration → {S Context : Type 0} → ResultsService S Context → Context → ResultsWire S
serve it service context = record {
  list_results = λ w. unary list_request_from list_response_into service.list w context;
  get_result = λ w. unary get_request_from get_response_into service.get w context;
  get_owner_task_id =
      λ w. unary owners_request_from (owners_into it) service.get_owner_task_id w context;
  create_results_meta_data =
      λ w. unary metadata_request_from metadata_response_into service.create_metadata w context;
  create_results = λ w. unary create_request_from create_response_into service.create w context;
  import_results_data =
      λ w. unary import_request_from (import_response_into it) service.import w context;
  delete_results_data =
      λ w. unary delete_request_from delete_response_into service.delete_data w context;
  get_service_configuration =
      λ w. unary (λ u. u) configuration_into service.get_service_configuration w context;
  upload_result_data =
      λ requests. stream_client request_from (to_option raw_into) service.upload requests context;
  download_result_data = λ w. stream_server download_from chunk_into service.download w context;
}

-- The call that no service implements, whatever its request.
unfoldable pub watch_results : {S Req Resp : Type 0} → Req → Call S Status Resp
watch_results _ s =
    (err (record { code = unimplemented; message = "Results::WatchResults is not implemented" }), s)
