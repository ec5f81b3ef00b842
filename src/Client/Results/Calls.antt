-- ===== src/Client/Results/Calls.antt =====
-- packages/rust/armonik/src/client/results.rs: the bodies of `impl_call!`, which send a request as it is.
use armoni_k_api.Rpc.Calls.{RequestError, Call}
use armoni_k_api.Rpc.Unary.{client_call}
use armoni_k_api.Server.Results.{ResultsWire}
use armoni_k_api.Common.HashMap.{Iteration}
use armoni_k_api.Objects.Results.Requests.{
  GetRequest, GetResponse, DeleteRequest, DeleteResponse, Configuration, get_request_into,
  get_response_from, delete_request_into, delete_response_from, configuration_from,
}
use armoni_k_api.Objects.Results.OwnerTaskId.{
  OwnersRequest, Owners, owners_request_into, owners_from,
}
use armoni_k_api.Objects.Results.CreateMetadata.{
  MetadataRequest, MetadataResponse, metadata_request_into, metadata_response_from,
}
use armoni_k_api.Objects.Results.Create.{
  CreateRequest, CreateResponse, create_request_into, create_response_from,
}
use armoni_k_api.Objects.Results.Import.{
  ImportRequest, ImportResponse, import_request_into, import_response_from,
}

module _ (it : Iteration) {S : Type 0} (stub : ResultsWire S) where
  unfoldable pub get : GetRequest → Call S RequestError GetResponse
  get = client_call get_request_into get_response_from stub.get_result

  unfoldable pub get_owner_task_id : OwnersRequest → Call S RequestError Owners
  get_owner_task_id = client_call owners_request_into owners_from stub.get_owner_task_id

  unfoldable pub create_metadata : MetadataRequest → Call S RequestError MetadataResponse
  create_metadata =
      client_call metadata_request_into metadata_response_from stub.create_results_meta_data

  unfoldable pub create : CreateRequest → Call S RequestError CreateResponse
  create = client_call create_request_into create_response_from stub.create_results

  unfoldable pub import : ImportRequest → Call S RequestError ImportResponse
  import = client_call (import_request_into it) import_response_from stub.import_results_data

  unfoldable pub delete_data : DeleteRequest → Call S RequestError DeleteResponse
  delete_data = client_call delete_request_into delete_response_from stub.delete_results_data

  unfoldable pub get_service_configuration : (Unit {0}) → Call S RequestError Configuration
  get_service_configuration = client_call (λ u. u) configuration_from stub.get_service_configuration
