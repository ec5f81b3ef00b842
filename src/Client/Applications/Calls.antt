-- ===== src/Client/Applications/Calls.antt =====
-- packages/rust/armonik/src/client/applications.rs: the bodies of `impl_call!`, which send a request as it is.
use armoni_k_api.Rpc.Calls.{RequestError, Call}
use armoni_k_api.Rpc.Unary.{client_call}
use armoni_k_api.Server.Applications.{ApplicationsWire}
use armoni_k_api.Objects.Applications.ListRequests.{
  ListRequest, ListResponse, list_request_into, list_response_from,
}

module _ {S : Type 0} (stub : ApplicationsWire S) where
  unfoldable pub list : ListRequest → Call S RequestError ListResponse
  list = client_call list_request_into list_response_from stub.list_applications
