-- ===== src/Client/Partitions/Calls.antt =====
-- packages/rust/armonik/src/client/partitions.rs: the bodies of `impl_call!`, which send a request as it is.
use armoni_k_api.Rpc.Calls.{RequestError, Call}
use armoni_k_api.Rpc.Unary.{client_call}
use armoni_k_api.Server.Partitions.{PartitionsWire}
use armoni_k_api.Objects.Partitions.ListRequests.{
  ListRequest, ListResponse, GetRequest, GetReply, list_request_into, list_response_from,
  get_request_into, get_reply_from,
}

module _ {S : Type 0} (stub : PartitionsWire S) where
  unfoldable pub list : ListRequest → Call S RequestError ListResponse
  list = client_call list_request_into list_response_from stub.list_partitions

  unfoldable pub get : GetRequest → Call S RequestError GetReply
  get = client_call get_request_into get_reply_from stub.get_partition
