-- ===== src/Server/Partitions.antt =====
-- packages/rust/armonik/src/server/partitions.rs: the trait of the handlers, and the server that is made of them.
use armoni_k_api.Rpc.Calls.{Status, Call}
use armoni_k_api.Rpc.Unary.{unary}
use armoni_k_api.Objects.Partitions.ListRequests.{
  ListRequest, V3ListRequest, ListResponse, V3ListResponse, GetRequest, V3GetRequest, GetReply,
  V3GetReply, list_request_from, list_response_into, get_request_from, get_reply_into,
}

-- The calls of the generated service, of its client as of its server.
pub record PartitionsWire (S : Type 0) : Type 0 where
  pub list_partitions : V3ListRequest → Call S Status V3ListResponse
  pub get_partition : V3GetRequest → Call S Status V3GetReply

-- The trait of the handlers.
pub record PartitionsService (S Context : Type 0) : Type 0 where
  pub list : ListRequest → Context → Call S Status ListResponse
  pub get : GetRequest → Context → Call S Status GetReply

-- The server of the handlers, for calls that come with the given context.
unfoldable pub serve :
    {S Context : Type 0} → PartitionsService S Context → Context → PartitionsWire S
serve service context = record {
  list_partitions = λ w. unary list_request_from list_response_into service.list w context;
  get_partition = λ w. unary get_request_from get_reply_into service.get w context;
}
