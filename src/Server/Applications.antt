-- ===== src/Server/Applications.antt =====
-- packages/rust/armonik/src/server/applications.rs: the trait of the handlers, and the server that is made of them.
use armoni_k_api.Rpc.Calls.{Status, Call}
use armoni_k_api.Rpc.Unary.{unary}
use armoni_k_api.Objects.Applications.ListRequests.{
  ListRequest, V3ListRequest, ListResponse, V3ListResponse, list_request_from, list_response_into,
}

-- The calls of the generated service, of its client as of its server.
pub record ApplicationsWire (S : Type 0) : Type 0 where
  pub list_applications : V3ListRequest → Call S Status V3ListResponse

-- The trait of the handlers.
pub record ApplicationsService (S Context : Type 0) : Type 0 where
  pub list : ListRequest → Context → Call S Status ListResponse

-- The server of the handlers, for calls that come with the given context.
unfoldable pub serve :
    {S Context : Type 0} → ApplicationsService S Context → Context → ApplicationsWire S
serve service context = record {
  list_applications = λ w. unary list_request_from list_response_into service.list w context;
}
