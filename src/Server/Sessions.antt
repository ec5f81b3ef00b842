-- ===== src/Server/Sessions.antt =====
-- packages/rust/armonik/src/server/sessions.rs: the trait of the handlers, and the server that is made of them.
use armoni_k_api.Rpc.Calls.{Status, Call}
use armoni_k_api.Rpc.Unary.{unary}
use armoni_k_api.Objects.Sessions.ListRequests.{
  ListRequest, V3ListRequest, ListResponse, V3ListResponse, list_request_from, list_response_into,
}
use armoni_k_api.Objects.Sessions.Requests.{
  SessionRequest, V3SessionRequest, SessionReply, V3SessionReply, StopRequest, V3StopRequest,
  CreateRequest, V3CreateRequest, CreateReply, V3CreateReply, session_request_from,
  session_reply_into, stop_request_from, create_request_from, create_reply_into,
}

-- The calls of the generated service, of its client as of its server.
pub record SessionsWire (S : Type 0) : Type 0 where
  pub list_sessions : V3ListRequest → Call S Status V3ListResponse
  pub get_session : V3SessionRequest → Call S Status V3SessionReply
  pub cancel_session : V3SessionRequest → Call S Status V3SessionReply
  pub create_session : V3CreateRequest → Call S Status V3CreateReply
  pub pause_session : V3SessionRequest → Call S Status V3SessionReply
  pub resume_session : V3SessionRequest → Call S Status V3SessionReply
  pub close_session : V3SessionRequest → Call S Status V3SessionReply
  pub purge_session : V3SessionRequest → Call S Status V3SessionReply
  pub delete_session : V3SessionRequest → Call S Status V3SessionReply
  pub stop_submission : V3StopRequest → Call S Status V3SessionReply

-- The trait of the handlers.
pub record SessionsService (S Context : Type 0) : Type 0 where
  pub list : ListRequest → Context → Call S Status ListResponse
  pub get : SessionRequest → Context → Call S Status SessionReply
  pub cancel : SessionRequest → Context → Call S Status SessionReply
  pub create : CreateRequest → Context → Call S Status CreateReply
  pub pause : SessionRequest → Context → Call S Status SessionReply
  pub resume : SessionRequest → Context → Call S Status SessionReply
  pub close : SessionRequest → Context → Call S Status SessionReply
  pub purge : SessionRequest → Context → Call S Status SessionReply
  pub delete : SessionRequest → Context → Call S Status SessionReply
  pub stop_submission : StopRequest → Context → Call S Status SessionReply

-- The server of the handlers, for calls that come with the given context.
unfoldable pub serve : {S Context : Type 0} → SessionsService S Context → Context → SessionsWire S
serve service context = record {
  list_sessions = λ w. unary list_request_from list_response_into service.list w context;
  get_session = λ w. unary session_request_from session_reply_into service.get w context;
  cancel_session = λ w. unary session_request_from session_reply_into service.cancel w context;
  create_session = λ w. unary create_request_from create_reply_into service.create w context;
  pause_session = λ w. unary session_request_from session_reply_into service.pause w context;
  resume_session = λ w. unary session_request_from session_reply_into service.resume w context;
  close_session = λ w. unary session_request_from session_reply_into service.close w context;
  purge_session = λ w. unary session_request_from session_reply_into service.purge w context;
  delete_session = λ w. unary session_request_from session_reply_into service.delete w context;
  stop_submission =
      λ w. unary stop_request_from session_reply_into service.stop_submission w context;
}
