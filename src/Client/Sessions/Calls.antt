-- ===== src/Client/Sessions/Calls.antt =====
-- packages/rust/armonik/src/client/sessions.rs: the bodies of `impl_call!`, which send a request as it is.
use armoni_k_api.Rpc.Calls.{RequestError, Call}
use armoni_k_api.Rpc.Unary.{client_call}
use armoni_k_api.Server.Sessions.{SessionsWire}
use armoni_k_api.Objects.Sessions.ListRequests.{
  ListRequest, ListResponse, list_request_into, list_response_from,
}
use armoni_k_api.Objects.Sessions.Requests.{
  SessionRequest, SessionReply, StopRequest, CreateRequest, CreateReply, session_request_into,
  session_reply_from, stop_request_into, create_request_into, create_reply_from,
}

module _ {S : Type 0} (stub : SessionsWire S) where
  unfoldable pub list : ListRequest → Call S RequestError ListResponse
  list = client_call list_request_into list_response_from stub.list_sessions

  unfoldable pub get : SessionRequest → Call S RequestError SessionReply
  get = client_call session_request_into session_reply_from stub.get_session

  unfoldable pub cancel : SessionRequest → Call S RequestError SessionReply
  cancel = client_call session_request_into session_reply_from stub.cancel_session

  unfoldable pub create : CreateRequest → Call S RequestError CreateReply
  create = client_call create_request_into create_reply_from stub.create_session

  unfoldable pub pause : SessionRequest → Call S RequestError SessionReply
  pause = client_call session_request_into session_reply_from stub.pause_session

  unfoldable pub resume : SessionRequest → Call S RequestError SessionReply
  resume = client_call session_request_into session_reply_from stub.resume_session

  unfoldable pub close : SessionRequest → Call S RequestError SessionReply
  close = client_call session_request_into session_reply_from stub.close_session

  unfoldable pub purge : SessionRequest → Call S RequestError SessionReply
  purge = client_call session_request_into session_reply_from stub.purge_session

  unfoldable pub delete : SessionRequest → Call S RequestError SessionReply
  delete = client_call session_request_into session_reply_from stub.delete_session

  unfoldable pub stop_submission : StopRequest → Call S RequestError SessionReply
  stop_submission = client_call stop_request_into session_reply_from stub.stop_submission
