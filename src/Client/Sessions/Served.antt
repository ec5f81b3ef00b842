-- ===== src/Client/Sessions/Served.antt =====
-- The calls of packages/rust/armonik/src/client/sessions.rs against the server of packages/rust/armonik/src/server/sessions.rs.
use armoni_k_api.Common.{ℤ, String, ◌≡◌, Bool, List}
use armoni_k_api.Common.Outcome.{map_ok}
use armoni_k_api.Rpc.Calls.{Status, RequestError, grpc, Call, then_result, finish}
use armoni_k_api.Rpc.Unary.{client_call, unary, call_served, part_served}
use armoni_k_api.Server.Sessions.{SessionsWire, SessionsService, serve}
use armoni_k_api.Client.Sessions as Client
use armoni_k_api.Client.Sessions.Calls as Calls
use armoni_k_api.Objects.TaskOptions.{TaskOptions}
use armoni_k_api.Objects.Filters.Formula.{FieldFilter}
use armoni_k_api.Objects.Sessions.Field.{Field}
use armoni_k_api.Objects.Sessions.Filter.{SessionCondition, alternatives}
use armoni_k_api.Objects.Sessions.Raw.{Raw}
use armoni_k_api.Objects.Sessions.ListRequests.{
  Sort, ListResponse, list_request_into, list_request_from, list_response_into, list_response_from,
  list_request_back, list_response_back,
}
use armoni_k_api.Objects.Sessions.Requests.{
  SessionRequest, SessionReply, session_request_into, session_request_from, session_reply_into,
  session_reply_from, stop_request_into, stop_request_from, create_request_into,
  create_request_from, create_reply_into, create_reply_from, session_request_back,
  session_reply_back, stop_request_back, create_request_back, create_reply_back,
}

-- A call of the client with its arguments, and what it can return.
pub data SessionsCall : Type 0 where
  list : List (List (FieldFilter Field SessionCondition)) → Sort → Bool → ℤ → ℤ → SessionsCall
  get : String → SessionsCall
  cancel : String → SessionsCall
  create : List String → TaskOptions → SessionsCall
  pause : String → SessionsCall
  resume : String → SessionsCall
  close : String → SessionsCall
  purge : String → SessionsCall
  delete : String → SessionsCall
  stop_submission : String → Bool → Bool → SessionsCall

pub data SessionsAnswer : Type 0 where
  listed : ListResponse → SessionsAnswer
  about : Raw → SessionsAnswer
  created : String → SessionsAnswer

module _ {S : Type 0} (stub : SessionsWire S) where
  unfoldable pub perform : SessionsCall → Call S RequestError SessionsAnswer
  perform (SessionsCall.list filters sort with_task_options page page_size) =
      then_result (map_ok listed) (Client.list stub filters sort with_task_options page page_size)
  perform (SessionsCall.get session_id) = then_result (map_ok about) (Client.get stub session_id)
  perform (SessionsCall.cancel session_id) =
      then_result (map_ok about) (Client.cancel stub session_id)
  perform (SessionsCall.create partitions default_task_options) =
      then_result (map_ok created) (Client.create stub partitions default_task_options)
  perform (SessionsCall.pause session_id) =
      then_result (map_ok about) (Client.pause stub session_id)
  perform (SessionsCall.resume session_id) =
      then_result (map_ok about) (Client.resume stub session_id)
  perform (SessionsCall.close session_id) =
      then_result (map_ok about) (Client.close stub session_id)
  perform (SessionsCall.purge session_id) =
      then_result (map_ok about) (Client.purge stub session_id)
  perform (SessionsCall.delete session_id) =
      then_result (map_ok about) (Client.delete stub session_id)
  perform (SessionsCall.stop_submission session_id stop_client stop_worker) =
      then_result (map_ok about) (Client.stop_submission stub session_id stop_client stop_worker)

module _ {S Context : Type 0} (service : SessionsService S Context) (context : Context) where
  -- The handler of the call, run once on the arguments, with its error wrapped.
  unfoldable pub handle : SessionsCall → Call S RequestError SessionsAnswer
  handle (SessionsCall.list filters sort with_task_options page page_size) = finish listed grpc (
      service.list
        (record {
          page = page;
          page_size = page_size;
          filters = alternatives filters;
          sort = sort;
          with_task_options = with_task_options;
        })
        context)
  handle (SessionsCall.get session_id) =
      finish (λ r. about r.session) grpc (service.get (record { session_id = session_id }) context)
  handle (SessionsCall.cancel session_id) =
      finish (λ r. about r.session) grpc
        (service.cancel (record { session_id = session_id }) context)
  handle (SessionsCall.create partitions default_task_options) =
      finish (λ r. created r.session_id) grpc
        (service.create
          (record { default_task_options = default_task_options; partition_ids = partitions })
          context)
  handle (SessionsCall.pause session_id) =
      finish (λ r. about r.session) grpc
        (service.pause (record { session_id = session_id }) context)
  handle (SessionsCall.resume session_id) =
      finish (λ r. about r.session) grpc
        (service.resume (record { session_id = session_id }) context)
  handle (SessionsCall.close session_id) =
      finish (λ r. about r.session) grpc
        (service.close (record { session_id = session_id }) context)
  handle (SessionsCall.purge session_id) =
      finish (λ r. about r.session) grpc
        (service.purge (record { session_id = session_id }) context)
  handle (SessionsCall.delete session_id) =
      finish (λ r. about r.session) grpc
        (service.delete (record { session_id = session_id }) context)
  handle (SessionsCall.stop_submission session_id stop_client stop_worker) =
      finish (λ r. about r.session) grpc
        (service.stop_submission
          (record { session_id = session_id; client = stop_client; worker = stop_worker }) context)

  -- The calls on one object, with the object in the answer.
  session_reply_served :
      (handler : SessionRequest → Context → Call S Status SessionReply) (request : SessionRequest)
      (s : S)
      → then_result
          (map_ok about)
          (then_result (map_ok (λ r. r.session)) (
            client_call session_request_into session_reply_from
              (λ w. unary session_request_from session_reply_into handler w context)
              request))
          s
        ≡ finish (λ r. about r.session) grpc (handler request context) s
  session_reply_served handler request s =
      part_served session_request_into session_request_from session_reply_into session_reply_from
        session_request_back session_reply_back (λ r. r.session) about handler context request s

  -- Every call of the client of sessions against a server runs its own handler, once, on the
  -- arguments that were given, and returns the part of the answer that the
  -- client promises, or the error.
  pub perform-serve_sessions :
      (call : SessionsCall) (s : S) → perform (serve service context) call s ≡ handle call s
  unfolding perform handle serve Client.list Calls.list Client.get Calls.get Client.cancel
      Calls.cancel Client.create Calls.create Client.pause Calls.pause Client.resume Calls.resume
      Client.close Calls.close Client.purge Calls.purge Client.delete Calls.delete
      Client.stop_submission Calls.stop_submission
  perform-serve_sessions (SessionsCall.list filters sort with_task_options page page_size) s =
      call_served list_request_into list_request_from list_response_into list_response_from
        list_request_back list_response_back listed service.list context
        (record {
          page = page;
          page_size = page_size;
          filters = alternatives filters;
          sort = sort;
          with_task_options = with_task_options;
        })
        s
  perform-serve_sessions (SessionsCall.get session_id) s =
      session_reply_served service.get (record { session_id = session_id }) s
  perform-serve_sessions (SessionsCall.cancel session_id) s =
      session_reply_served service.cancel (record { session_id = session_id }) s
  perform-serve_sessions (SessionsCall.create partitions default_task_options) s =
      part_served create_request_into create_request_from create_reply_into create_reply_from
        create_request_back create_reply_back (λ r. r.session_id) created service.create context
        (record { default_task_options = default_task_options; partition_ids = partitions }) s
  perform-serve_sessions (SessionsCall.pause session_id) s =
      session_reply_served service.pause (record { session_id = session_id }) s
  perform-serve_sessions (SessionsCall.resume session_id) s =
      session_reply_served service.resume (record { session_id = session_id }) s
  perform-serve_sessions (SessionsCall.close session_id) s =
      session_reply_served service.close (record { session_id = session_id }) s
  perform-serve_sessions (SessionsCall.purge session_id) s =
      session_reply_served service.purge (record { session_id = session_id }) s
  perform-serve_sessions (SessionsCall.delete session_id) s =
      session_reply_served service.delete (record { session_id = session_id }) s
  perform-serve_sessions (SessionsCall.stop_submission session_id stop_client stop_worker) s =
      part_served stop_request_into stop_request_from session_reply_into session_reply_from
        stop_request_back session_reply_back (λ r. r.session) about service.stop_submission context
        (record { session_id = session_id; client = stop_client; worker = stop_worker }) s
