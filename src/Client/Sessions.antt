-- ===== src/Client/Sessions.antt =====
-- packages/rust/armonik/src/client/sessions.rs: the client of the service, over a stub that is generated code.
pub mod Calls
pub mod Served
use armoni_k_api.Common.{ℤ, String, Bool, Option, List, map}
use armoni_k_api.Common.Outcome.{map_ok}
use armoni_k_api.Rpc.Calls.{RequestError, Call, then_result}
use armoni_k_api.Server.Sessions.{SessionsWire}
use armoni_k_api.Client.Sessions.Calls as Calls
use armoni_k_api.Objects.TaskOptions.{TaskOptions}
use armoni_k_api.Objects.Filters.Formula.{FieldFilter}
use armoni_k_api.Objects.Sessions.Field.{Field}
use armoni_k_api.Objects.Sessions.Filter.{SessionCondition, alternatives}
use armoni_k_api.Objects.Sessions.Raw.{Raw}
use armoni_k_api.Objects.Sessions.ListRequests.{
  Sort, ListRequest, V3ListRequest, ListResponse, V3ListResponse,
}
use armoni_k_api.Objects.Sessions.Requests.{
  SessionRequest, V3SessionRequest, SessionReply, V3SessionReply, StopRequest, V3StopRequest,
  CreateRequest, V3CreateRequest, CreateReply, V3CreateReply,
}

module _ {S : Type 0} (stub : SessionsWire S) where
  unfoldable pub list :
      List (List (FieldFilter Field SessionCondition))
      → Sort
      → Bool
      → ℤ
      → ℤ
      → Call S RequestError ListResponse
  list filters sort with_task_options page page_size = Calls.list stub (record {
    page = page;
    page_size = page_size;
    filters = alternatives filters;
    sort = sort;
    with_task_options = with_task_options;
  })

  unfoldable pub get : String → Call S RequestError Raw
  get session_id =
      then_result (map_ok (λ (r : SessionReply). r.session))
        (Calls.get stub (record { session_id = session_id }))

  unfoldable pub cancel : String → Call S RequestError Raw
  cancel session_id =
      then_result (map_ok (λ (r : SessionReply). r.session))
        (Calls.cancel stub (record { session_id = session_id }))

  unfoldable pub create : List String → TaskOptions → Call S RequestError String
  create partitions default_task_options =
      then_result (map_ok (λ (r : CreateReply). r.session_id)) (
        Calls.create stub
          (record { default_task_options = default_task_options; partition_ids = partitions }))

  unfoldable pub pause : String → Call S RequestError Raw
  pause session_id =
      then_result (map_ok (λ (r : SessionReply). r.session))
        (Calls.pause stub (record { session_id = session_id }))

  unfoldable pub resume : String → Call S RequestError Raw
  resume session_id =
      then_result (map_ok (λ (r : SessionReply). r.session))
        (Calls.resume stub (record { session_id = session_id }))

  unfoldable pub close : String → Call S RequestError Raw
  close session_id =
      then_result (map_ok (λ (r : SessionReply). r.session))
        (Calls.close stub (record { session_id = session_id }))

  unfoldable pub purge : String → Call S RequestError Raw
  purge session_id =
      then_result (map_ok (λ (r : SessionReply). r.session))
        (Calls.purge stub (record { session_id = session_id }))

  unfoldable pub delete : String → Call S RequestError Raw
  delete session_id =
      then_result (map_ok (λ (r : SessionReply). r.session))
        (Calls.delete stub (record { session_id = session_id }))

  unfoldable pub stop_submission : String → Bool → Bool → Call S RequestError Raw
  stop_submission session_id stop_client stop_worker =
      then_result (map_ok (λ (r : SessionReply). r.session)) (
        Calls.stop_submission stub
          (record { session_id = session_id; client = stop_client; worker = stop_worker }))
