-- ===== src/Client/Submitter/Filtered.antt =====
-- packages/rust/armonik/src/client/submitter.rs: the calls on the tasks that a filter selects, against
-- the server of packages/rust/armonik/src/server/submitter.rs. Their requests, of
-- packages/rust/armonik/src/objects/submitter/list_tasks.rs and cancel_tasks.rs, are a filter alone.
use armoni_k_api.Common.{String, ◌≡◌, refl, ap, List}
use armoni_k_api.Common.Outcome.{Result, map_err, map_ok}
use armoni_k_api.Objects.Submitter.TaskFilter.{
  TaskFilter, V3TaskFilter, filter_into, filter_from, opposite,
}
use armoni_k_api.Objects.Submitter.TaskFilter.Inverted.{filter_from-filter_into}
use armoni_k_api.Rpc.Calls.{Status, RequestError, grpc, Call, then_result}
use armoni_k_api.Rpc.Unary.{client_call, unary, back_ok}
use armoni_k_api.Client.Submitter.{Done, done}

-- `list_tasks::Request`, and the request of the same shape of `cancel_tasks`.
pub record FilterRequest : Type 0 where
  pub filter : TaskFilter

unfoldable pub filter_request_into : FilterRequest → V3TaskFilter
filter_request_into r = filter_into r.filter

unfoldable pub filter_request_from : V3TaskFilter → FilterRequest
filter_request_from w = record { filter = filter_from w }

-- The filter that the server reads has the opposite statuses.
abbrev pub filter_request_read : FilterRequest → FilterRequest
filter_request_read r = record {
  filter = record r.filter { statuses = opposite r.filter.statuses };
}

pub filter_request_back :
    (r : FilterRequest) → filter_request_from (filter_request_into r) ≡ filter_request_read r
unfolding filter_request_from filter_request_into
filter_request_back r = λ i. record { filter = filter_from-filter_into r.filter i }

pub record TaskIds : Type 0 where
  pub task_ids : List String

pub record V3TaskIdList : Type 0 where
  pub task_ids : List String

unfoldable pub ids_reply_into : TaskIds → V3TaskIdList
ids_reply_into r = record { task_ids = r.task_ids }

unfoldable pub ids_reply_from : V3TaskIdList → TaskIds
ids_reply_from w = record { task_ids = w.task_ids }

module _ {S : Type 0} where
  unfoldable pub list_tasks :
      (V3TaskFilter → Call S Status V3TaskIdList) → TaskFilter → Call S RequestError (List String)
  list_tasks stub filter =
      let request : FilterRequest = record { filter = filter } in
      then_result (map_ok (λ (r : TaskIds). r.task_ids))
        (client_call filter_request_into ids_reply_from stub request)

  -- The answer is the empty message.
  unfoldable pub cancel_tasks :
      (V3TaskFilter → Call S Status (Unit {0})) → TaskFilter → Call S RequestError Done
  cancel_tasks stub filter =
      let request : FilterRequest = record { filter = filter } in
      then_result (map_ok (λ _. done)) (client_call filter_request_into (λ u. u) stub request)

module _ {S Context : Type 0} (context : Context) where
  -- `list_tasks` against a server returns the tasks that the handler lists for the opposite filter: the
  -- same tasks or sessions, with the excluded statuses included and the included ones excluded.
  pub list_tasks-unary :
      (handler : FilterRequest → Context → Call S Status TaskIds) (filter : TaskFilter) (s : S)
      → let inverted : FilterRequest = record {
        filter = record filter { statuses = opposite filter.statuses };
      } in
        list_tasks (λ w. unary filter_request_from ids_reply_into handler w context) filter s ≡ (
          map_ok (λ (r : TaskIds). r.task_ids) (map_err grpc (handler inverted context s).0),
          (handler inverted context s).1,
        )
  unfolding list_tasks client_call unary ids_reply_into ids_reply_from
  list_tasks-unary handler filter s =
      let inverted = filter_request_read (record { filter = filter }) in
      rw (filter_request_back (record { filter = filter })) (
        ap
          (λ (r : Result TaskIds RequestError).
            (map_ok (λ (t : TaskIds). t.task_ids) r, (handler inverted context s).1))
          (back_ok ids_reply_into ids_reply_from (λ _. refl) (handler inverted context s).0))

  -- `cancel_tasks` against a server runs the handler once, on the opposite filter: the same tasks or
  -- sessions, with the excluded statuses included and the included ones excluded. It returns nothing,
  -- or the error of the handler.
  pub cancel_tasks-unary :
      (handler : FilterRequest → Context → Call S Status (Unit {0})) (filter : TaskFilter) (s : S)
      → let inverted : FilterRequest = record {
        filter = record filter { statuses = opposite filter.statuses };
      } in
        cancel_tasks (λ w. unary filter_request_from (λ u. u) handler w context) filter s ≡ (
          map_ok (λ _. done) (map_err grpc (handler inverted context s).0),
          (handler inverted context s).1,
        )
  unfolding cancel_tasks client_call unary
  cancel_tasks-unary handler filter s =
      let inverted = filter_request_read (record { filter = filter }) in
      rw (filter_request_back (record { filter = filter })) (
        ap
          (λ (r : Result (Unit {0}) RequestError).
            (map_ok (λ _. done) r, (handler inverted context s).1))
          (back_ok (λ u. u) (λ u. u) (λ _. refl) (handler inverted context s).0))
