-- ===== src/Client/Maps.antt =====
-- The maps that the clients return, of packages/rust/armonik/src/client/tasks.rs, submitter.rs and
-- results.rs, against the maps that the handlers give.
use armoni_k_api.Common.{
  ℤ, String, ◌≡◌, sym, ap, ◌∙◌, arith, some, List, [], ◌∷◌, map, ◌=s=◌, eq_iff,
}
use armoni_k_api.Common.Outcome.{Result, ok, err, map_ok, map_err, ok-injective}
use armoni_k_api.Common.HashMap.{
  HashMap, Iteration, IsKeyEq, collect, last, lookup, lookup-last, NodupKeys, lookup-iterated,
}
use armoni_k_api.Objects.DataChunk.{Bytes}
use armoni_k_api.Objects.Enums.TaskStatus as StatusCodes
use armoni_k_api.Objects.Count.{Count, status_eq, count_into, count_from, count_back, count_read}
use armoni_k_api.Objects.Results.Raw.{Raw, V3Raw, raw_from}
use armoni_k_api.Objects.Results.Import.{
  V3ImportResponse, filed, import_request_into, ImportResponse, import_response_from,
}
use armoni_k_api.Objects.Submitter.TaskFilter.{TaskFilter, opposite}
use armoni_k_api.Objects.Tasks.ResultIds.{
  ResultIds, result_ids_request_into, result_ids_request_from, result_ids_request_back,
  result_ids_into, result_ids_from, result_ids_back, result_ids_read,
}
use armoni_k_api.Objects.TaskOptions.Equality.{int_eq_iff}
use armoni_k_api.Rpc.Calls.{Status, grpc}
use armoni_k_api.Rpc.Unary.{client_call, read_served}
use armoni_k_api.Server.Tasks as TasksServer
use armoni_k_api.Client.Tasks as Tasks
use armoni_k_api.Client.Tasks.Calls as TasksCalls
use armoni_k_api.Server.Submitter as SubmitterServer
use armoni_k_api.Client.Submitter.Filtered.{
  filter_request_into, filter_request_from, filter_request_back, filter_request_read,
}
use armoni_k_api.Client.Submitter.Plain as Submitter
use armoni_k_api.Client.Submitter.Calls as SubmitterCalls
use armoni_k_api.Server.Results as ResultsServer
use armoni_k_api.Client.Results.Metadata as Results
use armoni_k_api.Client.Results.Calls as ResultsCalls

string_key : IsKeyEq ◌=s=◌
string_key = record { same = eq_iff }

status_key : IsKeyEq status_eq
unfolding status_eq
status_key = record {
  same = λ a b.
      let (sound, complete) = int_eq_iff (StatusCodes.as_i32 a) (StatusCodes.as_i32 b) in
      (
        λ h.
            sym (StatusCodes.coded.known a)
            ∙ ap StatusCodes.from_i32 (sound h)
            ∙ StatusCodes.coded.known b,
        λ e. complete (ap StatusCodes.as_i32 e),
      );
}

module _ (it : Iteration) {S Context : Type 0} (service : TasksServer.TasksService S Context)
    (context : Context) where
  -- If the handler of `get_result_ids` returns a map, the client returns a map with the same results for
  -- every task, in whatever order the maps iterate.
  pub get_result_ids-lookup :
      (task_ids : List String) (s s' : S) (r : ResultIds)
      → service.get_result_ids (record { task_ids = task_ids }) context s ≡ (ok r, s')
      → NodupKeys ◌=s=◌ r.task_results
      → (m : HashMap String (List String)) × (Tasks.get_result_ids
            (TasksServer.serve it service context)
            task_ids
            s
          ≡ (ok m, s'))
        × ((k : String) → lookup ◌=s=◌ k m ≡ lookup ◌=s=◌ k r.task_results)
  unfolding Tasks.get_result_ids TasksCalls.get_result_ids TasksServer.serve
  get_result_ids-lookup task_ids s s' r h nodup = (
    collect ◌=s=◌ (it.order r.task_results),
    read_served result_ids_request_into result_ids_request_from (result_ids_into it) result_ids_from
          (λ q. q) (result_ids_read it) result_ids_request_back (result_ids_back it)
          (λ q. q.task_results) service.get_result_ids context (record { task_ids = task_ids }) s
        ∙ ap (λ c. (map_ok (λ q. (result_ids_read it q).task_results) (map_err grpc c.0), c.1)) h,
    lookup-iterated ◌=s=◌ string_key r.task_results (it.order r.task_results) nodup
        (it.permutes r.task_results),
  )

module _ (it : Iteration) {S Context : Type 0}
    (service : SubmitterServer.SubmitterService S Context) (context : Context) where
  -- If the handler of `count_tasks` returns counts for the opposite of a filter, the client returns the
  -- same count for every status for the filter itself.
  pub count_tasks-lookup :
      (filter : TaskFilter) (s s' : S) (r : Count)
      → service.count_tasks
          (record { filter = record filter { statuses = opposite filter.statuses } })
          context
          s
        ≡ (ok r, s')
      → NodupKeys status_eq r.values
      → (m : HashMap StatusCodes.TaskStatus ℤ) × (Submitter.count_tasks
            (SubmitterServer.serve it service context)
            filter
            s
          ≡ (ok m, s'))
        × ((k : StatusCodes.TaskStatus) → lookup status_eq k m ≡ lookup status_eq k r.values)
  unfolding Submitter.count_tasks SubmitterCalls.count_tasks SubmitterServer.serve
  count_tasks-lookup filter s s' r h nodup = (
    collect status_eq (it.order r.values),
    read_served filter_request_into filter_request_from (count_into it) count_from
          filter_request_read (count_read it) filter_request_back (count_back it) (λ q. q.values)
          service.count_tasks context (record { filter = filter }) s
        ∙ ap (λ c. (map_ok (λ q. (count_read it q).values) (map_err grpc c.0), c.1)) h,
    lookup-iterated status_eq status_key r.values (it.order r.values) nodup (it.permutes r.values),
  )

answered :
    (r : Result V3ImportResponse Status) (m : HashMap String Raw)
    → map_ok (λ (q : ImportResponse). q.results) (map_ok import_response_from (map_err grpc r))
      ≡ ok m
    → (w : V3ImportResponse) × (m ≡ collect ◌=s=◌ (map filed w.results))
unfolding import_response_from
answered (ok w) m h = (w, sym (ok-injective h))
answered (err e) m h = cc

last-filed :
    (k : String) (l : List V3Raw) (raw : Raw) → last ◌=s=◌ k (map filed l) ≡ some raw → raw.name ≡ k
unfolding last raw_from
last-filed k [] raw h = cc
last-filed k (x ∷ l) raw h = ground (arith, last-filed k l raw, eq_iff k x.name)

module _ (it : Iteration) {S : Type 0} (stub : ResultsServer.ResultsWire S) where
  -- Every result in the map that an import returns is filed under its own name, whatever the server
  -- answers.
  pub import-lookup_name :
      (session_id : String) (results : List (String × Bytes)) (s s' : S) (m : HashMap String Raw)
      → Results.import it stub session_id results s ≡ (ok m, s')
      → (k : String) (raw : Raw) → lookup ◌=s=◌ k m ≡ some raw
      → raw.name ≡ k
  unfolding Results.import ResultsCalls.import client_call
  import-lookup_name session_id results s s' m h k raw found =
      let reply =
        stub.import_results_data
          (import_request_into it
            (record { session_id = session_id; results = collect ◌=s=◌ results }))
          s in
      let (w, e) = answered reply.0 m (ap (λ c. c.0) h) in
      last-filed k w.results raw (
        sym (lookup-last ◌=s=◌ string_key k (map filed w.results))
        ∙ ap (λ n. lookup ◌=s=◌ k n) (sym e)
        ∙ found)
