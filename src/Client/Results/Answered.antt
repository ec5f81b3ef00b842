-- ===== src/Client/Results/Answered.antt =====
-- The calls of packages/rust/armonik/src/client/results.rs against the server of packages/rust/armonik/src/server/results.rs.
use armoni_k_api.Common.{ℤ, String, ◌≡◌, refl, ap, ◌∙◌, List, map, ◌=s=◌}
use armoni_k_api.Common.Outcome.{Result, map_ok, map_err, map_ok-map_ok}
use armoni_k_api.Rpc.Calls.{RequestError, grpc, Call, then_result, finish}
use armoni_k_api.Rpc.Unary.{call_served, part_served, part_read_served}
use armoni_k_api.Server.Results.{ResultsWire, ResultsService, serve}
use armoni_k_api.Client.Results.Metadata as Client
use armoni_k_api.Client.Results.Calls as Calls
use armoni_k_api.Common.HashMap.{Iteration, collect, HashMap}
use armoni_k_api.Client.Results as Results
use armoni_k_api.Client.Results.Served.{returned_item, download-stream_server}
use armoni_k_api.Objects.DataChunk.{Bytes}
use armoni_k_api.Objects.Filters.Formula.{FieldFilter}
use armoni_k_api.Objects.Results.Field.{Field}
use armoni_k_api.Objects.Results.Filter.{ResultCondition}
use armoni_k_api.Objects.Results.Raw.{Raw}
use armoni_k_api.Objects.Results.ListResults.{
  Sort, ListResponse, list_request_into, list_request_from, list_response_into, list_response_from,
  list_request_back, list_response_back,
}
use armoni_k_api.Objects.Results.Requests.{
  Configuration, get_request_into, get_request_from, get_response_into, get_response_from,
  delete_request_into, delete_request_from, delete_response_into, delete_response_from,
  configuration_into, configuration_from, get_request_back, get_response_back, delete_request_back,
  delete_response_back, configuration_back,
}
use armoni_k_api.Objects.Results.CreateMetadata.{
  MetadataItem, metadata_request_into, metadata_request_from, metadata_response_into,
  metadata_response_from, metadata_request_back, metadata_response_back,
}
use armoni_k_api.Objects.Results.Create.{
  CreateItem, create_request_into, create_request_from, create_response_into, create_response_from,
  create_request_back, create_response_back,
}
use armoni_k_api.Objects.Results.OwnerTaskId.{
  owners_request_into, owners_request_from, owners_into, owners_from, owners_request_back,
  owners_back, owners_read,
}
use armoni_k_api.Objects.Results.Import.{
  import_request_into, import_request_from, import_response_into, import_response_from,
  import_request_back, import_response_back, import_request_read, import_response_read,
}

-- A call of the client with its arguments, and what it can return.
pub data ResultsCall : Type 0 where
  list : List (List (FieldFilter Field ResultCondition)) → Sort → ℤ → ℤ → ResultsCall
  get : String → ResultsCall
  get_owner_task_id : String → List String → ResultsCall
  create_metadata : String → List MetadataItem → ResultsCall
  create : String → List CreateItem → ResultsCall
  import : String → List (String × Bytes) → ResultsCall
  delete_data : String → List String → ResultsCall
  get_service_configuration : ResultsCall
  download : String → String → ResultsCall

pub data ResultsAnswer : Type 0 where
  listed : ListResponse → ResultsAnswer
  about : Raw → ResultsAnswer
  owners_of : HashMap String String → ResultsAnswer
  created : List Raw → ResultsAnswer
  imported : HashMap String Raw → ResultsAnswer
  deleted : List String → ResultsAnswer
  configured : Configuration → ResultsAnswer
  downloaded : List (Result Bytes RequestError) → ResultsAnswer

module _ (it : Iteration) {S : Type 0} (stub : ResultsWire S) where
  unfoldable pub perform : ResultsCall → Call S RequestError ResultsAnswer
  perform (ResultsCall.list filters sort page page_size) =
      then_result (map_ok listed) (Results.list stub.list_results filters sort page page_size)
  perform (ResultsCall.get result_id) = then_result (map_ok about) (Client.get it stub result_id)
  perform (ResultsCall.get_owner_task_id session_id result_ids) =
      then_result (map_ok owners_of) (Client.get_owner_task_id it stub session_id result_ids)
  perform (ResultsCall.create_metadata session_id results) =
      then_result (map_ok created) (Client.create_metadata it stub session_id results)
  perform (ResultsCall.create session_id results) =
      then_result (map_ok created) (Client.create it stub session_id results)
  perform (ResultsCall.import session_id results) =
      then_result (map_ok imported) (Client.import it stub session_id results)
  perform (ResultsCall.delete_data session_id result_ids) =
      then_result (map_ok deleted) (Client.delete_data it stub session_id result_ids)
  perform ResultsCall.get_service_configuration =
      then_result (map_ok configured) (Client.get_service_configuration it stub)
  perform (ResultsCall.download session_id result_id) =
      then_result (map_ok downloaded)
        (Results.download stub.download_result_data session_id result_id)

module _ (it : Iteration) {S Context : Type 0} (service : ResultsService S Context)
    (context : Context) where
  -- The handler of the call, run once on the arguments, with its error wrapped; an import is filed by name.
  unfoldable pub handle : ResultsCall → Call S RequestError ResultsAnswer
  handle (ResultsCall.list filters sort page page_size) = finish listed grpc (
      service.list
        (record {
          page = page;
          page_size = page_size;
          filters = record { disjuncts = map (λ and. record { conjuncts = and }) filters };
          sort = sort;
        })
        context)
  handle (ResultsCall.get result_id) =
      finish (λ r. about r.result) grpc (service.get (record { id = result_id }) context)
  handle (ResultsCall.get_owner_task_id session_id result_ids) =
      finish (λ r. owners_of (owners_read it r).result_task) grpc
        (service.get_owner_task_id (record { session_id = session_id; result_ids = result_ids })
          context)
  handle (ResultsCall.create_metadata session_id results) =
      finish (λ r. created r.results) grpc
        (service.create_metadata (record { session_id = session_id; results = results }) context)
  handle (ResultsCall.create session_id results) =
      finish (λ r. created r.results) grpc
        (service.create (record { session_id = session_id; results = results }) context)
  handle (ResultsCall.import session_id results) =
      finish (λ r. imported (import_response_read it r).results) grpc
        (service.import
          (import_request_read it
            (record { session_id = session_id; results = collect ◌=s=◌ results }))
          context)
  handle (ResultsCall.delete_data session_id result_ids) =
      finish (λ r. deleted r.result_ids) grpc
        (service.delete_data (record { session_id = session_id; result_ids = result_ids }) context)
  handle ResultsCall.get_service_configuration =
      finish configured grpc (service.get_service_configuration tt context)
  handle (ResultsCall.download session_id result_id) =
      finish (λ items. downloaded (map returned_item items)) grpc
        (service.download (record { session_id = session_id; result_id = result_id }) context)

  -- Every call of the client of results but an upload, against a server, runs its own handler, once, on
  -- the arguments that were given, and returns the part of the answer that the client promises, or the
  -- error. Maps are collected from their entries again, and the answer to an import is filed under the
  -- names of the results.
  pub perform-serve_results :
      (call : ResultsCall) (s : S) → perform it (serve it service context) call s ≡ handle call s
  unfolding perform handle serve Client.get Calls.get Client.get_owner_task_id
      Calls.get_owner_task_id Client.create_metadata Calls.create_metadata Client.create
      Calls.create Client.import Calls.import Client.delete_data Calls.delete_data
      Client.get_service_configuration Calls.get_service_configuration Results.list
  perform-serve_results (ResultsCall.list filters sort page page_size) s =
      call_served list_request_into list_request_from list_response_into list_response_from
        list_request_back list_response_back listed service.list context
        (record {
          page = page;
          page_size = page_size;
          filters = record { disjuncts = map (λ and. record { conjuncts = and }) filters };
          sort = sort;
        })
        s
  perform-serve_results (ResultsCall.get result_id) s =
      part_served get_request_into get_request_from get_response_into get_response_from
        get_request_back get_response_back (λ r. r.result) about service.get context
        (record { id = result_id }) s
  perform-serve_results (ResultsCall.get_owner_task_id session_id result_ids) s =
      part_read_served owners_request_into owners_request_from (owners_into it) owners_from (λ r. r)
        (owners_read it) owners_request_back (owners_back it) (λ r. r.result_task) owners_of
        service.get_owner_task_id context
        (record { session_id = session_id; result_ids = result_ids }) s
  perform-serve_results (ResultsCall.create_metadata session_id results) s =
      part_served metadata_request_into metadata_request_from metadata_response_into
        metadata_response_from metadata_request_back metadata_response_back (λ r. r.results) created
        service.create_metadata context (record { session_id = session_id; results = results }) s
  perform-serve_results (ResultsCall.create session_id results) s =
      part_served create_request_into create_request_from create_response_into create_response_from
        create_request_back create_response_back (λ r. r.results) created service.create context
        (record { session_id = session_id; results = results }) s
  perform-serve_results (ResultsCall.import session_id results) s =
      part_read_served (import_request_into it) import_request_from (import_response_into it)
        import_response_from (import_request_read it) (import_response_read it)
        (import_request_back it) (import_response_back it) (λ r. r.results) imported service.import
        context (record { session_id = session_id; results = collect ◌=s=◌ results }) s
  perform-serve_results (ResultsCall.delete_data session_id result_ids) s =
      part_served delete_request_into delete_request_from delete_response_into delete_response_from
        delete_request_back delete_response_back (λ r. r.result_ids) deleted service.delete_data
        context (record { session_id = session_id; result_ids = result_ids }) s
  perform-serve_results ResultsCall.get_service_configuration s =
      call_served (λ u. u) (λ u. u) configuration_into configuration_from (λ _. refl)
        configuration_back configured service.get_service_configuration context tt s
  perform-serve_results (ResultsCall.download session_id result_id) s =
      let reply =
        service.download (record { session_id = session_id; result_id = result_id }) context s in
      ap (λ c. (map_ok downloaded c.0, c.1))
        (download-stream_server context service.download session_id result_id s)
      ∙ ap (λ r. (r, reply.1)) (map_ok-map_ok downloaded (map returned_item) (map_err grpc reply.0))
