-- ===== src/Client/Results/Metadata.antt =====
-- packages/rust/armonik/src/client/results.rs: the client of the service, over a stub that is generated code.
use armoni_k_api.Common.{String, List, ◌=s=◌}
use armoni_k_api.Common.Outcome.{map_ok}
use armoni_k_api.Rpc.Calls.{RequestError, Call, then_result}
use armoni_k_api.Server.Results.{ResultsWire}
use armoni_k_api.Client.Results.Calls as Calls
use armoni_k_api.Common.HashMap.{Iteration, collect, HashMap}
use armoni_k_api.Objects.DataChunk.{Bytes}
use armoni_k_api.Objects.Results.Raw.{Raw}
use armoni_k_api.Objects.Results.Requests.{GetResponse, DeleteResponse, Configuration}
use armoni_k_api.Objects.Results.OwnerTaskId.{Owners}
use armoni_k_api.Objects.Results.CreateMetadata.{MetadataItem, MetadataResponse}
use armoni_k_api.Objects.Results.Create.{CreateItem, CreateResponse}
use armoni_k_api.Objects.Results.Import.{ImportResponse}

module _ (it : Iteration) {S : Type 0} (stub : ResultsWire S) where
  unfoldable pub get : String → Call S RequestError Raw
  get result_id =
      then_result (map_ok (λ (r : GetResponse). r.result))
        (Calls.get it stub (record { id = result_id }))

  unfoldable pub get_owner_task_id :
      String → List String → Call S RequestError (HashMap String String)
  get_owner_task_id session_id result_ids = then_result (map_ok (λ (r : Owners). r.result_task)) (
      Calls.get_owner_task_id it stub (record { session_id = session_id; result_ids = result_ids }))

  unfoldable pub create_metadata : String → List MetadataItem → Call S RequestError (List Raw)
  create_metadata session_id results =
      then_result (map_ok (λ (r : MetadataResponse). r.results))
        (Calls.create_metadata it stub (record { session_id = session_id; results = results }))

  unfoldable pub create : String → List CreateItem → Call S RequestError (List Raw)
  create session_id results =
      then_result (map_ok (λ (r : CreateResponse). r.results))
        (Calls.create it stub (record { session_id = session_id; results = results }))

  unfoldable pub import : String → List (String × Bytes) → Call S RequestError (HashMap String Raw)
  import session_id results =
      then_result (map_ok (λ (r : ImportResponse). r.results))
        (Calls.import it stub (record { session_id = session_id; results = collect ◌=s=◌ results }))

  unfoldable pub delete_data : String → List String → Call S RequestError (List String)
  delete_data session_id result_ids =
      then_result (map_ok (λ (r : DeleteResponse). r.result_ids))
        (Calls.delete_data it stub (record { session_id = session_id; result_ids = result_ids }))

  unfoldable pub get_service_configuration : Call S RequestError Configuration
  get_service_configuration = Calls.get_service_configuration it stub tt
