-- ===== src/Client/MapsTests.antt =====
-- The theorems on the maps that are returned, at concrete handlers.
use armoni_k_api.Common.{ℤ, String, ◌≡◌, refl, some, List, [], ◌∷◌, ◌=s=◌}
use armoni_k_api.Common.Outcome.{ok}
use armoni_k_api.Common.HashMap.{HashMap, lookup, NodupKeys, collect_onto, insert}
use armoni_k_api.Objects.Enums.TaskStatus as TaskCodes
use armoni_k_api.Objects.TaskOptions.{int_eq}
use armoni_k_api.Objects.Count.{status_eq}
use armoni_k_api.Objects.Results.Raw as ResultRaw
use armoni_k_api.Objects.Results.Import.{
  import_request_into, import_request_from, import_response_into, import_response_from,
}
use armoni_k_api.Rpc.Unary.{client_call, unary}
use armoni_k_api.Client.Results.Calls as ResultsCalls
use armoni_k_api.Objects.Enums.ResultStatus as ResultCodes
use armoni_k_api.Server.Tasks as TasksServer
use armoni_k_api.Server.Results as ResultsServer
use armoni_k_api.Server.Submitter as SubmitterServer
use armoni_k_api.Client.Tasks as TasksClient
use armoni_k_api.Client.Submitter.Plain as SubmitterClient
use armoni_k_api.Client.Results.Metadata as ResultsClient
use armoni_k_api.Client.Maps.{get_result_ids-lookup, count_tasks-lookup, import-lookup_name}
use armoni_k_api.Client.Handlers.{
  in_order, two_results, task_handlers, two_counts, one_session, submitter_handlers, named_result,
  result_handlers,
}

two_results_nodup : NodupKeys ◌=s=◌ two_results.task_results
unfolding lookup
two_results_nodup = (refl, (refl, tt))

get_result_ids-lookup_example :
    (m : HashMap String (List String)) × (TasksClient.get_result_ids
        (TasksServer.serve in_order task_handlers tt)
        ("t1" ∷ [])
        0
      ≡ (ok m, 1))
    × ((k : String) → lookup ◌=s=◌ k m ≡ lookup ◌=s=◌ k two_results.task_results)
get_result_ids-lookup_example =
    get_result_ids-lookup in_order task_handlers tt ("t1" ∷ []) 0 1 two_results refl
      two_results_nodup

two_counts_nodup : NodupKeys status_eq two_counts.values
unfolding lookup status_eq TaskCodes.as_i32 int_eq
two_counts_nodup = (refl, (refl, tt))

count_tasks-lookup_example :
    (m : HashMap TaskCodes.TaskStatus ℤ) × (SubmitterClient.count_tasks
        (SubmitterServer.serve in_order submitter_handlers tt)
        one_session
        0
      ≡ (ok m, 1))
    × ((k : TaskCodes.TaskStatus) → lookup status_eq k m ≡ lookup status_eq k two_counts.values)
count_tasks-lookup_example =
    count_tasks-lookup in_order submitter_handlers tt one_session 0 1 two_counts refl
      two_counts_nodup

-- The result comes back under its name, not under its identifier.
imported :
    ResultsClient.import in_order (ResultsServer.serve in_order result_handlers tt) "s1" [] 0
    ≡ (ok (("input", named_result) ∷ []), 1)
unfolding ResultsClient.import ResultsCalls.import client_call ResultsServer.serve unary
    import_request_into import_request_from import_response_into import_response_from
    ResultRaw.raw_into ResultRaw.raw_from collect_onto insert ResultCodes.as_i32
    ResultCodes.from_i32
imported = refl

found : lookup ◌=s=◌ "input" (("input", named_result) ∷ []) ≡ some named_result
unfolding lookup
found = refl

import-lookup_name_example : named_result.name ≡ "input"
import-lookup_name_example =
    import-lookup_name in_order (ResultsServer.serve in_order result_handlers tt) "s1" [] 0 1
      (("input", named_result) ∷ []) imported "input" named_result found
