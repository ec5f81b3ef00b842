-- ===== src/Client/Tests.antt =====
-- The theorems on calls at concrete handlers. The state of the server is the number of its calls.
use armoni_k_api.Common.{ℕ, suc, String, ◌≡◌, ◌↔◌, none, List, [], ◌∷◌}
use armoni_k_api.Common.Outcome.{Result, ok, err, map_err}
use armoni_k_api.Objects.Convert.{to_option}
use armoni_k_api.Objects.DataChunk.{Output, output_into}
use armoni_k_api.Objects.Results.Raw.{Raw, default_raw, raw_into}
use armoni_k_api.Objects.Results.Upload as Upload
use armoni_k_api.Objects.Submitter.CreateTasks
use armoni_k_api.Rpc.Calls.{Status, other, grpc, Call}
use armoni_k_api.Rpc.Unary.{unary}
use armoni_k_api.Rpc.Streams.{Delivers, ended, broken, arrived, stream_client}
use armoni_k_api.Client.Submitter.{
  done, try_get_task_output, TaskOutputRequest, output_request_from,
}
use armoni_k_api.Client.Submitter.Served.{try_get_task_output-ok_iff}
use armoni_k_api.Client.Results.{upload}
use armoni_k_api.Client.Results.Served.{upload-stream_client}

-- A network that loses everything after the first item.
abbrev lost : Status
lost = record { code = other "unavailable"; message = "lost" }

abbrev first_only {ℓ} : {A : Type ℓ} → List A → List (Result A Status)
first_only [] = []
first_only (a ∷ rest) = ok a ∷ err lost ∷ []

first_only-Delivers : {A : Type 0} (sent : List A) → Delivers sent (first_only sent)
first_only-Delivers [] = ended
first_only-Delivers (a ∷ rest) = arrived a (broken rest lost)

-- Handlers that count their calls.
abbrev create_small : CreateTasks.SmallRequest → String → Call ℕ Status CreateTasks.Response
create_small request context n = (ok (CreateTasks.Response.error request.session_id), suc n)

abbrev create_large :
    List (Result CreateTasks.LargeRequest Status) → String → Call ℕ Status CreateTasks.Response
create_large _ context n = (ok (CreateTasks.statuses []), suc n)

abbrev requests : List CreateTasks.LargeRequest
requests =
    CreateTasks.init_request (record { session_id = "session"; task_options = none })
    ∷ CreateTasks.invalid
    ∷ []

abbrev task_output : TaskOutputRequest → String → Call ℕ Status Output
task_output request context n = (ok (Output.error request.task_id), suc n)

try_get_task_output-ok_iff_example :
    ((try_get_task_output
        (λ w. unary output_request_from output_into task_output w "context")
        "session"
        "task"
        0).0
      ≡ ok done)
    ↔ ((task_output (record { session_id = "session"; task_id = "task" }) "context" 0).0
        ≡ ok Output.success)
try_get_task_output-ok_iff_example =
    try_get_task_output-ok_iff "context" task_output "session" "task" 0

abbrev upload_handler : List (Result Upload.Request Status) → String → Call ℕ Status Raw
upload_handler _ context n = (ok default_raw, suc n)

upload-stream_client_example :
    (received : List (Result Upload.Request Status)) × Delivers
      (Upload.upload_requests "session" "result" ((1 ∷ []) ∷ (2 ∷ []) ∷ []))
      received
    × (upload
          (λ sent.
            stream_client Upload.request_from
              (to_option raw_into)
              upload_handler
              (first_only sent)
              "context")
          "session"
          "result"
          ((1 ∷ []) ∷ (2 ∷ []) ∷ [])
          0
        ≡ (map_err grpc (upload_handler received "context" 0).0, 1))
upload-stream_client_example =
    upload-stream_client "context" first_only first_only-Delivers upload_handler "session" "result"
      ((1 ∷ []) ∷ (2 ∷ []) ∷ []) 0
