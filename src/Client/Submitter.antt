-- ===== src/Client/Submitter.antt =====
-- packages/rust/armonik/src/client/submitter.rs: the calls of the submitter that judge their answer.
-- The stub of the service is generated code, the argument `stub`.
pub mod Served
pub mod Filtered
pub mod Fetched
pub mod Calls
pub mod Plain
pub mod Asked
pub mod Answered
use armoni_k_api.Common.{String, Option, List, map}
use armoni_k_api.Common.Outcome.{Result, ok, err, ◌>>=◌}
use armoni_k_api.Objects.DataChunk.{Output, V3Output, output_from}
use armoni_k_api.Objects.TaskOptions.{TaskOptions}
use armoni_k_api.Objects.Submitter.CreateTasks
use armoni_k_api.Objects.Submitter.CreateTasks.{
  TaskRequest, SmallRequest, V3SmallRequest, small_into, LargeRequest, V3LargeRequest, large_into,
  Response, statuses, V3Response, response_from,
}
use armoni_k_api.Rpc.Calls.{Status, RequestError, grpc, internal, Call, finish, then_result}
use armoni_k_api.Rpc.Unary.{client_call}

-- `Err(tonic::Status::internal(msg)).context(GrpcSnafu {})`
unfoldable pub internal_error : String → RequestError
internal_error msg = grpc (record { code = internal; message = msg })

-- The `match response` of `create_small_tasks` and of `create_large_tasks`.
unfoldable pub judge_creation : Response → Result (List CreateTasks.Status) RequestError
judge_creation (statuses l) = ok l
judge_creation (Response.error msg) = err (internal_error msg)

-- The `match response` of `try_get_task_output`; the unit is the code's `()`.
pub data Done : Type 0 where
  done : Done

unfoldable pub judge_output : Output → Result Done RequestError
judge_output Output.success = ok done
judge_output (Output.error details) = err (internal_error details)

pub record TaskOutputRequest : Type 0 where
  pub session_id : String
  pub task_id : String

pub record V3TaskOutputRequest : Type 0 where
  pub session : String
  pub task_id : String

unfoldable pub output_request_into : TaskOutputRequest → V3TaskOutputRequest
output_request_into r = record { session = r.session_id; task_id = r.task_id }

unfoldable pub output_request_from : V3TaskOutputRequest → TaskOutputRequest
output_request_from w = record { session_id = w.session; task_id = w.task_id }

module _ {S : Type 0} where
  unfoldable pub create_small_tasks :
      (V3SmallRequest → Call S Status V3Response)
      → String
      → Option TaskOptions
      → List TaskRequest
      → Call S RequestError (List CreateTasks.Status)
  create_small_tasks stub session options tasks =
      let request : SmallRequest = record {
        session_id = session;
        task_options = options;
        task_requests = tasks;
      } in
      then_result (λ r. r >>= judge_creation) (client_call small_into response_from stub request)

  -- The stub takes the stream of the converted requests.
  unfoldable pub create_large_tasks :
      (List V3LargeRequest → Call S Status V3Response)
      → List LargeRequest
      → Call S RequestError (List CreateTasks.Status)
  create_large_tasks stub requests =
      then_result (λ r. r >>= judge_creation)
        (client_call (map large_into) response_from stub requests)

  unfoldable pub try_get_task_output :
      (V3TaskOutputRequest → Call S Status V3Output) → String → String → Call S RequestError Done
  try_get_task_output stub session task =
      let request : TaskOutputRequest = record { session_id = session; task_id = task } in
      then_result (λ r. r >>= judge_output)
        (client_call output_request_into output_from stub request)
