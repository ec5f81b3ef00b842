-- ===== src/Objects/Submitter/TryGetResult.antt =====
-- packages/rust/armonik/src/objects/submitter/try_get_result.rs, error.rs and task_error.rs: the stream
-- that brings a result, or says why there is none.
use armoni_k_api.Common.{ℤ, String, ◌≡◌, refl, ap, Option, none, some, List}
use armoni_k_api.Objects.Convert.{into_collect, list-retract}
use armoni_k_api.Objects.DataChunk.{
  DataChunk, V3DataChunk, chunk_into, chunk_from, chunk_from-chunk_into,
}
use armoni_k_api.Objects.Enums.TaskStatus as TaskCodes

-- `Error` of error.rs.
pub record Error : Type 0 where
  pub task_status : TaskCodes.TaskStatus
  pub details : String

pub record V3Error : Type 0 where
  pub task_status : ℤ
  pub detail : String

unfoldable pub error_into : Error → V3Error
error_into e = record { task_status = TaskCodes.as_i32 e.task_status; detail = e.details }

unfoldable pub error_from : V3Error → Error
error_from w = record { task_status = TaskCodes.from_i32 w.task_status; details = w.detail }

error_back : (e : Error) → error_from (error_into e) ≡ e
unfolding error_into error_from
error_back e =
    λ i. record { task_status = TaskCodes.coded.known e.task_status i; details = e.details }

pub record TaskError : Type 0 where
  pub task_id : String
  pub errors : List Error

pub record V3TaskError : Type 0 where
  pub task_id : String
  pub errors : List V3Error

unfoldable pub task_error_into : TaskError → V3TaskError
task_error_into e = record { task_id = e.task_id; errors = into_collect error_into e.errors }

unfoldable pub task_error_from : V3TaskError → TaskError
task_error_from w = record { task_id = w.task_id; errors = into_collect error_from w.errors }

pub task_error_back : (e : TaskError) → task_error_from (task_error_into e) ≡ e
unfolding task_error_into task_error_from
task_error_back e = λ i. record {
  task_id = e.task_id;
  errors = list-retract error_into error_from error_back e.errors i;
}

pub record ResultRequest : Type 0 where
  pub session_id : String
  pub result_id : String

pub record V3ResultRequest : Type 0 where
  pub session : String
  pub result_id : String

unfoldable pub result_request_into : ResultRequest → V3ResultRequest
result_request_into r = record { session = r.session_id; result_id = r.result_id }

unfoldable pub result_request_from : V3ResultRequest → ResultRequest
result_request_from w = record { session_id = w.session; result_id = w.result_id }

pub data ResultReply : Type 0 where
  data_chunk : DataChunk → ResultReply
  task_error : TaskError → ResultReply
  not_completed : String → ResultReply

pub data V3ReplyType : Type 0 where
  result : V3DataChunk → V3ReplyType
  error : V3TaskError → V3ReplyType
  not_completed_task : String → V3ReplyType

abbrev pub V3ResultReply : Type 0
V3ResultReply = Option V3ReplyType

unfoldable pub reply_into : ResultReply → V3ResultReply
reply_into (data_chunk c) = some (result (chunk_into c))
reply_into (task_error e) = some (error (task_error_into e))
reply_into (not_completed msg) = some (not_completed_task msg)

unfoldable pub reply_from : V3ResultReply → ResultReply
reply_from (some (result c)) = data_chunk (chunk_from c)
reply_from (some (error e)) = task_error (task_error_from e)
reply_from (some (not_completed_task msg)) = not_completed msg
reply_from none = not_completed ""

pub reply_back : (r : ResultReply) → reply_from (reply_into r) ≡ r
unfolding reply_into reply_from
reply_back (data_chunk c) = ap data_chunk (chunk_from-chunk_into c)
reply_back (task_error e) = ap task_error (task_error_back e)
reply_back (not_completed msg) = refl
