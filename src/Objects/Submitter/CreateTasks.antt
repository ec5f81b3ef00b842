-- ===== src/Objects/Submitter/CreateTasks.antt =====
-- packages/rust/armonik/src/objects/submitter/create_tasks.rs: the requests that create tasks, and
-- the answer. The statuses of the answer have the shape of the agent's.
use armoni_k_api.Common.{String, ◌≡◌, refl, ap, Option, none, some, List, []}
use armoni_k_api.Objects.Convert.{option_to_option, option-retract, into_collect, list-retract}
use armoni_k_api.Objects.DataChunk.{
  Bytes, DataChunk, V3DataChunk, chunk_into, chunk_from, chunk_from-chunk_into, InitTaskRequest,
  V3InitTaskRequest, init_task_into, init_task_from, init_task_from-init_task_into,
}
use armoni_k_api.Objects.TaskOptions.{
  TaskOptions, V3TaskOptions, options_into, options_from, options_from-options_into,
}

-- `TaskRequest`, and the message of the same fields.
pub record TaskRequest : Type 0 where
  pub expected_output_keys : List String
  pub data_dependencies : List String
  pub payload : Bytes
  pub payload_name : String

pub record SmallRequest : Type 0 where
  pub session_id : String
  pub task_options : Option TaskOptions
  pub task_requests : List TaskRequest

pub record V3SmallRequest : Type 0 where
  pub session_id : String
  pub task_options : Option V3TaskOptions
  pub task_requests : List TaskRequest

unfoldable pub small_into : SmallRequest → V3SmallRequest
small_into r = record {
  session_id = r.session_id;
  task_options = option_to_option options_into r.task_options;
  task_requests = r.task_requests;
}

unfoldable pub small_from : V3SmallRequest → SmallRequest
small_from w = record {
  session_id = w.session_id;
  task_options = option_to_option options_from w.task_options;
  task_requests = w.task_requests;
}

pub small_from-small_into : (r : SmallRequest) → small_from (small_into r) ≡ r
unfolding small_from small_into
small_from-small_into r = λ i. record {
  session_id = r.session_id;
  task_options =
      option-retract options_into options_from options_from-options_into r.task_options i;
  task_requests = r.task_requests;
}

pub record InitRequest : Type 0 where
  pub session_id : String
  pub task_options : Option TaskOptions

pub record V3InitRequest : Type 0 where
  pub session_id : String
  pub task_options : Option V3TaskOptions

unfoldable pub init_into : InitRequest → V3InitRequest
init_into r = record {
  session_id = r.session_id;
  task_options = option_to_option options_into r.task_options;
}

unfoldable pub init_from : V3InitRequest → InitRequest
init_from w = record {
  session_id = w.session_id;
  task_options = option_to_option options_from w.task_options;
}

init_from-init_into : (r : InitRequest) → init_from (init_into r) ≡ r
unfolding init_from init_into
init_from-init_into r = λ i. record {
  session_id = r.session_id;
  task_options =
      option-retract options_into options_from options_from-options_into r.task_options i;
}

pub data LargeRequest : Type 0 where
  invalid : LargeRequest
  init_request : InitRequest → LargeRequest
  init_task_request : InitTaskRequest → LargeRequest
  data_chunk : DataChunk → LargeRequest

pub data V3LargeType : Type 0 where
  init_request : V3InitRequest → V3LargeType
  init_task : V3InitTaskRequest → V3LargeType
  task_payload : V3DataChunk → V3LargeType

abbrev pub V3LargeRequest : Type 0
V3LargeRequest = Option V3LargeType

unfoldable pub large_into : LargeRequest → V3LargeRequest
large_into invalid = none
large_into (LargeRequest.init_request r) = some (V3LargeType.init_request (init_into r))
large_into (init_task_request r) = some (init_task (init_task_into r))
large_into (data_chunk c) = some (task_payload (chunk_into c))

unfoldable pub large_from : V3LargeRequest → LargeRequest
large_from (some (V3LargeType.init_request r)) = LargeRequest.init_request (init_from r)
large_from (some (init_task r)) = init_task_request (init_task_from r)
large_from (some (task_payload c)) = data_chunk (chunk_from c)
large_from none = invalid

-- Every request of the stream is read back from its message, with its kind and its content.
pub large_from-large_into : (r : LargeRequest) → large_from (large_into r) ≡ r
unfolding large_from large_into
large_from-large_into invalid = refl
large_from-large_into (LargeRequest.init_request r) =
    ap LargeRequest.init_request (init_from-init_into r)
large_from-large_into (init_task_request r) = ap init_task_request (init_task_from-init_task_into r)
large_from-large_into (data_chunk c) = ap data_chunk (chunk_from-chunk_into c)

pub record TaskInfo : Type 0 where
  pub task_id : String
  pub expected_output_keys : List String
  pub data_dependencies : List String
  pub payload_id : String

pub data Status : Type 0 where
  task_info : TaskInfo → Status
  error : String → Status

pub data V3StatusType : Type 0 where
  task_info : TaskInfo → V3StatusType
  error : String → V3StatusType

abbrev pub V3CreationStatus : Type 0
V3CreationStatus = Option V3StatusType

unfoldable pub status_into : Status → V3CreationStatus
status_into (Status.task_info info) = some (V3StatusType.task_info info)
status_into (Status.error msg) = some (V3StatusType.error msg)

unfoldable pub status_from : V3CreationStatus → Status
status_from (some (V3StatusType.task_info info)) = Status.task_info info
status_from (some (V3StatusType.error msg)) = Status.error msg
status_from none = Status.error ""

pub status_from-status_into : (s : Status) → status_from (status_into s) ≡ s
unfolding status_from status_into
status_from-status_into (Status.task_info info) = refl
status_from-status_into (Status.error msg) = refl

pub data Response : Type 0 where
  statuses : List Status → Response
  error : String → Response

pub data V3ResponseType : Type 0 where
  creation_status_list : List V3CreationStatus → V3ResponseType
  error : String → V3ResponseType

abbrev pub V3Response : Type 0
V3Response = Option V3ResponseType

unfoldable pub response_into : Response → V3Response
response_into (statuses l) = some (creation_status_list (into_collect status_into l))
response_into (Response.error msg) = some (V3ResponseType.error msg)

-- An answer with no content is read as an empty list of statuses.
unfoldable pub response_from : V3Response → Response
response_from (some (creation_status_list l)) = statuses (into_collect status_from l)
response_from (some (V3ResponseType.error msg)) = Response.error msg
response_from none = statuses []

pub response_from-response_into : (r : Response) → response_from (response_into r) ≡ r
unfolding response_from response_into
response_from-response_into (statuses l) =
    ap statuses (list-retract status_into status_from status_from-status_into l)
response_from-response_into (Response.error msg) = refl
