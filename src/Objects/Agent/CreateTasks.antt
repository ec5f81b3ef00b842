-- ===== src/Objects/Agent/CreateTasks.antt =====
-- packages/rust/armonik/src/objects/agent/create_tasks.rs: the stream of requests by which a worker
-- creates tasks, and its answer.
use armoni_k_api.Common.{String, ◌≡◌, refl, ap, Option, none, some, List}
use armoni_k_api.Objects.Convert.{option_to_option, option-retract, into_collect, list-retract}
use armoni_k_api.Objects.DataChunk.{
  DataChunk, V3DataChunk, chunk_into, chunk_from, chunk_from-chunk_into, InitTaskRequest,
  V3InitTaskRequest, init_task_into, init_task_from, init_task_from-init_task_into,
}
use armoni_k_api.Objects.TaskOptions.{
  TaskOptions, V3TaskOptions, options_into, options_from, options_from-options_into,
}

pub record InitRequest : Type 0 where
  pub task_options : Option TaskOptions

pub record V3InitRequest : Type 0 where
  pub task_options : Option V3TaskOptions

unfoldable pub init_into : InitRequest → V3InitRequest
init_into r = record { task_options = option_to_option options_into r.task_options }

unfoldable pub init_from : V3InitRequest → InitRequest
init_from w = record { task_options = option_to_option options_from w.task_options }

init_from-init_into : (r : InitRequest) → init_from (init_into r) ≡ r
unfolding init_from init_into
init_from-init_into r = λ i. record {
  task_options =
      option-retract options_into options_from options_from-options_into r.task_options i;
}

-- Each request but the invalid one carries the communication token.
pub data Request : Type 0 where
  invalid : Request
  init_request : String → InitRequest → Request
  init_task_request : String → InitTaskRequest → Request
  data_chunk : String → DataChunk → Request

pub data V3RequestType : Type 0 where
  init_request : V3InitRequest → V3RequestType
  init_task : V3InitTaskRequest → V3RequestType
  task_payload : V3DataChunk → V3RequestType

pub record V3Request : Type 0 where
  pub communication_token : String
  pub type : Option V3RequestType

unfoldable pub request_into : Request → V3Request
request_into invalid = record { communication_token = ""; type = none }
request_into (Request.init_request token r) = record {
  communication_token = token;
  type = some (V3RequestType.init_request (init_into r));
}
request_into (init_task_request token r) = record {
  communication_token = token;
  type = some (init_task (init_task_into r));
}
request_into (data_chunk token c) = record {
  communication_token = token;
  type = some (task_payload (chunk_into c));
}

request_of : String → Option V3RequestType → Request
request_of token (some (V3RequestType.init_request r)) = Request.init_request token (init_from r)
request_of token (some (init_task r)) = init_task_request token (init_task_from r)
request_of token (some (task_payload c)) = data_chunk token (chunk_from c)
request_of token none = invalid

unfoldable pub request_from : V3Request → Request
unfolding request_of
request_from w = request_of w.communication_token w.type

-- Every request is read back from its message, with its token, its kind and its content.
pub request_from-request_into : (r : Request) → request_from (request_into r) ≡ r
unfolding request_from request_into
request_from-request_into invalid = refl
request_from-request_into (Request.init_request token r) =
    ap (Request.init_request token) (init_from-init_into r)
request_from-request_into (init_task_request token r) =
    ap (init_task_request token) (init_task_from-init_task_into r)
request_from-request_into (data_chunk token c) = ap (data_chunk token) (chunk_from-chunk_into c)

-- The outcome for one task: its ids, or an error.
pub record TaskInfo : Type 0 where
  pub task_id : String
  pub expected_output_keys : List String
  pub data_dependencies : List String
  pub payload_id : String

pub data Status : Type 0 where
  task_info : TaskInfo → Status
  error : String → Status

pub data V3StatusType : Type 0 where
  task_info : TaskInfo → V3StatusType
  error : String → V3StatusType

abbrev pub V3CreationStatus : Type 0
V3CreationStatus = Option V3StatusType

unfoldable pub status_into : Status → V3CreationStatus
status_into (Status.task_info info) = some (V3StatusType.task_info info)
status_into (Status.error msg) = some (V3StatusType.error msg)

unfoldable pub status_from : V3CreationStatus → Status
status_from (some (V3StatusType.task_info info)) = Status.task_info info
status_from (some (V3StatusType.error msg)) = Status.error msg
status_from none = Status.error ""

pub status_from-status_into : (s : Status) → status_from (status_into s) ≡ s
unfolding status_from status_into
status_from-status_into (Status.task_info info) = refl
status_from-status_into (Status.error msg) = refl

pub data Response : Type 0 where
  statuses : String → List Status → Response
  error : String → String → Response

pub data V3ResponseType : Type 0 where
  creation_status_list : List V3CreationStatus → V3ResponseType
  error : String → V3ResponseType

pub record V3Response : Type 0 where
  pub communication_token : String
  pub response : Option V3ResponseType

unfoldable pub response_into : Response → V3Response
response_into (statuses token l) = record {
  communication_token = token;
  response = some (creation_status_list (into_collect status_into l));
}
response_into (Response.error token msg) = record {
  communication_token = token;
  response = some (V3ResponseType.error msg);
}

response_of : String → Option V3ResponseType → Response
response_of token (some (creation_status_list l)) = statuses token (into_collect status_from l)
response_of token (some (V3ResponseType.error msg)) = Response.error token msg
response_of token none = Response.error "" ""

unfoldable pub response_from : V3Response → Response
unfolding response_of
response_from w = response_of w.communication_token w.response

-- Every answer is read back from its message, one status for each task in the same order.
pub response_from-response_into : (r : Response) → response_from (response_into r) ≡ r
unfolding response_from response_into
response_from-response_into (statuses token l) =
    ap (statuses token) (list-retract status_into status_from status_from-status_into l)
response_from-response_into (Response.error token msg) = refl

-- A message with no content is read as the invalid request, and as an error: the token that it
-- carries is lost.
pub empty_loses_token :
    (token : String)
    → (request_into (request_from (record { communication_token = token; type = none }))
        ≡ record { communication_token = ""; type = none })
      × (response_from (record { communication_token = token; response = none })
          ≡ Response.error "" "")
unfolding request_from request_into response_from
empty_loses_token token = (refl, refl)
