-- ===== src/Objects/DataChunk.antt =====
-- packages/rust/armonik/src/objects/data_chunk.rs, task_request_header.rs, init_task_request.rs and
-- output.rs: small messages that are one of several.
use armoni_k_api.Common.{ℕ, String, ◌≡◌, refl, Bool, true, Option, none, some, List, []}

abbrev pub Bytes : Type 0
Bytes = List ℕ

pub data DataChunk : Type 0 where
  chunk : Bytes → DataChunk
  complete : DataChunk

pub data V3DataChunkType : Type 0 where
  chunk : Bytes → V3DataChunkType
  data_complete : Bool → V3DataChunkType

-- A message that is one of several holds an optional type.
abbrev pub V3DataChunk : Type 0
V3DataChunk = Option V3DataChunkType

abbrev pub default_chunk : DataChunk
default_chunk = DataChunk.chunk []

unfoldable pub chunk_into : DataChunk → V3DataChunk
chunk_into (DataChunk.chunk bytes) = some (V3DataChunkType.chunk bytes)
chunk_into complete = some (data_complete true)

unfoldable pub chunk_from : V3DataChunk → DataChunk
chunk_from (some (V3DataChunkType.chunk bytes)) = DataChunk.chunk bytes
chunk_from (some (data_complete _)) = complete
chunk_from none = default_chunk

pub chunk_from-chunk_into : (c : DataChunk) → chunk_from (chunk_into c) ≡ c
unfolding chunk_from chunk_into
chunk_from-chunk_into (DataChunk.chunk bytes) = refl
chunk_from-chunk_into complete = refl

pub record TaskRequestHeader : Type 0 where
  pub expected_output_keys : List String
  pub data_dependencies : List String

pub record V3TaskRequestHeader : Type 0 where
  pub expected_output_keys : List String
  pub data_dependencies : List String

unfoldable pub header_into : TaskRequestHeader → V3TaskRequestHeader
header_into h = record {
  expected_output_keys = h.expected_output_keys;
  data_dependencies = h.data_dependencies;
}

unfoldable pub header_from : V3TaskRequestHeader → TaskRequestHeader
header_from h = record {
  expected_output_keys = h.expected_output_keys;
  data_dependencies = h.data_dependencies;
}

pub data InitTaskRequest : Type 0 where
  header : TaskRequestHeader → InitTaskRequest
  last_task : InitTaskRequest

pub data V3InitTaskType : Type 0 where
  header : V3TaskRequestHeader → V3InitTaskType
  last_task : Bool → V3InitTaskType

abbrev pub V3InitTaskRequest : Type 0
V3InitTaskRequest = Option V3InitTaskType

abbrev pub default_init_task : InitTaskRequest
default_init_task =
    InitTaskRequest.header (record { expected_output_keys = []; data_dependencies = [] })

unfoldable pub init_task_into : InitTaskRequest → V3InitTaskRequest
unfolding header_into
init_task_into (InitTaskRequest.header h) = some (V3InitTaskType.header (header_into h))
init_task_into InitTaskRequest.last_task = some (V3InitTaskType.last_task true)

unfoldable pub init_task_from : V3InitTaskRequest → InitTaskRequest
unfolding header_from
init_task_from (some (V3InitTaskType.header h)) = InitTaskRequest.header (header_from h)
init_task_from (some (V3InitTaskType.last_task _)) = InitTaskRequest.last_task
init_task_from none = default_init_task

pub init_task_from-init_task_into : (r : InitTaskRequest) → init_task_from (init_task_into r) ≡ r
unfolding init_task_from init_task_into
init_task_from-init_task_into (InitTaskRequest.header h) = refl
init_task_from-init_task_into InitTaskRequest.last_task = refl

pub data Output : Type 0 where
  success : Output
  error : String → Output

-- `v3::output::Type`; `Error` holds its details.
pub data V3OutputType : Type 0 where
  success : V3OutputType
  error : String → V3OutputType

abbrev pub V3Output : Type 0
V3Output = Option V3OutputType

unfoldable pub output_into : Output → V3Output
output_into Output.success = some V3OutputType.success
output_into (Output.error details) = some (V3OutputType.error details)

unfoldable pub output_from : V3Output → Output
output_from (some V3OutputType.success) = Output.success
output_from (some (V3OutputType.error details)) = Output.error details
output_from none = Output.success

pub output_from-output_into : (o : Output) → output_from (output_into o) ≡ o
unfolding output_from output_into
output_from-output_into Output.success = refl
output_from-output_into (Output.error details) = refl
