-- ===== src/Objects/Worker.antt =====
-- packages/rust/armonik/src/objects/worker: what a worker is asked to process, and its health.
use armoni_k_api.Common.{ℤ, pos, String, ◌≡◌, refl, Option, List, [], is_pos, if◌then◌else◌}
use armoni_k_api.Objects.Convert.{to_option, from_option}
use armoni_k_api.Objects.TaskOptions.{
  TaskOptions, V3TaskOptions, default_task_options, options_into, options_from,
  options_from-options_into,
}
use armoni_k_api.Objects.Submitter.Sessions.{
  Configuration, V3Configuration, default_configuration, configuration_into, configuration_from,
  configuration_back,
}
use armoni_k_api.Objects.DataChunk.{
  Output, V3Output, output_into, output_from, output_from-output_into,
}

pub record ProcessRequest : Type 0 where
  pub communication_token : String
  pub session_id : String
  pub task_id : String
  pub task_options : TaskOptions
  pub expected_output_keys : List String
  pub payload_id : String
  pub data_dependencies : List String
  pub data_folder : String
  pub configuration : Configuration

pub record V3ProcessRequest : Type 0 where
  pub communication_token : String
  pub session_id : String
  pub task_id : String
  pub task_options : Option V3TaskOptions
  pub expected_output_keys : List String
  pub payload_id : String
  pub data_dependencies : List String
  pub data_folder : String
  pub configuration : Option V3Configuration

abbrev pub default_process_request : ProcessRequest
default_process_request = record {
  communication_token = "";
  session_id = "";
  task_id = "";
  task_options = default_task_options;
  expected_output_keys = [];
  payload_id = "";
  data_dependencies = [];
  data_folder = "";
  configuration = default_configuration;
}

unfoldable pub process_request_into : ProcessRequest → V3ProcessRequest
process_request_into r = record {
  communication_token = r.communication_token;
  session_id = r.session_id;
  task_id = r.task_id;
  task_options = to_option options_into r.task_options;
  expected_output_keys = r.expected_output_keys;
  payload_id = r.payload_id;
  data_dependencies = r.data_dependencies;
  data_folder = r.data_folder;
  configuration = to_option configuration_into r.configuration;
}

unfoldable pub process_request_from : V3ProcessRequest → ProcessRequest
process_request_from w = record {
  communication_token = w.communication_token;
  session_id = w.session_id;
  task_id = w.task_id;
  task_options = from_option options_from default_task_options w.task_options;
  expected_output_keys = w.expected_output_keys;
  payload_id = w.payload_id;
  data_dependencies = w.data_dependencies;
  data_folder = w.data_folder;
  configuration = from_option configuration_from default_configuration w.configuration;
}

pub process_request_back : (r : ProcessRequest) → process_request_from (process_request_into r) ≡ r
unfolding process_request_from process_request_into
process_request_back r = λ i. record {
  communication_token = r.communication_token;
  session_id = r.session_id;
  task_id = r.task_id;
  task_options = options_from-options_into r.task_options i;
  expected_output_keys = r.expected_output_keys;
  payload_id = r.payload_id;
  data_dependencies = r.data_dependencies;
  data_folder = r.data_folder;
  configuration = configuration_back r.configuration i;
}

pub record ProcessResponse : Type 0 where
  pub output : Output

pub record V3ProcessResponse : Type 0 where
  pub output : Option V3Output

abbrev pub default_process_response : ProcessResponse
default_process_response = record { output = Output.success }

unfoldable pub process_response_into : ProcessResponse → V3ProcessResponse
process_response_into r = record { output = to_option output_into r.output }

unfoldable pub process_response_from : V3ProcessResponse → ProcessResponse
process_response_from w = record { output = from_option output_from Output.success w.output }

pub process_response_back :
    (r : ProcessResponse) → process_response_from (process_response_into r) ≡ r
unfolding process_response_from process_response_into
process_response_back r = λ i. record { output = output_from-output_into r.output i }

-- The request of a health check is the empty message.
pub data Serving : Type 0 where
  unknown serving not_serving : Serving

abbrev pub default_serving : Serving
default_serving = Serving.unknown

-- `value as i32`.
unfoldable pub serving_code : Serving → ℤ
serving_code Serving.unknown = pos 0
serving_code serving = pos 1
serving_code not_serving = pos 2

unfoldable pub serving_decode : ℤ → Serving
serving_decode value =
    if is_pos value 0
    then Serving.unknown
    else if is_pos value 1
    then serving
    else if is_pos value 2
    then not_serving
    else Serving.unknown

-- `v3::worker::HealthCheckReply`
pub record V3HealthCheckReply : Type 0 where
  pub status : ℤ

unfoldable pub serving_into : Serving → V3HealthCheckReply
serving_into r = record { status = serving_code r }

unfoldable pub serving_from : V3HealthCheckReply → Serving
serving_from w = serving_decode w.status

pub serving_back : (r : Serving) → serving_from (serving_into r) ≡ r
unfolding serving_from serving_into serving_code serving_decode
serving_back Serving.unknown = refl
serving_back serving = refl
serving_back not_serving = refl
