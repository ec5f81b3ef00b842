-- ===== src/Objects/Tasks/Submit.antt =====
-- packages/rust/armonik/src/objects/tasks/submit.rs: the tasks that are submitted.
use armoni_k_api.Common.{String, ◌≡◌, refl, Option, none, List, []}
use armoni_k_api.Objects.Convert.{option_to_option, into_collect, option-retract, list-retract}
use armoni_k_api.Objects.TaskOptions.{
  TaskOptions, V3TaskOptions, options_into, options_from, options_from-options_into,
}

pub record RequestItem : Type 0 where
  pub expected_output_keys : List String
  pub data_dependencies : List String
  pub payload_id : String
  pub task_options : Option TaskOptions

pub record V3TaskCreation : Type 0 where
  pub expected_output_keys : List String
  pub data_dependencies : List String
  pub payload_id : String
  pub task_options : Option V3TaskOptions

abbrev pub default_item : RequestItem
default_item = record {
  expected_output_keys = [];
  data_dependencies = [];
  payload_id = "";
  task_options = none;
}

unfoldable pub item_into : RequestItem → V3TaskCreation
item_into r = record {
  expected_output_keys = r.expected_output_keys;
  data_dependencies = r.data_dependencies;
  payload_id = r.payload_id;
  task_options = option_to_option options_into r.task_options;
}

unfoldable pub item_from : V3TaskCreation → RequestItem
item_from w = record {
  expected_output_keys = w.expected_output_keys;
  data_dependencies = w.data_dependencies;
  payload_id = w.payload_id;
  task_options = option_to_option options_from w.task_options;
}

pub item_back : (r : RequestItem) → item_from (item_into r) ≡ r
unfolding item_from item_into
item_back r = λ i. record {
  expected_output_keys = r.expected_output_keys;
  data_dependencies = r.data_dependencies;
  payload_id = r.payload_id;
  task_options =
      option-retract options_into options_from options_from-options_into r.task_options i;
}

pub record SubmitRequest : Type 0 where
  pub session_id : String
  pub task_options : Option TaskOptions
  pub items : List RequestItem

pub record V3SubmitRequest : Type 0 where
  pub session_id : String
  pub task_options : Option V3TaskOptions
  pub task_creations : List V3TaskCreation

abbrev pub default_submit_request : SubmitRequest
default_submit_request = record { session_id = ""; task_options = none; items = [] }

unfoldable pub submit_request_into : SubmitRequest → V3SubmitRequest
submit_request_into r = record {
  session_id = r.session_id;
  task_options = option_to_option options_into r.task_options;
  task_creations = into_collect item_into r.items;
}

unfoldable pub submit_request_from : V3SubmitRequest → SubmitRequest
submit_request_from w = record {
  session_id = w.session_id;
  task_options = option_to_option options_from w.task_options;
  items = into_collect item_from w.task_creations;
}

pub submit_request_back : (r : SubmitRequest) → submit_request_from (submit_request_into r) ≡ r
unfolding submit_request_from submit_request_into
submit_request_back r = λ i. record {
  session_id = r.session_id;
  task_options =
      option-retract options_into options_from options_from-options_into r.task_options i;
  items = list-retract item_into item_from item_back r.items i;
}

pub record ResponseItem : Type 0 where
  pub task_id : String
  pub expected_output_ids : List String
  pub data_dependencies : List String
  pub payload_id : String

pub record V3TaskInfo : Type 0 where
  pub task_id : String
  pub expected_output_ids : List String
  pub data_dependencies : List String
  pub payload_id : String

abbrev pub default_info : ResponseItem
default_info = record {
  task_id = "";
  expected_output_ids = [];
  data_dependencies = [];
  payload_id = "";
}

unfoldable pub info_into : ResponseItem → V3TaskInfo
info_into r = record {
  task_id = r.task_id;
  expected_output_ids = r.expected_output_ids;
  data_dependencies = r.data_dependencies;
  payload_id = r.payload_id;
}

unfoldable pub info_from : V3TaskInfo → ResponseItem
info_from w = record {
  task_id = w.task_id;
  expected_output_ids = w.expected_output_ids;
  data_dependencies = w.data_dependencies;
  payload_id = w.payload_id;
}

pub info_back : (r : ResponseItem) → info_from (info_into r) ≡ r
unfolding info_from info_into
info_back r = refl

pub record SubmitResponse : Type 0 where
  pub items : List ResponseItem

pub record V3SubmitResponse : Type 0 where
  pub task_infos : List V3TaskInfo

abbrev pub default_submit_response : SubmitResponse
default_submit_response = record { items = [] }

unfoldable pub submit_response_into : SubmitResponse → V3SubmitResponse
submit_response_into r = record { task_infos = into_collect info_into r.items }

unfoldable pub submit_response_from : V3SubmitResponse → SubmitResponse
submit_response_from w = record { items = into_collect info_from w.task_infos }

pub submit_response_back : (r : SubmitResponse) → submit_response_from (submit_response_into r) ≡ r
unfolding submit_response_from submit_response_into
submit_response_back r =
    λ i. record { items = list-retract info_into info_from info_back r.items i }
