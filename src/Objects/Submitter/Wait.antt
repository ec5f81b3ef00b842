-- ===== src/Objects/Submitter/Wait.antt =====
-- packages/rust/armonik/src/objects/submitter/wait_for_completion.rs and wait_for_availability.rs.
use armoni_k_api.Common.{String, ◌≡◌, refl, ap, Bool, false, Option, some, none}
use armoni_k_api.Objects.Convert.{to_option, from_option}
use armoni_k_api.Objects.Submitter.TryGetResult.{
  TaskError, V3TaskError, task_error_into, task_error_from, task_error_back,
}
use armoni_k_api.Objects.Submitter.TaskFilter.{
  TaskFilter, V3TaskFilter, default_ids, default_statuses, filter_into, filter_from, opposite,
}
use armoni_k_api.Objects.Submitter.TaskFilter.Inverted.{filter_from-filter_into}

abbrev default_filter : TaskFilter
default_filter = record { ids = default_ids; statuses = default_statuses }

pub record CompletionRequest : Type 0 where
  pub filter : TaskFilter
  pub stop_on_first_task_error : Bool
  pub stop_on_first_task_cancellation : Bool

pub record V3CompletionRequest : Type 0 where
  pub filter : Option V3TaskFilter
  pub stop_on_first_task_error : Bool
  pub stop_on_first_task_cancellation : Bool

abbrev pub default_completion_request : CompletionRequest
default_completion_request = record {
  filter = default_filter;
  stop_on_first_task_error = false;
  stop_on_first_task_cancellation = false;
}

unfoldable pub completion_request_into : CompletionRequest → V3CompletionRequest
completion_request_into r = record {
  filter = to_option filter_into r.filter;
  stop_on_first_task_error = r.stop_on_first_task_error;
  stop_on_first_task_cancellation = r.stop_on_first_task_cancellation;
}

unfoldable pub completion_request_from : V3CompletionRequest → CompletionRequest
completion_request_from w = record {
  filter = from_option filter_from default_filter w.filter;
  stop_on_first_task_error = w.stop_on_first_task_error;
  stop_on_first_task_cancellation = w.stop_on_first_task_cancellation;
}

-- The filter that the server reads has the opposite statuses.
abbrev pub completion_request_read : CompletionRequest → CompletionRequest
completion_request_read r = record r {
  filter = record r.filter { statuses = opposite r.filter.statuses };
}

pub completion_request_back :
    (r : CompletionRequest)
    → completion_request_from (completion_request_into r) ≡ completion_request_read r
unfolding completion_request_from completion_request_into
completion_request_back r = λ i. record {
  filter = filter_from-filter_into r.filter i;
  stop_on_first_task_error = r.stop_on_first_task_error;
  stop_on_first_task_cancellation = r.stop_on_first_task_cancellation;
}

pub record AvailabilityRequest : Type 0 where
  pub session_id : String
  pub result_id : String

pub record V3AvailabilityRequest : Type 0 where
  pub session : String
  pub result_id : String

abbrev pub default_availability_request : AvailabilityRequest
default_availability_request = record { session_id = ""; result_id = "" }

unfoldable pub availability_request_into : AvailabilityRequest → V3AvailabilityRequest
availability_request_into r = record { session = r.session_id; result_id = r.result_id }

unfoldable pub availability_request_from : V3AvailabilityRequest → AvailabilityRequest
availability_request_from w = record { session_id = w.session; result_id = w.result_id }

pub availability_request_back :
    (r : AvailabilityRequest) → availability_request_from (availability_request_into r) ≡ r
unfolding availability_request_from availability_request_into
availability_request_back r = refl

pub data Availability : Type 0 where
  available : Availability
  task_error : TaskError → Availability
  not_completed : String → Availability

abbrev pub default_availability : Availability
default_availability = not_completed ""

pub data V3AvailabilityType : Type 0 where
  v3_ok : V3AvailabilityType
  v3_error : V3TaskError → V3AvailabilityType
  not_completed_task : String → V3AvailabilityType

-- A message that is one of several holds an optional type.
abbrev pub V3Availability : Type 0
V3Availability = Option V3AvailabilityType

unfoldable pub availability_into : Availability → V3Availability
availability_into available = some v3_ok
availability_into (task_error e) = some (v3_error (task_error_into e))
availability_into (not_completed msg) = some (not_completed_task msg)

unfoldable pub availability_from : V3Availability → Availability
availability_from (some v3_ok) = available
availability_from (some (v3_error e)) = task_error (task_error_from e)
availability_from (some (not_completed_task msg)) = not_completed msg
availability_from none = default_availability

pub availability_back : (r : Availability) → availability_from (availability_into r) ≡ r
unfolding availability_from availability_into
availability_back available = refl
availability_back (task_error e) = ap task_error (task_error_back e)
availability_back (not_completed msg) = refl
