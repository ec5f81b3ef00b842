-- ===== src/Objects/Tasks/Requests.antt =====
-- packages/rust/armonik/src/objects/tasks/get.rs and count_status.rs.
use armoni_k_api.Common.{String, ◌≡◌, refl, Option, List, []}
use armoni_k_api.Objects.Convert.{to_option, from_option, into_collect, list-retract}
use armoni_k_api.Objects.StatusCount.{
  StatusCount, V3StatusCount, status_count_into, status_count_from, status_count_back,
}
use armoni_k_api.Objects.Tasks.Filter.{
  TaskFilter, V3TaskFilter, no_filters, filters_into, filters_from, filters_back,
}
use armoni_k_api.Objects.Tasks.Raw.{Raw, V3TaskDetailed, default_raw, raw_into, raw_from, raw_back}

pub record GetRequest : Type 0 where
  pub task_id : String

pub record V3GetRequest : Type 0 where
  pub task_id : String

abbrev pub default_get_request : GetRequest
default_get_request = record { task_id = "" }

unfoldable pub get_request_into : GetRequest → V3GetRequest
get_request_into r = record { task_id = r.task_id }

unfoldable pub get_request_from : V3GetRequest → GetRequest
get_request_from w = record { task_id = w.task_id }

pub get_request_back : (r : GetRequest) → get_request_from (get_request_into r) ≡ r
unfolding get_request_from get_request_into
get_request_back r = refl

pub record GetResponse : Type 0 where
  pub task : Raw

pub record V3GetResponse : Type 0 where
  pub task : Option V3TaskDetailed

abbrev pub default_get_response : GetResponse
default_get_response = record { task = default_raw }

unfoldable pub get_response_into : GetResponse → V3GetResponse
get_response_into r = record { task = to_option raw_into r.task }

unfoldable pub get_response_from : V3GetResponse → GetResponse
get_response_from w = record { task = from_option raw_from default_raw w.task }

pub get_response_back : (r : GetResponse) → get_response_from (get_response_into r) ≡ r
unfolding get_response_from get_response_into
get_response_back r = λ i. record { task = raw_back r.task i }

pub record CountRequest : Type 0 where
  pub filters : TaskFilter

pub record V3CountRequest : Type 0 where
  pub filters : Option V3TaskFilter

abbrev pub default_count_request : CountRequest
default_count_request = record { filters = no_filters }

unfoldable pub count_request_into : CountRequest → V3CountRequest
count_request_into r = record { filters = to_option filters_into r.filters }

unfoldable pub count_request_from : V3CountRequest → CountRequest
count_request_from w = record { filters = from_option filters_from no_filters w.filters }

pub count_request_back : (r : CountRequest) → count_request_from (count_request_into r) ≡ r
unfolding count_request_from count_request_into
count_request_back r = λ i. record { filters = filters_back r.filters i }

pub record CountResponse : Type 0 where
  pub status : List StatusCount

pub record V3CountResponse : Type 0 where
  pub status : List V3StatusCount

abbrev pub default_count_response : CountResponse
default_count_response = record { status = [] }

unfoldable pub count_response_into : CountResponse → V3CountResponse
count_response_into r = record { status = into_collect status_count_into r.status }

unfoldable pub count_response_from : V3CountResponse → CountResponse
count_response_from w = record { status = into_collect status_count_from w.status }

pub count_response_back : (r : CountResponse) → count_response_from (count_response_into r) ≡ r
unfolding count_response_from count_response_into
count_response_back r = λ i. record {
  status = list-retract status_count_into status_count_from status_count_back r.status i;
}
