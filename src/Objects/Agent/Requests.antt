-- ===== src/Objects/Agent/Requests.antt =====
-- packages/rust/armonik/src/objects/agent: the requests of data, and the answer to a notification.
use armoni_k_api.Common.{String, ◌≡◌, refl, List, []}

-- `get_common_data::Request`, and the requests of the same shape of `get_direct_data` and
-- `get_resource_data`.
pub record DataRequest : Type 0 where
  pub communication_token : String
  pub result_id : String

pub record V3DataRequest : Type 0 where
  pub communication_token : String
  pub result_id : String

abbrev pub default_data_request : DataRequest
default_data_request = record { communication_token = ""; result_id = "" }

unfoldable pub data_request_into : DataRequest → V3DataRequest
data_request_into r = record {
  communication_token = r.communication_token;
  result_id = r.result_id;
}

unfoldable pub data_request_from : V3DataRequest → DataRequest
data_request_from w = record {
  communication_token = w.communication_token;
  result_id = w.result_id;
}

pub data_request_back : (r : DataRequest) → data_request_from (data_request_into r) ≡ r
unfolding data_request_from data_request_into
data_request_back r = refl

pub record DataResponse : Type 0 where
  pub result_id : String

pub record V3DataResponse : Type 0 where
  pub result_id : String

abbrev pub default_data_response : DataResponse
default_data_response = record { result_id = "" }

unfoldable pub data_response_into : DataResponse → V3DataResponse
data_response_into r = record { result_id = r.result_id }

unfoldable pub data_response_from : V3DataResponse → DataResponse
data_response_from w = record { result_id = w.result_id }

pub data_response_back : (r : DataResponse) → data_response_from (data_response_into r) ≡ r
unfolding data_response_from data_response_into
data_response_back r = refl

pub record NotifyResponse : Type 0 where
  pub result_ids : List String

pub record V3NotifyResponse : Type 0 where
  pub result_ids : List String

abbrev pub default_notify_response : NotifyResponse
default_notify_response = record { result_ids = [] }

unfoldable pub notify_response_into : NotifyResponse → V3NotifyResponse
notify_response_into r = record { result_ids = r.result_ids }

unfoldable pub notify_response_from : V3NotifyResponse → NotifyResponse
notify_response_from w = record { result_ids = w.result_ids }

pub notify_response_back : (r : NotifyResponse) → notify_response_from (notify_response_into r) ≡ r
unfolding notify_response_from notify_response_into
notify_response_back r = refl
