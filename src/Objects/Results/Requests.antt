-- ===== src/Objects/Results/Requests.antt =====
-- packages/rust/armonik/src/objects/results/get.rs, delete_data.rs and get_service_configuration.rs.
use armoni_k_api.Common.{ℤ, pos, String, ◌≡◌, refl, Option, List, []}
use armoni_k_api.Objects.Convert.{to_option, from_option}
use armoni_k_api.Objects.Results.Raw.{
  Raw, V3Raw, default_raw, raw_into, raw_from, raw_from-raw_into,
}

pub record GetRequest : Type 0 where
  pub id : String

pub record V3GetRequest : Type 0 where
  pub result_id : String

abbrev pub default_get_request : GetRequest
default_get_request = record { id = "" }

unfoldable pub get_request_into : GetRequest → V3GetRequest
get_request_into r = record { result_id = r.id }

unfoldable pub get_request_from : V3GetRequest → GetRequest
get_request_from w = record { id = w.result_id }

pub get_request_back : (r : GetRequest) → get_request_from (get_request_into r) ≡ r
unfolding get_request_from get_request_into
get_request_back r = refl

pub record GetResponse : Type 0 where
  pub result : Raw

pub record V3GetResponse : Type 0 where
  pub result : Option V3Raw

abbrev pub default_get_response : GetResponse
default_get_response = record { result = default_raw }

unfoldable pub get_response_into : GetResponse → V3GetResponse
get_response_into r = record { result = to_option raw_into r.result }

unfoldable pub get_response_from : V3GetResponse → GetResponse
get_response_from w = record { result = from_option raw_from default_raw w.result }

pub get_response_back : (r : GetResponse) → get_response_from (get_response_into r) ≡ r
unfolding get_response_from get_response_into
get_response_back r = λ i. record { result = raw_from-raw_into r.result i }

pub record DeleteRequest : Type 0 where
  pub session_id : String
  pub result_ids : List String

pub record V3DeleteRequest : Type 0 where
  pub session_id : String
  pub result_id : List String

abbrev pub default_delete_request : DeleteRequest
default_delete_request = record { session_id = ""; result_ids = [] }

unfoldable pub delete_request_into : DeleteRequest → V3DeleteRequest
delete_request_into r = record { session_id = r.session_id; result_id = r.result_ids }

unfoldable pub delete_request_from : V3DeleteRequest → DeleteRequest
delete_request_from w = record { session_id = w.session_id; result_ids = w.result_id }

pub delete_request_back : (r : DeleteRequest) → delete_request_from (delete_request_into r) ≡ r
unfolding delete_request_from delete_request_into
delete_request_back r = refl

pub record DeleteResponse : Type 0 where
  pub session_id : String
  pub result_ids : List String

pub record V3DeleteResponse : Type 0 where
  pub session_id : String
  pub result_id : List String

abbrev pub default_delete_response : DeleteResponse
default_delete_response = record { session_id = ""; result_ids = [] }

unfoldable pub delete_response_into : DeleteResponse → V3DeleteResponse
delete_response_into r = record { session_id = r.session_id; result_id = r.result_ids }

unfoldable pub delete_response_from : V3DeleteResponse → DeleteResponse
delete_response_from w = record { session_id = w.session_id; result_ids = w.result_id }

pub delete_response_back : (r : DeleteResponse) → delete_response_from (delete_response_into r) ≡ r
unfolding delete_response_from delete_response_into
delete_response_back r = refl

-- The request of the configuration is the empty message.
pub record Configuration : Type 0 where
  pub data_chunk_max_size : ℤ

pub record V3Configuration : Type 0 where
  pub data_chunk_max_size : ℤ

abbrev pub default_configuration : Configuration
default_configuration = record { data_chunk_max_size = pos 65536 }

unfoldable pub configuration_into : Configuration → V3Configuration
configuration_into r = record { data_chunk_max_size = r.data_chunk_max_size }

unfoldable pub configuration_from : V3Configuration → Configuration
configuration_from w = record { data_chunk_max_size = w.data_chunk_max_size }

pub configuration_back : (r : Configuration) → configuration_from (configuration_into r) ≡ r
unfolding configuration_from configuration_into
configuration_back r = refl
