-- ===== src/Objects/Agent/CreateMetadata.antt =====
-- packages/rust/armonik/src/objects/agent/create_results_metadata.rs: results that a worker creates
-- without data.
use armoni_k_api.Common.{String, ◌≡◌, refl, List, []}
use armoni_k_api.Objects.Convert.{into_collect, list-retract}
use armoni_k_api.Objects.Agent.Metadata.{
  ResultMetaData, V3ResultMetaData, result_meta_data_into, result_meta_data_from,
  result_meta_data_back,
}

pub record MetadataItem : Type 0 where
  pub name : String

pub record V3MetadataItem : Type 0 where
  pub name : String

abbrev pub default_metadata_item : MetadataItem
default_metadata_item = record { name = "" }

unfoldable pub metadata_item_into : MetadataItem → V3MetadataItem
metadata_item_into r = record { name = r.name }

unfoldable pub metadata_item_from : V3MetadataItem → MetadataItem
metadata_item_from w = record { name = w.name }

pub metadata_item_back : (r : MetadataItem) → metadata_item_from (metadata_item_into r) ≡ r
unfolding metadata_item_from metadata_item_into
metadata_item_back r = refl

pub record MetadataRequest : Type 0 where
  pub communication_token : String
  pub results : List MetadataItem
  pub session_id : String

pub record V3MetadataRequest : Type 0 where
  pub communication_token : String
  pub results : List V3MetadataItem
  pub session_id : String

abbrev pub default_metadata_request : MetadataRequest
default_metadata_request = record { communication_token = ""; results = []; session_id = "" }

unfoldable pub metadata_request_into : MetadataRequest → V3MetadataRequest
metadata_request_into r = record {
  communication_token = r.communication_token;
  results = into_collect metadata_item_into r.results;
  session_id = r.session_id;
}

unfoldable pub metadata_request_from : V3MetadataRequest → MetadataRequest
metadata_request_from w = record {
  communication_token = w.communication_token;
  results = into_collect metadata_item_from w.results;
  session_id = w.session_id;
}

pub metadata_request_back :
    (r : MetadataRequest) → metadata_request_from (metadata_request_into r) ≡ r
unfolding metadata_request_from metadata_request_into
metadata_request_back r = λ i. record {
  communication_token = r.communication_token;
  results = list-retract metadata_item_into metadata_item_from metadata_item_back r.results i;
  session_id = r.session_id;
}

pub record MetadataResponse : Type 0 where
  pub communication_token : String
  pub results : List ResultMetaData

pub record V3MetadataResponse : Type 0 where
  pub communication_token : String
  pub results : List V3ResultMetaData

abbrev pub default_metadata_response : MetadataResponse
default_metadata_response = record { communication_token = ""; results = [] }

unfoldable pub metadata_response_into : MetadataResponse → V3MetadataResponse
metadata_response_into r = record {
  communication_token = r.communication_token;
  results = into_collect result_meta_data_into r.results;
}

unfoldable pub metadata_response_from : V3MetadataResponse → MetadataResponse
metadata_response_from w = record {
  communication_token = w.communication_token;
  results = into_collect result_meta_data_from w.results;
}

pub metadata_response_back :
    (r : MetadataResponse) → metadata_response_from (metadata_response_into r) ≡ r
unfolding metadata_response_from metadata_response_into
metadata_response_back r = λ i. record {
  communication_token = r.communication_token;
  results =
      list-retract result_meta_data_into result_meta_data_from result_meta_data_back r.results i;
}

unfoldable pub named : String → MetadataItem
named name = record { name = name }
