-- ===== src/Objects/Results/CreateMetadata.antt =====
-- packages/rust/armonik/src/objects/results/create_metadata.rs: results that are created without data.
use armoni_k_api.Common.{String, ◌≡◌, refl, Bool, false, List, []}
use armoni_k_api.Objects.Convert.{into_collect, list-retract}
use armoni_k_api.Objects.Results.Raw.{Raw, V3Raw, raw_into, raw_from, raw_from-raw_into}

pub record MetadataItem : Type 0 where
  pub name : String
  pub manual_deletion : Bool

pub record V3MetadataItem : Type 0 where
  pub name : String
  pub manual_deletion : Bool

abbrev pub default_metadata_item : MetadataItem
default_metadata_item = record { name = ""; manual_deletion = false }

unfoldable pub metadata_item_into : MetadataItem → V3MetadataItem
metadata_item_into r = record { name = r.name; manual_deletion = r.manual_deletion }

unfoldable pub metadata_item_from : V3MetadataItem → MetadataItem
metadata_item_from w = record { name = w.name; manual_deletion = w.manual_deletion }

pub metadata_item_back : (r : MetadataItem) → metadata_item_from (metadata_item_into r) ≡ r
unfolding metadata_item_from metadata_item_into
metadata_item_back r = refl

pub record MetadataRequest : Type 0 where
  pub results : List MetadataItem
  pub session_id : String

pub record V3MetadataRequest : Type 0 where
  pub results : List V3MetadataItem
  pub session_id : String

abbrev pub default_metadata_request : MetadataRequest
default_metadata_request = record { results = []; session_id = "" }

unfoldable pub metadata_request_into : MetadataRequest → V3MetadataRequest
metadata_request_into r = record {
  results = into_collect metadata_item_into r.results;
  session_id = r.session_id;
}

unfoldable pub metadata_request_from : V3MetadataRequest → MetadataRequest
metadata_request_from w = record {
  results = into_collect metadata_item_from w.results;
  session_id = w.session_id;
}

pub metadata_request_back :
    (r : MetadataRequest) → metadata_request_from (metadata_request_into r) ≡ r
unfolding metadata_request_from metadata_request_into
metadata_request_back r = λ i. record {
  results = list-retract metadata_item_into metadata_item_from metadata_item_back r.results i;
  session_id = r.session_id;
}

pub record MetadataResponse : Type 0 where
  pub results : List Raw

pub record V3MetadataResponse : Type 0 where
  pub results : List V3Raw

abbrev pub default_metadata_response : MetadataResponse
default_metadata_response = record { results = [] }

unfoldable pub metadata_response_into : MetadataResponse → V3MetadataResponse
metadata_response_into r = record { results = into_collect raw_into r.results }

unfoldable pub metadata_response_from : V3MetadataResponse → MetadataResponse
metadata_response_from w = record { results = into_collect raw_from w.results }

pub metadata_response_back :
    (r : MetadataResponse) → metadata_response_from (metadata_response_into r) ≡ r
unfolding metadata_response_from metadata_response_into
metadata_response_back r =
    λ i. record { results = list-retract raw_into raw_from raw_from-raw_into r.results i }

-- The item of a name.
unfoldable pub named : String → MetadataItem
named name = record { name = name; manual_deletion = false }
