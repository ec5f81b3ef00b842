-- ===== src/Objects/Results/Create.antt =====
-- packages/rust/armonik/src/objects/results/create.rs: results that are created with their data.
use armoni_k_api.Common.{String, ◌≡◌, refl, Bool, false, List, []}
use armoni_k_api.Objects.Convert.{into_collect, list-retract}
use armoni_k_api.Objects.DataChunk.{Bytes}
use armoni_k_api.Objects.Results.Raw.{Raw, V3Raw, raw_into, raw_from, raw_from-raw_into}

pub record CreateItem : Type 0 where
  pub name : String
  pub «data» : Bytes
  pub manual_deletion : Bool

pub record V3CreateItem : Type 0 where
  pub name : String
  pub «data» : Bytes
  pub manual_deletion : Bool

abbrev pub default_create_item : CreateItem
default_create_item = record { name = ""; «data» = []; manual_deletion = false }

unfoldable pub create_item_into : CreateItem → V3CreateItem
create_item_into r = record {
  name = r.name;
  «data» = r.«data»;
  manual_deletion = r.manual_deletion;
}

unfoldable pub create_item_from : V3CreateItem → CreateItem
create_item_from w = record {
  name = w.name;
  «data» = w.«data»;
  manual_deletion = w.manual_deletion;
}

pub create_item_back : (r : CreateItem) → create_item_from (create_item_into r) ≡ r
unfolding create_item_from create_item_into
create_item_back r = refl

pub record CreateRequest : Type 0 where
  pub results : List CreateItem
  pub session_id : String

pub record V3CreateRequest : Type 0 where
  pub results : List V3CreateItem
  pub session_id : String

abbrev pub default_create_request : CreateRequest
default_create_request = record { results = []; session_id = "" }

unfoldable pub create_request_into : CreateRequest → V3CreateRequest
create_request_into r = record {
  results = into_collect create_item_into r.results;
  session_id = r.session_id;
}

unfoldable pub create_request_from : V3CreateRequest → CreateRequest
create_request_from w = record {
  results = into_collect create_item_from w.results;
  session_id = w.session_id;
}

pub create_request_back : (r : CreateRequest) → create_request_from (create_request_into r) ≡ r
unfolding create_request_from create_request_into
create_request_back r = λ i. record {
  results = list-retract create_item_into create_item_from create_item_back r.results i;
  session_id = r.session_id;
}

pub record CreateResponse : Type 0 where
  pub results : List Raw

pub record V3CreateResponse : Type 0 where
  pub results : List V3Raw

abbrev pub default_create_response : CreateResponse
default_create_response = record { results = [] }

unfoldable pub create_response_into : CreateResponse → V3CreateResponse
create_response_into r = record { results = into_collect raw_into r.results }

unfoldable pub create_response_from : V3CreateResponse → CreateResponse
create_response_from w = record { results = into_collect raw_from w.results }

pub create_response_back : (r : CreateResponse) → create_response_from (create_response_into r) ≡ r
unfolding create_response_from create_response_into
create_response_back r =
    λ i. record { results = list-retract raw_into raw_from raw_from-raw_into r.results i }

-- The item of a name with its data, which the deployment deletes by itself.
unfoldable pub item_of : String × Bytes → CreateItem
item_of (name, content) = record { name = name; «data» = content; manual_deletion = false }
