-- ===== src/Objects/Agent/Metadata.antt =====
-- packages/rust/armonik/src/objects/agent/result_metadata.rs: the metadata of a result, for a worker.
use armoni_k_api.Common.{ℤ, String, ◌≡◌, Option, none}
use armoni_k_api.Objects.Enums.ResultStatus as StatusCodes
use armoni_k_api.Objects.Tasks.Summary.{Timestamp}

pub record ResultMetaData : Type 0 where
  pub session_id : String
  pub result_id : String
  pub name : String
  pub status : StatusCodes.ResultStatus
  pub created_at : Option Timestamp

pub record V3ResultMetaData : Type 0 where
  pub session_id : String
  pub result_id : String
  pub name : String
  pub status : ℤ
  pub created_at : Option Timestamp

abbrev pub default_result_meta_data : ResultMetaData
default_result_meta_data = record {
  session_id = "";
  result_id = "";
  name = "";
  status = StatusCodes.default;
  created_at = none;
}

unfoldable pub result_meta_data_into : ResultMetaData → V3ResultMetaData
result_meta_data_into r = record {
  session_id = r.session_id;
  result_id = r.result_id;
  name = r.name;
  status = StatusCodes.as_i32 r.status;
  created_at = r.created_at;
}

unfoldable pub result_meta_data_from : V3ResultMetaData → ResultMetaData
result_meta_data_from w = record {
  session_id = w.session_id;
  result_id = w.result_id;
  name = w.name;
  status = StatusCodes.from_i32 w.status;
  created_at = w.created_at;
}

pub result_meta_data_back :
    (r : ResultMetaData) → result_meta_data_from (result_meta_data_into r) ≡ r
unfolding result_meta_data_from result_meta_data_into
result_meta_data_back r = λ i. record {
  session_id = r.session_id;
  result_id = r.result_id;
  name = r.name;
  status = StatusCodes.coded.known r.status i;
  created_at = r.created_at;
}
