-- ===== src/Objects/Results/Raw.antt =====
-- packages/rust/armonik/src/objects/results/raw.rs: the metadata of a result.
use armoni_k_api.Common.{ℤ, pos, String, ◌≡◌, Bool, false, Option, none, [], map_or}
use armoni_k_api.Objects.DataChunk.{Bytes}
use armoni_k_api.Objects.Enums.ResultStatus.{ResultStatus, as_i32, from_i32, coded}
use armoni_k_api.Objects.Tasks.Summary.{Timestamp}

pub record Raw : Type 0 where
  pub session_id : String
  pub name : String
  pub owner_task_id : String
  pub status : ResultStatus
  pub created_at : Option Timestamp
  pub completed_at : Option Timestamp
  pub result_id : String
  pub size : ℤ
  pub created_by : String
  pub opaque_id : Bytes
  pub manual_deletion : Bool

-- `v3::results::ResultRaw`, whose status is a number.
pub record V3Raw : Type 0 where
  pub session_id : String
  pub name : String
  pub owner_task_id : String
  pub status : ℤ
  pub created_at : Option Timestamp
  pub completed_at : Option Timestamp
  pub result_id : String
  pub size : ℤ
  pub created_by : String
  pub opaque_id : Bytes
  pub manual_deletion : Bool

abbrev pub default_raw : Raw
default_raw = record {
  session_id = "";
  name = "";
  owner_task_id = "";
  status = ResultStatus.unspecified;
  created_at = none;
  completed_at = none;
  result_id = "";
  size = pos 0;
  created_by = "";
  opaque_id = [];
  manual_deletion = false;
}

unfoldable pub raw_into : Raw → V3Raw
raw_into r = record {
  session_id = r.session_id;
  name = r.name;
  owner_task_id = r.owner_task_id;
  status = as_i32 r.status;
  created_at = r.created_at;
  completed_at = r.completed_at;
  result_id = r.result_id;
  size = r.size;
  created_by = r.created_by;
  opaque_id = r.opaque_id;
  manual_deletion = r.manual_deletion;
}

unfoldable pub raw_from : V3Raw → Raw
raw_from w = record {
  session_id = w.session_id;
  name = w.name;
  owner_task_id = w.owner_task_id;
  status = from_i32 w.status;
  created_at = w.created_at;
  completed_at = w.completed_at;
  result_id = w.result_id;
  size = w.size;
  created_by = w.created_by;
  opaque_id = w.opaque_id;
  manual_deletion = w.manual_deletion;
}

pub raw_from-raw_into : (r : Raw) → raw_from (raw_into r) ≡ r
unfolding raw_from raw_into
raw_from-raw_into r = λ i. record {
  session_id = r.session_id;
  name = r.name;
  owner_task_id = r.owner_task_id;
  status = coded.known r.status i;
  created_at = r.created_at;
  completed_at = r.completed_at;
  result_id = r.result_id;
  size = r.size;
  created_by = r.created_by;
  opaque_id = r.opaque_id;
  manual_deletion = r.manual_deletion;
}

-- `option result` of the answers that hold one: an absent result is read as the default one.
abbrev pub raw_of : Option V3Raw → Raw
raw_of = map_or default_raw raw_from
