-- ===== src/Objects/TaskOptions.antt =====
-- packages/rust/armonik/src/objects/task_options.rs: `TaskOptions`. The map of generic options is
-- its list of entries, which the conversions pass on as it is.
pub mod Equality
use armoni_k_api.Common.{
  ℕ, ℤ, pos, negsuc, String, ◌≡◌, refl, Bool, true, false, ◌&&◌, Option, none, some, List, [],
  unwrap_or, ◌==◌, ◌=s=◌,
}

-- `prost_types::Duration`
pub record ProtoDuration : Type 0 where
  pub seconds : ℤ
  pub nanos : ℤ

abbrev pub infinite_duration : ProtoDuration
infinite_duration = record { seconds = pos 315576000000; nanos = pos 0 }

pub record TaskOptions : Type 0 where
  pub options : List (String × String)
  pub max_duration : ProtoDuration
  pub max_retries : ℤ
  pub priority : ℤ
  pub partition_id : String
  pub application_name : String
  pub application_version : String
  pub application_namespace : String
  pub application_service : String
  pub engine_type : String

pub record V3TaskOptions : Type 0 where
  pub options : List (String × String)
  pub max_duration : Option ProtoDuration
  pub max_retries : ℤ
  pub priority : ℤ
  pub partition_id : String
  pub application_name : String
  pub application_version : String
  pub application_namespace : String
  pub application_service : String
  pub engine_type : String

abbrev pub default_task_options : TaskOptions
default_task_options = record {
  options = [];
  max_duration = infinite_duration;
  max_retries = pos 1;
  priority = pos 1;
  partition_id = "";
  application_name = "";
  application_version = "";
  application_namespace = "";
  application_service = "";
  engine_type = "";
}

unfoldable pub options_into : TaskOptions → V3TaskOptions
options_into value = record {
  options = value.options;
  max_duration = some value.max_duration;
  max_retries = value.max_retries;
  priority = value.priority;
  partition_id = value.partition_id;
  application_name = value.application_name;
  application_version = value.application_version;
  application_namespace = value.application_namespace;
  application_service = value.application_service;
  engine_type = value.engine_type;
}

unfoldable pub options_from : V3TaskOptions → TaskOptions
options_from value = record {
  options = value.options;
  max_duration = unwrap_or infinite_duration value.max_duration;
  max_retries = value.max_retries;
  priority = value.priority;
  partition_id = value.partition_id;
  application_name = value.application_name;
  application_version = value.application_version;
  application_namespace = value.application_namespace;
  application_service = value.application_service;
  engine_type = value.engine_type;
}

pub options_from-options_into : (t : TaskOptions) → options_from (options_into t) ≡ t
unfolding options_from options_into
options_from-options_into t = refl

unfoldable pub int_eq : ℤ → ℤ → Bool
int_eq (pos a) (pos b) = a == b
int_eq (negsuc a) (negsuc b) = a == b
int_eq _ _ = false

-- `PartialEq::eq`, which compares every field but `options`.
unfoldable pub options_eq : TaskOptions → TaskOptions → Bool
options_eq a b =
    int_eq a.max_duration.seconds b.max_duration.seconds
    && int_eq a.max_duration.nanos b.max_duration.nanos
    && int_eq a.max_retries b.max_retries
    && int_eq a.priority b.priority
    && a.partition_id =s= b.partition_id
    && a.application_name =s= b.application_name
    && a.application_version =s= b.application_version
    && a.application_namespace =s= b.application_namespace
    && a.application_service =s= b.application_service
    && a.engine_type =s= b.engine_type
