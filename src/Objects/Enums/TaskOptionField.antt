-- ===== src/Objects/Enums/TaskOptionField.antt =====
-- packages/rust/armonik/src/objects/task_options.rs: `TaskOptionField` and its conversions.
use armoni_k_api.Common.{ℤ, pos, negsuc, is_pos, ◌≡◌, ◌≢◌, refl, arith, if◌then◌else◌}
use armoni_k_api.Objects.Codes.{IsCoded}

pub data TaskOptionField : Type 0 where
  unspecified max_duration max_retries priority partition_id application_name application_version
        application_namespace application_service application_engine :
      TaskOptionField

abbrev pub default : TaskOptionField
default = TaskOptionField.unspecified

-- `value as i32`.
unfoldable pub as_i32 : TaskOptionField → ℤ
as_i32 TaskOptionField.unspecified = pos 0
as_i32 TaskOptionField.max_duration = pos 1
as_i32 TaskOptionField.max_retries = pos 2
as_i32 TaskOptionField.priority = pos 3
as_i32 TaskOptionField.partition_id = pos 4
as_i32 TaskOptionField.application_name = pos 5
as_i32 TaskOptionField.application_version = pos 6
as_i32 TaskOptionField.application_namespace = pos 7
as_i32 TaskOptionField.application_service = pos 8
as_i32 TaskOptionField.application_engine = pos 9

unfoldable pub from_i32 : ℤ → TaskOptionField
from_i32 value =
    if is_pos value 0
    then TaskOptionField.unspecified
    else if is_pos value 1
    then TaskOptionField.max_duration
    else if is_pos value 2
    then TaskOptionField.max_retries
    else if is_pos value 3
    then TaskOptionField.priority
    else if is_pos value 4
    then TaskOptionField.partition_id
    else if is_pos value 5
    then TaskOptionField.application_name
    else if is_pos value 6
    then TaskOptionField.application_version
    else if is_pos value 7
    then TaskOptionField.application_namespace
    else if is_pos value 8
    then TaskOptionField.application_service
    else if is_pos value 9
    then TaskOptionField.application_engine
    else TaskOptionField.unspecified

known : (a : TaskOptionField) → from_i32 (as_i32 a) ≡ a
unfolding from_i32 as_i32
known TaskOptionField.unspecified = refl
known _ = refl

unknown :
    (v : ℤ) → ((a : TaskOptionField) → as_i32 a ≢ v) → from_i32 v ≡ TaskOptionField.unspecified
unfolding from_i32 as_i32
unknown (negsuc k) h = refl
unknown (pos k) h = ground (
  arith,
  h TaskOptionField.unspecified,
  h TaskOptionField.max_duration,
  h TaskOptionField.max_retries,
  h TaskOptionField.priority,
  h TaskOptionField.partition_id,
  h TaskOptionField.application_name,
  h TaskOptionField.application_version,
  h TaskOptionField.application_namespace,
  h TaskOptionField.application_service,
  h TaskOptionField.application_engine,
)

-- A code that `as i32` gives is read back as its value, and any other code as the fallback value.
pub coded : IsCoded from_i32 as_i32 TaskOptionField.unspecified
coded = record { known = known; unknown = unknown }
