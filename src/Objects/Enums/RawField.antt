-- ===== src/Objects/Enums/RawField.antt =====
-- packages/rust/armonik/src/objects/sessions/field.rs: `RawField` and its conversions.
use armoni_k_api.Common.{ℤ, pos, negsuc, is_pos, ◌≡◌, ◌≢◌, refl, arith, if◌then◌else◌}
use armoni_k_api.Objects.Codes.{IsCoded}

pub data RawField : Type 0 where
  unspecified session_id status client_submission worker_submission partition_ids options created_at
        cancelled_at closed_at purged_at deleted_at duration :
      RawField

abbrev pub default : RawField
default = RawField.session_id

-- `value as i32`.
unfoldable pub as_i32 : RawField → ℤ
as_i32 RawField.unspecified = pos 0
as_i32 RawField.session_id = pos 1
as_i32 RawField.status = pos 2
as_i32 RawField.client_submission = pos 8
as_i32 RawField.worker_submission = pos 9
as_i32 RawField.partition_ids = pos 3
as_i32 RawField.options = pos 4
as_i32 RawField.created_at = pos 5
as_i32 RawField.cancelled_at = pos 6
as_i32 RawField.closed_at = pos 12
as_i32 RawField.purged_at = pos 10
as_i32 RawField.deleted_at = pos 11
as_i32 RawField.duration = pos 7

unfoldable pub from_i32 : ℤ → RawField
from_i32 value =
    if is_pos value 0
    then RawField.unspecified
    else if is_pos value 1
    then RawField.session_id
    else if is_pos value 2
    then RawField.status
    else if is_pos value 8
    then RawField.client_submission
    else if is_pos value 9
    then RawField.worker_submission
    else if is_pos value 3
    then RawField.partition_ids
    else if is_pos value 4
    then RawField.options
    else if is_pos value 5
    then RawField.created_at
    else if is_pos value 6
    then RawField.cancelled_at
    else if is_pos value 12
    then RawField.closed_at
    else if is_pos value 10
    then RawField.purged_at
    else if is_pos value 11
    then RawField.deleted_at
    else if is_pos value 7
    then RawField.duration
    else RawField.unspecified

known : (a : RawField) → from_i32 (as_i32 a) ≡ a
unfolding from_i32 as_i32
known RawField.unspecified = refl
known _ = refl

unknown : (v : ℤ) → ((a : RawField) → as_i32 a ≢ v) → from_i32 v ≡ RawField.unspecified
unfolding from_i32 as_i32
unknown (negsuc k) h = refl
unknown (pos k) h = ground (
  arith,
  h RawField.unspecified,
  h RawField.session_id,
  h RawField.status,
  h RawField.client_submission,
  h RawField.worker_submission,
  h RawField.partition_ids,
  h RawField.options,
  h RawField.created_at,
  h RawField.cancelled_at,
  h RawField.closed_at,
  h RawField.purged_at,
  h RawField.deleted_at,
  h RawField.duration,
)

-- A code that `as i32` gives is read back as its value, and any other code as the fallback value.
pub coded : IsCoded from_i32 as_i32 RawField.unspecified
coded = record { known = known; unknown = unknown }
