-- ===== src/Objects/Enums/SummaryField.antt =====
-- packages/rust/armonik/src/objects/tasks/field.rs: `SummaryField` and its conversions.
use armoni_k_api.Common.{ℤ, pos, negsuc, is_pos, ◌≡◌, ◌≢◌, refl, arith, if◌then◌else◌}
use armoni_k_api.Objects.Codes.{IsCoded}

pub data SummaryField : Type 0 where
  unspecified task_id session_id owner_pod_id initial_task_id status created_at submitted_at
        started_at ended_at creation_to_end_duration processing_to_end_duration
        received_to_end_duration pod_ttl pod_hostname received_at acquired_at processed_at
        fetched_at error payload_id created_by :
      SummaryField

abbrev pub default : SummaryField
default = SummaryField.task_id

-- `value as i32`.
unfoldable pub as_i32 : SummaryField → ℤ
as_i32 SummaryField.unspecified = pos 0
as_i32 SummaryField.task_id = pos 16
as_i32 SummaryField.session_id = pos 1
as_i32 SummaryField.owner_pod_id = pos 9
as_i32 SummaryField.initial_task_id = pos 10
as_i32 SummaryField.status = pos 2
as_i32 SummaryField.created_at = pos 3
as_i32 SummaryField.submitted_at = pos 11
as_i32 SummaryField.started_at = pos 4
as_i32 SummaryField.ended_at = pos 5
as_i32 SummaryField.creation_to_end_duration = pos 6
as_i32 SummaryField.processing_to_end_duration = pos 7
as_i32 SummaryField.received_to_end_duration = pos 18
as_i32 SummaryField.pod_ttl = pos 12
as_i32 SummaryField.pod_hostname = pos 13
as_i32 SummaryField.received_at = pos 14
as_i32 SummaryField.acquired_at = pos 15
as_i32 SummaryField.processed_at = pos 17
as_i32 SummaryField.fetched_at = pos 19
as_i32 SummaryField.error = pos 8
as_i32 SummaryField.payload_id = pos 20
as_i32 SummaryField.created_by = pos 21

unfoldable pub from_i32 : ℤ → SummaryField
from_i32 value =
    if is_pos value 0
    then SummaryField.unspecified
    else if is_pos value 16
    then SummaryField.task_id
    else if is_pos value 1
    then SummaryField.session_id
    else if is_pos value 9
    then SummaryField.owner_pod_id
    else if is_pos value 10
    then SummaryField.initial_task_id
    else if is_pos value 2
    then SummaryField.status
    else if is_pos value 3
    then SummaryField.created_at
    else if is_pos value 11
    then SummaryField.submitted_at
    else if is_pos value 4
    then SummaryField.started_at
    else if is_pos value 5
    then SummaryField.ended_at
    else if is_pos value 6
    then SummaryField.creation_to_end_duration
    else if is_pos value 7
    then SummaryField.processing_to_end_duration
    else if is_pos value 18
    then SummaryField.received_to_end_duration
    else if is_pos value 12
    then SummaryField.pod_ttl
    else if is_pos value 13
    then SummaryField.pod_hostname
    else if is_pos value 14
    then SummaryField.received_at
    else if is_pos value 15
    then SummaryField.acquired_at
    else if is_pos value 17
    then SummaryField.processed_at
    else if is_pos value 19
    then SummaryField.fetched_at
    else if is_pos value 8
    then SummaryField.error
    else if is_pos value 20
    then SummaryField.payload_id
    else if is_pos value 21
    then SummaryField.created_by
    else SummaryField.unspecified

known : (a : SummaryField) → from_i32 (as_i32 a) ≡ a
unfolding from_i32 as_i32
known SummaryField.unspecified = refl
known _ = refl

unknown : (v : ℤ) → ((a : SummaryField) → as_i32 a ≢ v) → from_i32 v ≡ SummaryField.unspecified
unfolding from_i32 as_i32
unknown (negsuc k) h = refl
unknown (pos k) h = ground (
  arith,
  h SummaryField.unspecified,
  h SummaryField.task_id,
  h SummaryField.session_id,
  h SummaryField.owner_pod_id,
  h SummaryField.initial_task_id,
  h SummaryField.status,
  h SummaryField.created_at,
  h SummaryField.submitted_at,
  h SummaryField.started_at,
  h SummaryField.ended_at,
  h SummaryField.creation_to_end_duration,
  h SummaryField.processing_to_end_duration,
  h SummaryField.received_to_end_duration,
  h SummaryField.pod_ttl,
  h SummaryField.pod_hostname,
  h SummaryField.received_at,
  h SummaryField.acquired_at,
  h SummaryField.processed_at,
  h SummaryField.fetched_at,
  h SummaryField.error,
  h SummaryField.payload_id,
  h SummaryField.created_by,
)

-- A code that `as i32` gives is read back as its value, and any other code as the fallback value.
pub coded : IsCoded from_i32 as_i32 SummaryField.unspecified
coded = record { known = known; unknown = unknown }
