-- ===== src/Objects/Enums/EventsEnum.antt =====
-- packages/rust/armonik/src/objects/events/events_enum.rs: `EventsEnum` and its conversions.
-- The mirror type that prost generates is read off Protos/V1/events_common.proto.
use armoni_k_api.Common.{ℤ, pos, negsuc, is_pos, ◌≡◌, ◌≢◌, refl, arith, if◌then◌else◌}
use armoni_k_api.Objects.Codes.{IsCoded, IsMirrored}

pub data EventsEnum : Type 0 where
  unspecified new_task task_status_update new_result result_status_update result_owner_update :
      EventsEnum

abbrev pub default : EventsEnum
default = EventsEnum.unspecified

-- `value as i32`.
unfoldable pub as_i32 : EventsEnum → ℤ
as_i32 EventsEnum.unspecified = pos 0
as_i32 EventsEnum.new_task = pos 1
as_i32 EventsEnum.task_status_update = pos 2
as_i32 EventsEnum.new_result = pos 3
as_i32 EventsEnum.result_status_update = pos 4
as_i32 EventsEnum.result_owner_update = pos 5

unfoldable pub from_i32 : ℤ → EventsEnum
from_i32 value =
    if is_pos value 0
    then EventsEnum.unspecified
    else if is_pos value 1
    then EventsEnum.new_task
    else if is_pos value 2
    then EventsEnum.task_status_update
    else if is_pos value 3
    then EventsEnum.new_result
    else if is_pos value 4
    then EventsEnum.result_status_update
    else if is_pos value 5
    then EventsEnum.result_owner_update
    else EventsEnum.unspecified

known : (a : EventsEnum) → from_i32 (as_i32 a) ≡ a
unfolding from_i32 as_i32
known EventsEnum.unspecified = refl
known _ = refl

unknown : (v : ℤ) → ((a : EventsEnum) → as_i32 a ≢ v) → from_i32 v ≡ EventsEnum.unspecified
unfolding from_i32 as_i32
unknown (negsuc k) h = refl
unknown (pos k) h = ground (
  arith,
  h EventsEnum.unspecified,
  h EventsEnum.new_task,
  h EventsEnum.task_status_update,
  h EventsEnum.new_result,
  h EventsEnum.result_status_update,
  h EventsEnum.result_owner_update,
)

-- A code that `as i32` gives is read back as its value, and any other code as the fallback value.
pub coded : IsCoded from_i32 as_i32 EventsEnum.unspecified
coded = record { known = known; unknown = unknown }

-- The generated `EventsEnum`, and its numbers in the protocol.
pub data V3EventsEnum : Type 0 where
  unspecified new_task task_status_update new_result result_status_update result_owner_update :
      V3EventsEnum

unfoldable pub v3_as_i32 : V3EventsEnum → ℤ
v3_as_i32 V3EventsEnum.unspecified = pos 0
v3_as_i32 V3EventsEnum.new_task = pos 1
v3_as_i32 V3EventsEnum.task_status_update = pos 2
v3_as_i32 V3EventsEnum.new_result = pos 3
v3_as_i32 V3EventsEnum.result_status_update = pos 4
v3_as_i32 V3EventsEnum.result_owner_update = pos 5

unfoldable pub into_v3 : EventsEnum → V3EventsEnum
into_v3 EventsEnum.unspecified = V3EventsEnum.unspecified
into_v3 EventsEnum.new_task = V3EventsEnum.new_task
into_v3 EventsEnum.task_status_update = V3EventsEnum.task_status_update
into_v3 EventsEnum.new_result = V3EventsEnum.new_result
into_v3 EventsEnum.result_status_update = V3EventsEnum.result_status_update
into_v3 EventsEnum.result_owner_update = V3EventsEnum.result_owner_update

unfoldable pub from_v3 : V3EventsEnum → EventsEnum
from_v3 V3EventsEnum.unspecified = EventsEnum.unspecified
from_v3 V3EventsEnum.new_task = EventsEnum.new_task
from_v3 V3EventsEnum.task_status_update = EventsEnum.task_status_update
from_v3 V3EventsEnum.new_result = EventsEnum.new_result
from_v3 V3EventsEnum.result_status_update = EventsEnum.result_status_update
from_v3 V3EventsEnum.result_owner_update = EventsEnum.result_owner_update

back : (a : EventsEnum) → from_v3 (into_v3 a) ≡ a
unfolding into_v3 from_v3 as_i32 v3_as_i32
back EventsEnum.unspecified = refl
back _ = refl

forth : (b : V3EventsEnum) → into_v3 (from_v3 b) ≡ b
unfolding into_v3 from_v3 as_i32 v3_as_i32
forth V3EventsEnum.unspecified = refl
forth _ = refl

numbers : (a : EventsEnum) → as_i32 a ≡ v3_as_i32 (into_v3 a)
unfolding into_v3 from_v3 as_i32 v3_as_i32
numbers EventsEnum.unspecified = refl
numbers _ = refl

-- The two types have the same values under the same numbers.
pub mirrored : IsMirrored into_v3 from_v3 as_i32 v3_as_i32
mirrored = record { back = back; forth = forth; numbers = numbers }
