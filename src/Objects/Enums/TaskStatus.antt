-- ===== src/Objects/Enums/TaskStatus.antt =====
-- packages/rust/armonik/src/objects/task_status.rs: `TaskStatus` and its conversions.
-- The mirror type that prost generates is read off Protos/V1/task_status.proto.
use armoni_k_api.Common.{ℤ, pos, negsuc, is_pos, ◌≡◌, ◌≢◌, refl, arith, if◌then◌else◌}
use armoni_k_api.Objects.Codes.{IsCoded, IsMirrored}

pub data TaskStatus : Type 0 where
  unspecified creating submitted dispatched completed error timeout cancelling cancelled processing
        processed retried pending paused :
      TaskStatus

abbrev pub default : TaskStatus
default = TaskStatus.unspecified

-- `value as i32`.
unfoldable pub as_i32 : TaskStatus → ℤ
as_i32 TaskStatus.unspecified = pos 0
as_i32 TaskStatus.creating = pos 1
as_i32 TaskStatus.submitted = pos 2
as_i32 TaskStatus.dispatched = pos 3
as_i32 TaskStatus.completed = pos 4
as_i32 TaskStatus.error = pos 5
as_i32 TaskStatus.timeout = pos 6
as_i32 TaskStatus.cancelling = pos 7
as_i32 TaskStatus.cancelled = pos 8
as_i32 TaskStatus.processing = pos 9
as_i32 TaskStatus.processed = pos 10
as_i32 TaskStatus.retried = pos 11
as_i32 TaskStatus.pending = pos 12
as_i32 TaskStatus.paused = pos 13

unfoldable pub from_i32 : ℤ → TaskStatus
from_i32 value =
    if is_pos value 0
    then TaskStatus.unspecified
    else if is_pos value 1
    then TaskStatus.creating
    else if is_pos value 2
    then TaskStatus.submitted
    else if is_pos value 3
    then TaskStatus.dispatched
    else if is_pos value 4
    then TaskStatus.completed
    else if is_pos value 5
    then TaskStatus.error
    else if is_pos value 6
    then TaskStatus.timeout
    else if is_pos value 7
    then TaskStatus.cancelling
    else if is_pos value 8
    then TaskStatus.cancelled
    else if is_pos value 9
    then TaskStatus.processing
    else if is_pos value 10
    then TaskStatus.processed
    else if is_pos value 11
    then TaskStatus.retried
    else if is_pos value 12
    then TaskStatus.pending
    else if is_pos value 13
    then TaskStatus.paused
    else TaskStatus.unspecified

known : (a : TaskStatus) → from_i32 (as_i32 a) ≡ a
unfolding from_i32 as_i32
known TaskStatus.unspecified = refl
known _ = refl

unknown : (v : ℤ) → ((a : TaskStatus) → as_i32 a ≢ v) → from_i32 v ≡ TaskStatus.unspecified
unfolding from_i32 as_i32
unknown (negsuc k) h = refl
unknown (pos k) h = ground (
  arith,
  h TaskStatus.unspecified,
  h TaskStatus.creating,
  h TaskStatus.submitted,
  h TaskStatus.dispatched,
  h TaskStatus.completed,
  h TaskStatus.error,
  h TaskStatus.timeout,
  h TaskStatus.cancelling,
  h TaskStatus.cancelled,
  h TaskStatus.processing,
  h TaskStatus.processed,
  h TaskStatus.retried,
  h TaskStatus.pending,
  h TaskStatus.paused,
)

-- A code that `as i32` gives is read back as its value, and any other code as the fallback value.
pub coded : IsCoded from_i32 as_i32 TaskStatus.unspecified
coded = record { known = known; unknown = unknown }

-- The generated `TaskStatus`, and its numbers in the protocol.
pub data V3TaskStatus : Type 0 where
  unspecified creating submitted dispatched completed error timeout cancelling cancelled processing
        processed retried pending paused :
      V3TaskStatus

unfoldable pub v3_as_i32 : V3TaskStatus → ℤ
v3_as_i32 V3TaskStatus.unspecified = pos 0
v3_as_i32 V3TaskStatus.creating = pos 1
v3_as_i32 V3TaskStatus.submitted = pos 2
v3_as_i32 V3TaskStatus.dispatched = pos 3
v3_as_i32 V3TaskStatus.completed = pos 4
v3_as_i32 V3TaskStatus.error = pos 5
v3_as_i32 V3TaskStatus.timeout = pos 6
v3_as_i32 V3TaskStatus.cancelling = pos 7
v3_as_i32 V3TaskStatus.cancelled = pos 8
v3_as_i32 V3TaskStatus.processing = pos 9
v3_as_i32 V3TaskStatus.processed = pos 10
v3_as_i32 V3TaskStatus.retried = pos 11
v3_as_i32 V3TaskStatus.pending = pos 12
v3_as_i32 V3TaskStatus.paused = pos 13

unfoldable pub into_v3 : TaskStatus → V3TaskStatus
into_v3 TaskStatus.unspecified = V3TaskStatus.unspecified
into_v3 TaskStatus.creating = V3TaskStatus.creating
into_v3 TaskStatus.submitted = V3TaskStatus.submitted
into_v3 TaskStatus.dispatched = V3TaskStatus.dispatched
into_v3 TaskStatus.completed = V3TaskStatus.completed
into_v3 TaskStatus.error = V3TaskStatus.error
into_v3 TaskStatus.timeout = V3TaskStatus.timeout
into_v3 TaskStatus.cancelling = V3TaskStatus.cancelling
into_v3 TaskStatus.cancelled = V3TaskStatus.cancelled
into_v3 TaskStatus.processing = V3TaskStatus.processing
into_v3 TaskStatus.processed = V3TaskStatus.processed
into_v3 TaskStatus.retried = V3TaskStatus.retried
into_v3 TaskStatus.pending = V3TaskStatus.pending
into_v3 TaskStatus.paused = V3TaskStatus.paused

unfoldable pub from_v3 : V3TaskStatus → TaskStatus
from_v3 V3TaskStatus.unspecified = TaskStatus.unspecified
from_v3 V3TaskStatus.creating = TaskStatus.creating
from_v3 V3TaskStatus.submitted = TaskStatus.submitted
from_v3 V3TaskStatus.dispatched = TaskStatus.dispatched
from_v3 V3TaskStatus.completed = TaskStatus.completed
from_v3 V3TaskStatus.error = TaskStatus.error
from_v3 V3TaskStatus.timeout = TaskStatus.timeout
from_v3 V3TaskStatus.cancelling = TaskStatus.cancelling
from_v3 V3TaskStatus.cancelled = TaskStatus.cancelled
from_v3 V3TaskStatus.processing = TaskStatus.processing
from_v3 V3TaskStatus.processed = TaskStatus.processed
from_v3 V3TaskStatus.retried = TaskStatus.retried
from_v3 V3TaskStatus.pending = TaskStatus.pending
from_v3 V3TaskStatus.paused = TaskStatus.paused

back : (a : TaskStatus) → from_v3 (into_v3 a) ≡ a
unfolding into_v3 from_v3 as_i32 v3_as_i32
back TaskStatus.unspecified = refl
back _ = refl

forth : (b : V3TaskStatus) → into_v3 (from_v3 b) ≡ b
unfolding into_v3 from_v3 as_i32 v3_as_i32
forth V3TaskStatus.unspecified = refl
forth _ = refl

numbers : (a : TaskStatus) → as_i32 a ≡ v3_as_i32 (into_v3 a)
unfolding into_v3 from_v3 as_i32 v3_as_i32
numbers TaskStatus.unspecified = refl
numbers _ = refl

-- The two types have the same values under the same numbers.
pub mirrored : IsMirrored into_v3 from_v3 as_i32 v3_as_i32
mirrored = record { back = back; forth = forth; numbers = numbers }
