-- ===== src/Objects/Enums/SessionStatus.antt =====
-- packages/rust/armonik/src/objects/session_status.rs: `SessionStatus` and its conversions.
-- The mirror type that prost generates is read off Protos/V1/session_status.proto.
use armoni_k_api.Common.{ℤ, pos, negsuc, is_pos, ◌≡◌, ◌≢◌, refl, arith, if◌then◌else◌}
use armoni_k_api.Objects.Codes.{IsCoded, IsMirrored}

pub data SessionStatus : Type 0 where
  unspecified running cancelled paused closed purged deleted : SessionStatus

abbrev pub default : SessionStatus
default = SessionStatus.unspecified

-- `value as i32`.
unfoldable pub as_i32 : SessionStatus → ℤ
as_i32 SessionStatus.unspecified = pos 0
as_i32 SessionStatus.running = pos 1
as_i32 SessionStatus.cancelled = pos 2
as_i32 SessionStatus.paused = pos 3
as_i32 SessionStatus.closed = pos 4
as_i32 SessionStatus.purged = pos 5
as_i32 SessionStatus.deleted = pos 6

unfoldable pub from_i32 : ℤ → SessionStatus
from_i32 value =
    if is_pos value 0
    then SessionStatus.unspecified
    else if is_pos value 1
    then SessionStatus.running
    else if is_pos value 2
    then SessionStatus.cancelled
    else if is_pos value 3
    then SessionStatus.paused
    else if is_pos value 4
    then SessionStatus.closed
    else if is_pos value 5
    then SessionStatus.purged
    else if is_pos value 6
    then SessionStatus.deleted
    else SessionStatus.unspecified

known : (a : SessionStatus) → from_i32 (as_i32 a) ≡ a
unfolding from_i32 as_i32
known SessionStatus.unspecified = refl
known _ = refl

unknown : (v : ℤ) → ((a : SessionStatus) → as_i32 a ≢ v) → from_i32 v ≡ SessionStatus.unspecified
unfolding from_i32 as_i32
unknown (negsuc k) h = refl
unknown (pos k) h = ground (
  arith,
  h SessionStatus.unspecified,
  h SessionStatus.running,
  h SessionStatus.cancelled,
  h SessionStatus.paused,
  h SessionStatus.closed,
  h SessionStatus.purged,
  h SessionStatus.deleted,
)

-- A code that `as i32` gives is read back as its value, and any other code as the fallback value.
pub coded : IsCoded from_i32 as_i32 SessionStatus.unspecified
coded = record { known = known; unknown = unknown }

-- The generated `SessionStatus`, and its numbers in the protocol.
pub data V3SessionStatus : Type 0 where
  unspecified running cancelled paused closed purged deleted : V3SessionStatus

unfoldable pub v3_as_i32 : V3SessionStatus → ℤ
v3_as_i32 V3SessionStatus.unspecified = pos 0
v3_as_i32 V3SessionStatus.running = pos 1
v3_as_i32 V3SessionStatus.cancelled = pos 2
v3_as_i32 V3SessionStatus.paused = pos 3
v3_as_i32 V3SessionStatus.closed = pos 4
v3_as_i32 V3SessionStatus.purged = pos 5
v3_as_i32 V3SessionStatus.deleted = pos 6

unfoldable pub into_v3 : SessionStatus → V3SessionStatus
into_v3 SessionStatus.unspecified = V3SessionStatus.unspecified
into_v3 SessionStatus.running = V3SessionStatus.running
into_v3 SessionStatus.cancelled = V3SessionStatus.cancelled
into_v3 SessionStatus.paused = V3SessionStatus.paused
into_v3 SessionStatus.closed = V3SessionStatus.closed
into_v3 SessionStatus.purged = V3SessionStatus.purged
into_v3 SessionStatus.deleted = V3SessionStatus.deleted

unfoldable pub from_v3 : V3SessionStatus → SessionStatus
from_v3 V3SessionStatus.unspecified = SessionStatus.unspecified
from_v3 V3SessionStatus.running = SessionStatus.running
from_v3 V3SessionStatus.cancelled = SessionStatus.cancelled
from_v3 V3SessionStatus.paused = SessionStatus.paused
from_v3 V3SessionStatus.closed = SessionStatus.closed
from_v3 V3SessionStatus.purged = SessionStatus.purged
from_v3 V3SessionStatus.deleted = SessionStatus.deleted

back : (a : SessionStatus) → from_v3 (into_v3 a) ≡ a
unfolding into_v3 from_v3 as_i32 v3_as_i32
back SessionStatus.unspecified = refl
back _ = refl

forth : (b : V3SessionStatus) → into_v3 (from_v3 b) ≡ b
unfolding into_v3 from_v3 as_i32 v3_as_i32
forth V3SessionStatus.unspecified = refl
forth _ = refl

numbers : (a : SessionStatus) → as_i32 a ≡ v3_as_i32 (into_v3 a)
unfolding into_v3 from_v3 as_i32 v3_as_i32
numbers SessionStatus.unspecified = refl
numbers _ = refl

-- The two types have the same values under the same numbers.
pub mirrored : IsMirrored into_v3 from_v3 as_i32 v3_as_i32
mirrored = record { back = back; forth = forth; numbers = numbers }
