-- ===== src/Objects/Enums/ResultStatus.antt =====
-- packages/rust/armonik/src/objects/result_status.rs: `ResultStatus` and its conversions.
-- The mirror type that prost generates is read off Protos/V1/result_status.proto.
use armoni_k_api.Common.{ℤ, pos, negsuc, is_pos, ◌≡◌, ◌≢◌, refl, arith, if◌then◌else◌}
use armoni_k_api.Objects.Codes.{IsCoded, IsMirrored}

pub data ResultStatus : Type 0 where
  unspecified created completed aborted deleted not_found : ResultStatus

abbrev pub default : ResultStatus
default = ResultStatus.unspecified

-- `value as i32`.
unfoldable pub as_i32 : ResultStatus → ℤ
as_i32 ResultStatus.unspecified = pos 0
as_i32 ResultStatus.created = pos 1
as_i32 ResultStatus.completed = pos 2
as_i32 ResultStatus.aborted = pos 3
as_i32 ResultStatus.deleted = pos 4
as_i32 ResultStatus.not_found = pos 127

unfoldable pub from_i32 : ℤ → ResultStatus
from_i32 value =
    if is_pos value 0
    then ResultStatus.unspecified
    else if is_pos value 1
    then ResultStatus.created
    else if is_pos value 2
    then ResultStatus.completed
    else if is_pos value 3
    then ResultStatus.aborted
    else if is_pos value 4
    then ResultStatus.deleted
    else if is_pos value 127
    then ResultStatus.not_found
    else ResultStatus.unspecified

known : (a : ResultStatus) → from_i32 (as_i32 a) ≡ a
unfolding from_i32 as_i32
known ResultStatus.unspecified = refl
known _ = refl

unknown : (v : ℤ) → ((a : ResultStatus) → as_i32 a ≢ v) → from_i32 v ≡ ResultStatus.unspecified
unfolding from_i32 as_i32
unknown (negsuc k) h = refl
unknown (pos k) h = ground (
  arith,
  h ResultStatus.unspecified,
  h ResultStatus.created,
  h ResultStatus.completed,
  h ResultStatus.aborted,
  h ResultStatus.deleted,
  h ResultStatus.not_found,
)

-- A code that `as i32` gives is read back as its value, and any other code as the fallback value.
pub coded : IsCoded from_i32 as_i32 ResultStatus.unspecified
coded = record { known = known; unknown = unknown }

-- The generated `ResultStatus`, and its numbers in the protocol.
pub data V3ResultStatus : Type 0 where
  unspecified created completed aborted deleted notfound : V3ResultStatus

unfoldable pub v3_as_i32 : V3ResultStatus → ℤ
v3_as_i32 V3ResultStatus.unspecified = pos 0
v3_as_i32 V3ResultStatus.created = pos 1
v3_as_i32 V3ResultStatus.completed = pos 2
v3_as_i32 V3ResultStatus.aborted = pos 3
v3_as_i32 V3ResultStatus.deleted = pos 4
v3_as_i32 V3ResultStatus.notfound = pos 127

unfoldable pub into_v3 : ResultStatus → V3ResultStatus
into_v3 ResultStatus.unspecified = V3ResultStatus.unspecified
into_v3 ResultStatus.created = V3ResultStatus.created
into_v3 ResultStatus.completed = V3ResultStatus.completed
into_v3 ResultStatus.aborted = V3ResultStatus.aborted
into_v3 ResultStatus.deleted = V3ResultStatus.deleted
into_v3 ResultStatus.not_found = V3ResultStatus.notfound

unfoldable pub from_v3 : V3ResultStatus → ResultStatus
from_v3 V3ResultStatus.unspecified = ResultStatus.unspecified
from_v3 V3ResultStatus.created = ResultStatus.created
from_v3 V3ResultStatus.completed = ResultStatus.completed
from_v3 V3ResultStatus.aborted = ResultStatus.aborted
from_v3 V3ResultStatus.deleted = ResultStatus.deleted
from_v3 V3ResultStatus.notfound = ResultStatus.not_found

back : (a : ResultStatus) → from_v3 (into_v3 a) ≡ a
unfolding into_v3 from_v3 as_i32 v3_as_i32
back ResultStatus.unspecified = refl
back _ = refl

forth : (b : V3ResultStatus) → into_v3 (from_v3 b) ≡ b
unfolding into_v3 from_v3 as_i32 v3_as_i32
forth V3ResultStatus.unspecified = refl
forth _ = refl

numbers : (a : ResultStatus) → as_i32 a ≡ v3_as_i32 (into_v3 a)
unfolding into_v3 from_v3 as_i32 v3_as_i32
numbers ResultStatus.unspecified = refl
numbers _ = refl

-- The two types have the same values under the same numbers.
pub mirrored : IsMirrored into_v3 from_v3 as_i32 v3_as_i32
mirrored = record { back = back; forth = forth; numbers = numbers }
