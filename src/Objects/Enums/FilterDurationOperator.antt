-- ===== src/Objects/Enums/FilterDurationOperator.antt =====
-- packages/rust/armonik/src/objects/filters/duration_operator.rs: `FilterDurationOperator` and its conversions.
-- The mirror type that prost generates is read off Protos/V1/filters_common.proto.
use armoni_k_api.Common.{ℤ, pos, negsuc, is_pos, ◌≡◌, ◌≢◌, refl, arith, if◌then◌else◌}
use armoni_k_api.Objects.Codes.{IsCoded, IsMirrored}

pub data FilterDurationOperator : Type 0 where
  equal not_equal shorter_than shorter_than_or_equal longer_than_or_equal longer_than :
      FilterDurationOperator

abbrev pub default : FilterDurationOperator
default = FilterDurationOperator.equal

-- `value as i32`.
unfoldable pub as_i32 : FilterDurationOperator → ℤ
as_i32 FilterDurationOperator.equal = pos 0
as_i32 FilterDurationOperator.not_equal = pos 1
as_i32 FilterDurationOperator.shorter_than = pos 2
as_i32 FilterDurationOperator.shorter_than_or_equal = pos 3
as_i32 FilterDurationOperator.longer_than_or_equal = pos 4
as_i32 FilterDurationOperator.longer_than = pos 5

unfoldable pub from_i32 : ℤ → FilterDurationOperator
from_i32 value =
    if is_pos value 0
    then FilterDurationOperator.equal
    else if is_pos value 1
    then FilterDurationOperator.not_equal
    else if is_pos value 2
    then FilterDurationOperator.shorter_than
    else if is_pos value 3
    then FilterDurationOperator.shorter_than_or_equal
    else if is_pos value 4
    then FilterDurationOperator.longer_than_or_equal
    else if is_pos value 5
    then FilterDurationOperator.longer_than
    else FilterDurationOperator.equal

known : (a : FilterDurationOperator) → from_i32 (as_i32 a) ≡ a
unfolding from_i32 as_i32
known FilterDurationOperator.equal = refl
known _ = refl

unknown :
    (v : ℤ)
    → ((a : FilterDurationOperator) → as_i32 a ≢ v)
    → from_i32 v ≡ FilterDurationOperator.equal
unfolding from_i32 as_i32
unknown (negsuc k) h = refl
unknown (pos k) h = ground (
  arith,
  h FilterDurationOperator.equal,
  h FilterDurationOperator.not_equal,
  h FilterDurationOperator.shorter_than,
  h FilterDurationOperator.shorter_than_or_equal,
  h FilterDurationOperator.longer_than_or_equal,
  h FilterDurationOperator.longer_than,
)

-- A code that `as i32` gives is read back as its value, and any other code as the fallback value.
pub coded : IsCoded from_i32 as_i32 FilterDurationOperator.equal
coded = record { known = known; unknown = unknown }

-- The generated `FilterDurationOperator`, and its numbers in the protocol.
pub data V3FilterDurationOperator : Type 0 where
  equal not_equal shorter_than shorter_than_or_equal longer_than_or_equal longer_than :
      V3FilterDurationOperator

unfoldable pub v3_as_i32 : V3FilterDurationOperator → ℤ
v3_as_i32 V3FilterDurationOperator.equal = pos 0
v3_as_i32 V3FilterDurationOperator.not_equal = pos 1
v3_as_i32 V3FilterDurationOperator.shorter_than = pos 2
v3_as_i32 V3FilterDurationOperator.shorter_than_or_equal = pos 3
v3_as_i32 V3FilterDurationOperator.longer_than_or_equal = pos 4
v3_as_i32 V3FilterDurationOperator.longer_than = pos 5

unfoldable pub into_v3 : FilterDurationOperator → V3FilterDurationOperator
into_v3 FilterDurationOperator.equal = V3FilterDurationOperator.equal
into_v3 FilterDurationOperator.not_equal = V3FilterDurationOperator.not_equal
into_v3 FilterDurationOperator.shorter_than = V3FilterDurationOperator.shorter_than
into_v3 FilterDurationOperator.shorter_than_or_equal =
    V3FilterDurationOperator.shorter_than_or_equal
into_v3 FilterDurationOperator.longer_than_or_equal = V3FilterDurationOperator.longer_than_or_equal
into_v3 FilterDurationOperator.longer_than = V3FilterDurationOperator.longer_than

unfoldable pub from_v3 : V3FilterDurationOperator → FilterDurationOperator
from_v3 V3FilterDurationOperator.equal = FilterDurationOperator.equal
from_v3 V3FilterDurationOperator.not_equal = FilterDurationOperator.not_equal
from_v3 V3FilterDurationOperator.shorter_than = FilterDurationOperator.shorter_than
from_v3 V3FilterDurationOperator.shorter_than_or_equal =
    FilterDurationOperator.shorter_than_or_equal
from_v3 V3FilterDurationOperator.longer_than_or_equal = FilterDurationOperator.longer_than_or_equal
from_v3 V3FilterDurationOperator.longer_than = FilterDurationOperator.longer_than

back : (a : FilterDurationOperator) → from_v3 (into_v3 a) ≡ a
unfolding into_v3 from_v3 as_i32 v3_as_i32
back FilterDurationOperator.equal = refl
back _ = refl

forth : (b : V3FilterDurationOperator) → into_v3 (from_v3 b) ≡ b
unfolding into_v3 from_v3 as_i32 v3_as_i32
forth V3FilterDurationOperator.equal = refl
forth _ = refl

numbers : (a : FilterDurationOperator) → as_i32 a ≡ v3_as_i32 (into_v3 a)
unfolding into_v3 from_v3 as_i32 v3_as_i32
numbers FilterDurationOperator.equal = refl
numbers _ = refl

-- The two types have the same values under the same numbers.
pub mirrored : IsMirrored into_v3 from_v3 as_i32 v3_as_i32
mirrored = record { back = back; forth = forth; numbers = numbers }
