-- ===== src/Objects/Enums/FilterNumberOperator.antt =====
-- packages/rust/armonik/src/objects/filters/number_operator.rs: `FilterNumberOperator` and its conversions.
-- The mirror type that prost generates is read off Protos/V1/filters_common.proto.
use armoni_k_api.Common.{ℤ, pos, negsuc, is_pos, ◌≡◌, ◌≢◌, refl, arith, if◌then◌else◌}
use armoni_k_api.Objects.Codes.{IsCoded, IsMirrored}

pub data FilterNumberOperator : Type 0 where
  equal not_equal less_than less_than_or_equal greater_than_or_equal greater_than :
      FilterNumberOperator

abbrev pub default : FilterNumberOperator
default = FilterNumberOperator.equal

-- `value as i32`.
unfoldable pub as_i32 : FilterNumberOperator → ℤ
as_i32 FilterNumberOperator.equal = pos 0
as_i32 FilterNumberOperator.not_equal = pos 1
as_i32 FilterNumberOperator.less_than = pos 2
as_i32 FilterNumberOperator.less_than_or_equal = pos 3
as_i32 FilterNumberOperator.greater_than_or_equal = pos 4
as_i32 FilterNumberOperator.greater_than = pos 5

unfoldable pub from_i32 : ℤ → FilterNumberOperator
from_i32 value =
    if is_pos value 0
    then FilterNumberOperator.equal
    else if is_pos value 1
    then FilterNumberOperator.not_equal
    else if is_pos value 2
    then FilterNumberOperator.less_than
    else if is_pos value 3
    then FilterNumberOperator.less_than_or_equal
    else if is_pos value 4
    then FilterNumberOperator.greater_than_or_equal
    else if is_pos value 5
    then FilterNumberOperator.greater_than
    else FilterNumberOperator.equal

known : (a : FilterNumberOperator) → from_i32 (as_i32 a) ≡ a
unfolding from_i32 as_i32
known FilterNumberOperator.equal = refl
known _ = refl

unknown :
    (v : ℤ) → ((a : FilterNumberOperator) → as_i32 a ≢ v) → from_i32 v ≡ FilterNumberOperator.equal
unfolding from_i32 as_i32
unknown (negsuc k) h = refl
unknown (pos k) h = ground (
  arith,
  h FilterNumberOperator.equal,
  h FilterNumberOperator.not_equal,
  h FilterNumberOperator.less_than,
  h FilterNumberOperator.less_than_or_equal,
  h FilterNumberOperator.greater_than_or_equal,
  h FilterNumberOperator.greater_than,
)

-- A code that `as i32` gives is read back as its value, and any other code as the fallback value.
pub coded : IsCoded from_i32 as_i32 FilterNumberOperator.equal
coded = record { known = known; unknown = unknown }

-- The generated `FilterNumberOperator`, and its numbers in the protocol.
pub data V3FilterNumberOperator : Type 0 where
  equal not_equal less_than less_than_or_equal greater_than_or_equal greater_than :
      V3FilterNumberOperator

unfoldable pub v3_as_i32 : V3FilterNumberOperator → ℤ
v3_as_i32 V3FilterNumberOperator.equal = pos 0
v3_as_i32 V3FilterNumberOperator.not_equal = pos 1
v3_as_i32 V3FilterNumberOperator.less_than = pos 2
v3_as_i32 V3FilterNumberOperator.less_than_or_equal = pos 3
v3_as_i32 V3FilterNumberOperator.greater_than_or_equal = pos 4
v3_as_i32 V3FilterNumberOperator.greater_than = pos 5

unfoldable pub into_v3 : FilterNumberOperator → V3FilterNumberOperator
into_v3 FilterNumberOperator.equal = V3FilterNumberOperator.equal
into_v3 FilterNumberOperator.not_equal = V3FilterNumberOperator.not_equal
into_v3 FilterNumberOperator.less_than = V3FilterNumberOperator.less_than
into_v3 FilterNumberOperator.less_than_or_equal = V3FilterNumberOperator.less_than_or_equal
into_v3 FilterNumberOperator.greater_than_or_equal = V3FilterNumberOperator.greater_than_or_equal
into_v3 FilterNumberOperator.greater_than = V3FilterNumberOperator.greater_than

unfoldable pub from_v3 : V3FilterNumberOperator → FilterNumberOperator
from_v3 V3FilterNumberOperator.equal = FilterNumberOperator.equal
from_v3 V3FilterNumberOperator.not_equal = FilterNumberOperator.not_equal
from_v3 V3FilterNumberOperator.less_than = FilterNumberOperator.less_than
from_v3 V3FilterNumberOperator.less_than_or_equal = FilterNumberOperator.less_than_or_equal
from_v3 V3FilterNumberOperator.greater_than_or_equal = FilterNumberOperator.greater_than_or_equal
from_v3 V3FilterNumberOperator.greater_than = FilterNumberOperator.greater_than

back : (a : FilterNumberOperator) → from_v3 (into_v3 a) ≡ a
unfolding into_v3 from_v3 as_i32 v3_as_i32
back FilterNumberOperator.equal = refl
back _ = refl

forth : (b : V3FilterNumberOperator) → into_v3 (from_v3 b) ≡ b
unfolding into_v3 from_v3 as_i32 v3_as_i32
forth V3FilterNumberOperator.equal = refl
forth _ = refl

numbers : (a : FilterNumberOperator) → as_i32 a ≡ v3_as_i32 (into_v3 a)
unfolding into_v3 from_v3 as_i32 v3_as_i32
numbers FilterNumberOperator.equal = refl
numbers _ = refl

-- The two types have the same values under the same numbers.
pub mirrored : IsMirrored into_v3 from_v3 as_i32 v3_as_i32
mirrored = record { back = back; forth = forth; numbers = numbers }
