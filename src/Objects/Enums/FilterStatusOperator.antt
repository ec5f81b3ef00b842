-- ===== src/Objects/Enums/FilterStatusOperator.antt =====
-- packages/rust/armonik/src/objects/filters/status_operator.rs: `FilterStatusOperator` and its conversions.
-- The mirror type that prost generates is read off Protos/V1/filters_common.proto.
use armoni_k_api.Common.{ℤ, pos, negsuc, is_pos, ◌≡◌, ◌≢◌, refl, arith, if◌then◌else◌}
use armoni_k_api.Objects.Codes.{IsCoded, IsMirrored}

pub data FilterStatusOperator : Type 0 where
  equal not_equal : FilterStatusOperator

abbrev pub default : FilterStatusOperator
default = FilterStatusOperator.equal

-- `value as i32`.
unfoldable pub as_i32 : FilterStatusOperator → ℤ
as_i32 FilterStatusOperator.equal = pos 0
as_i32 FilterStatusOperator.not_equal = pos 1

unfoldable pub from_i32 : ℤ → FilterStatusOperator
from_i32 value =
    if is_pos value 0
    then FilterStatusOperator.equal
    else if is_pos value 1
    then FilterStatusOperator.not_equal
    else FilterStatusOperator.equal

known : (a : FilterStatusOperator) → from_i32 (as_i32 a) ≡ a
unfolding from_i32 as_i32
known FilterStatusOperator.equal = refl
known _ = refl

unknown :
    (v : ℤ) → ((a : FilterStatusOperator) → as_i32 a ≢ v) → from_i32 v ≡ FilterStatusOperator.equal
unfolding from_i32 as_i32
unknown (negsuc k) h = refl
unknown (pos k) h = ground (arith, h FilterStatusOperator.equal, h FilterStatusOperator.not_equal)

-- A code that `as i32` gives is read back as its value, and any other code as the fallback value.
pub coded : IsCoded from_i32 as_i32 FilterStatusOperator.equal
coded = record { known = known; unknown = unknown }

-- The generated `FilterStatusOperator`, and its numbers in the protocol.
pub data V3FilterStatusOperator : Type 0 where
  equal not_equal : V3FilterStatusOperator

unfoldable pub v3_as_i32 : V3FilterStatusOperator → ℤ
v3_as_i32 V3FilterStatusOperator.equal = pos 0
v3_as_i32 V3FilterStatusOperator.not_equal = pos 1

unfoldable pub into_v3 : FilterStatusOperator → V3FilterStatusOperator
into_v3 FilterStatusOperator.equal = V3FilterStatusOperator.equal
into_v3 FilterStatusOperator.not_equal = V3FilterStatusOperator.not_equal

unfoldable pub from_v3 : V3FilterStatusOperator → FilterStatusOperator
from_v3 V3FilterStatusOperator.equal = FilterStatusOperator.equal
from_v3 V3FilterStatusOperator.not_equal = FilterStatusOperator.not_equal

back : (a : FilterStatusOperator) → from_v3 (into_v3 a) ≡ a
unfolding into_v3 from_v3 as_i32 v3_as_i32
back FilterStatusOperator.equal = refl
back _ = refl

forth : (b : V3FilterStatusOperator) → into_v3 (from_v3 b) ≡ b
unfolding into_v3 from_v3 as_i32 v3_as_i32
forth V3FilterStatusOperator.equal = refl
forth _ = refl

numbers : (a : FilterStatusOperator) → as_i32 a ≡ v3_as_i32 (into_v3 a)
unfolding into_v3 from_v3 as_i32 v3_as_i32
numbers FilterStatusOperator.equal = refl
numbers _ = refl

-- The two types have the same values under the same numbers.
pub mirrored : IsMirrored into_v3 from_v3 as_i32 v3_as_i32
mirrored = record { back = back; forth = forth; numbers = numbers }
