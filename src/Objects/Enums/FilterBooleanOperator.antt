-- ===== src/Objects/Enums/FilterBooleanOperator.antt =====
-- packages/rust/armonik/src/objects/filters/boolean_operator.rs: `FilterBooleanOperator` and its conversions.
-- The mirror type that prost generates is read off Protos/V1/filters_common.proto.
use armoni_k_api.Common.{ℤ, pos, negsuc, is_pos, ◌≡◌, ◌≢◌, refl, arith, if◌then◌else◌}
use armoni_k_api.Objects.Codes.{IsCoded, IsMirrored}

pub data FilterBooleanOperator : Type 0 where
  is : FilterBooleanOperator

abbrev pub default : FilterBooleanOperator
default = FilterBooleanOperator.is

-- `value as i32`.
unfoldable pub as_i32 : FilterBooleanOperator → ℤ
as_i32 FilterBooleanOperator.is = pos 0

unfoldable pub from_i32 : ℤ → FilterBooleanOperator
from_i32 value = if is_pos value 0 then FilterBooleanOperator.is else FilterBooleanOperator.is

known : (a : FilterBooleanOperator) → from_i32 (as_i32 a) ≡ a
unfolding from_i32 as_i32
known FilterBooleanOperator.is = refl

unknown :
    (v : ℤ) → ((a : FilterBooleanOperator) → as_i32 a ≢ v) → from_i32 v ≡ FilterBooleanOperator.is
unfolding from_i32 as_i32
unknown (negsuc k) h = refl
unknown (pos k) h = ground (arith, h FilterBooleanOperator.is)

-- A code that `as i32` gives is read back as its value, and any other code as the fallback value.
pub coded : IsCoded from_i32 as_i32 FilterBooleanOperator.is
coded = record { known = known; unknown = unknown }

-- The generated `FilterBooleanOperator`, and its numbers in the protocol.
pub data V3FilterBooleanOperator : Type 0 where
  is : V3FilterBooleanOperator

unfoldable pub v3_as_i32 : V3FilterBooleanOperator → ℤ
v3_as_i32 V3FilterBooleanOperator.is = pos 0

unfoldable pub into_v3 : FilterBooleanOperator → V3FilterBooleanOperator
into_v3 FilterBooleanOperator.is = V3FilterBooleanOperator.is

unfoldable pub from_v3 : V3FilterBooleanOperator → FilterBooleanOperator
from_v3 V3FilterBooleanOperator.is = FilterBooleanOperator.is

back : (a : FilterBooleanOperator) → from_v3 (into_v3 a) ≡ a
unfolding into_v3 from_v3 as_i32 v3_as_i32
back FilterBooleanOperator.is = refl

forth : (b : V3FilterBooleanOperator) → into_v3 (from_v3 b) ≡ b
unfolding into_v3 from_v3 as_i32 v3_as_i32
forth V3FilterBooleanOperator.is = refl

numbers : (a : FilterBooleanOperator) → as_i32 a ≡ v3_as_i32 (into_v3 a)
unfolding into_v3 from_v3 as_i32 v3_as_i32
numbers FilterBooleanOperator.is = refl

-- The two types have the same values under the same numbers.
pub mirrored : IsMirrored into_v3 from_v3 as_i32 v3_as_i32
mirrored = record { back = back; forth = forth; numbers = numbers }
