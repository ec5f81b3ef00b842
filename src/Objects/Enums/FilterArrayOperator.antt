-- ===== src/Objects/Enums/FilterArrayOperator.antt =====
-- packages/rust/armonik/src/objects/filters/array_operator.rs: `FilterArrayOperator` and its conversions.
-- The mirror type that prost generates is read off Protos/V1/filters_common.proto.
use armoni_k_api.Common.{ℤ, pos, negsuc, is_pos, ◌≡◌, ◌≢◌, refl, arith, if◌then◌else◌}
use armoni_k_api.Objects.Codes.{IsCoded, IsMirrored}

pub data FilterArrayOperator : Type 0 where
  contains not_contains : FilterArrayOperator

abbrev pub default : FilterArrayOperator
default = FilterArrayOperator.contains

-- `value as i32`.
unfoldable pub as_i32 : FilterArrayOperator → ℤ
as_i32 FilterArrayOperator.contains = pos 0
as_i32 FilterArrayOperator.not_contains = pos 1

unfoldable pub from_i32 : ℤ → FilterArrayOperator
from_i32 value =
    if is_pos value 0
    then FilterArrayOperator.contains
    else if is_pos value 1
    then FilterArrayOperator.not_contains
    else FilterArrayOperator.contains

known : (a : FilterArrayOperator) → from_i32 (as_i32 a) ≡ a
unfolding from_i32 as_i32
known FilterArrayOperator.contains = refl
known _ = refl

unknown :
    (v : ℤ) → ((a : FilterArrayOperator) → as_i32 a ≢ v) → from_i32 v ≡ FilterArrayOperator.contains
unfolding from_i32 as_i32
unknown (negsuc k) h = refl
unknown (pos k) h =
    ground (arith, h FilterArrayOperator.contains, h FilterArrayOperator.not_contains)

-- A code that `as i32` gives is read back as its value, and any other code as the fallback value.
pub coded : IsCoded from_i32 as_i32 FilterArrayOperator.contains
coded = record { known = known; unknown = unknown }

-- The generated `FilterArrayOperator`, and its numbers in the protocol.
pub data V3FilterArrayOperator : Type 0 where
  contains not_contains : V3FilterArrayOperator

unfoldable pub v3_as_i32 : V3FilterArrayOperator → ℤ
v3_as_i32 V3FilterArrayOperator.contains = pos 0
v3_as_i32 V3FilterArrayOperator.not_contains = pos 1

unfoldable pub into_v3 : FilterArrayOperator → V3FilterArrayOperator
into_v3 FilterArrayOperator.contains = V3FilterArrayOperator.contains
into_v3 FilterArrayOperator.not_contains = V3FilterArrayOperator.not_contains

unfoldable pub from_v3 : V3FilterArrayOperator → FilterArrayOperator
from_v3 V3FilterArrayOperator.contains = FilterArrayOperator.contains
from_v3 V3FilterArrayOperator.not_contains = FilterArrayOperator.not_contains

back : (a : FilterArrayOperator) → from_v3 (into_v3 a) ≡ a
unfolding into_v3 from_v3 as_i32 v3_as_i32
back FilterArrayOperator.contains = refl
back _ = refl

forth : (b : V3FilterArrayOperator) → into_v3 (from_v3 b) ≡ b
unfolding into_v3 from_v3 as_i32 v3_as_i32
forth V3FilterArrayOperator.contains = refl
forth _ = refl

numbers : (a : FilterArrayOperator) → as_i32 a ≡ v3_as_i32 (into_v3 a)
unfolding into_v3 from_v3 as_i32 v3_as_i32
numbers FilterArrayOperator.contains = refl
numbers _ = refl

-- The two types have the same values under the same numbers.
pub mirrored : IsMirrored into_v3 from_v3 as_i32 v3_as_i32
mirrored = record { back = back; forth = forth; numbers = numbers }
