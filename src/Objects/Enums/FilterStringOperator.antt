-- ===== src/Objects/Enums/FilterStringOperator.antt =====
-- packages/rust/armonik/src/objects/filters/string_operator.rs: `FilterStringOperator` and its conversions.
-- The mirror type that prost generates is read off Protos/V1/filters_common.proto.
use armoni_k_api.Common.{ℤ, pos, negsuc, is_pos, ◌≡◌, ◌≢◌, refl, arith, if◌then◌else◌}
use armoni_k_api.Objects.Codes.{IsCoded, IsMirrored}

pub data FilterStringOperator : Type 0 where
  equal not_equal contains not_contains starts_with ends_with : FilterStringOperator

abbrev pub default : FilterStringOperator
default = FilterStringOperator.equal

-- `value as i32`.
unfoldable pub as_i32 : FilterStringOperator → ℤ
as_i32 FilterStringOperator.equal = pos 0
as_i32 FilterStringOperator.not_equal = pos 1
as_i32 FilterStringOperator.contains = pos 2
as_i32 FilterStringOperator.not_contains = pos 3
as_i32 FilterStringOperator.starts_with = pos 4
as_i32 FilterStringOperator.ends_with = pos 5

unfoldable pub from_i32 : ℤ → FilterStringOperator
from_i32 value =
    if is_pos value 0
    then FilterStringOperator.equal
    else if is_pos value 1
    then FilterStringOperator.not_equal
    else if is_pos value 2
    then FilterStringOperator.contains
    else if is_pos value 3
    then FilterStringOperator.not_contains
    else if is_pos value 4
    then FilterStringOperator.starts_with
    else if is_pos value 5
    then FilterStringOperator.ends_with
    else FilterStringOperator.equal

known : (a : FilterStringOperator) → from_i32 (as_i32 a) ≡ a
unfolding from_i32 as_i32
known FilterStringOperator.equal = refl
known _ = refl

unknown :
    (v : ℤ) → ((a : FilterStringOperator) → as_i32 a ≢ v) → from_i32 v ≡ FilterStringOperator.equal
unfolding from_i32 as_i32
unknown (negsuc k) h = refl
unknown (pos k) h = ground (
  arith,
  h FilterStringOperator.equal,
  h FilterStringOperator.not_equal,
  h FilterStringOperator.contains,
  h FilterStringOperator.not_contains,
  h FilterStringOperator.starts_with,
  h FilterStringOperator.ends_with,
)

-- A code that `as i32` gives is read back as its value, and any other code as the fallback value.
pub coded : IsCoded from_i32 as_i32 FilterStringOperator.equal
coded = record { known = known; unknown = unknown }

-- The generated `FilterStringOperator`, and its numbers in the protocol.
pub data V3FilterStringOperator : Type 0 where
  equal not_equal contains not_contains starts_with ends_with : V3FilterStringOperator

unfoldable pub v3_as_i32 : V3FilterStringOperator → ℤ
v3_as_i32 V3FilterStringOperator.equal = pos 0
v3_as_i32 V3FilterStringOperator.not_equal = pos 1
v3_as_i32 V3FilterStringOperator.contains = pos 2
v3_as_i32 V3FilterStringOperator.not_contains = pos 3
v3_as_i32 V3FilterStringOperator.starts_with = pos 4
v3_as_i32 V3FilterStringOperator.ends_with = pos 5

unfoldable pub into_v3 : FilterStringOperator → V3FilterStringOperator
into_v3 FilterStringOperator.equal = V3FilterStringOperator.equal
into_v3 FilterStringOperator.not_equal = V3FilterStringOperator.not_equal
into_v3 FilterStringOperator.contains = V3FilterStringOperator.contains
into_v3 FilterStringOperator.not_contains = V3FilterStringOperator.not_contains
into_v3 FilterStringOperator.starts_with = V3FilterStringOperator.starts_with
into_v3 FilterStringOperator.ends_with = V3FilterStringOperator.ends_with

unfoldable pub from_v3 : V3FilterStringOperator → FilterStringOperator
from_v3 V3FilterStringOperator.equal = FilterStringOperator.equal
from_v3 V3FilterStringOperator.not_equal = FilterStringOperator.not_equal
from_v3 V3FilterStringOperator.contains = FilterStringOperator.contains
from_v3 V3FilterStringOperator.not_contains = FilterStringOperator.not_contains
from_v3 V3FilterStringOperator.starts_with = FilterStringOperator.starts_with
from_v3 V3FilterStringOperator.ends_with = FilterStringOperator.ends_with

back : (a : FilterStringOperator) → from_v3 (into_v3 a) ≡ a
unfolding into_v3 from_v3 as_i32 v3_as_i32
back FilterStringOperator.equal = refl
back _ = refl

forth : (b : V3FilterStringOperator) → into_v3 (from_v3 b) ≡ b
unfolding into_v3 from_v3 as_i32 v3_as_i32
forth V3FilterStringOperator.equal = refl
forth _ = refl

numbers : (a : FilterStringOperator) → as_i32 a ≡ v3_as_i32 (into_v3 a)
unfolding into_v3 from_v3 as_i32 v3_as_i32
numbers FilterStringOperator.equal = refl
numbers _ = refl

-- The two types have the same values under the same numbers.
pub mirrored : IsMirrored into_v3 from_v3 as_i32 v3_as_i32
mirrored = record { back = back; forth = forth; numbers = numbers }
