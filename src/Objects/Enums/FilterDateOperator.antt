-- ===== src/Objects/Enums/FilterDateOperator.antt =====
-- packages/rust/armonik/src/objects/filters/date_operator.rs: `FilterDateOperator` and its conversions.
-- The mirror type that prost generates is read off Protos/V1/filters_common.proto.
use armoni_k_api.Common.{ℤ, pos, negsuc, is_pos, ◌≡◌, ◌≢◌, refl, arith, if◌then◌else◌}
use armoni_k_api.Objects.Codes.{IsCoded, IsMirrored}

pub data FilterDateOperator : Type 0 where
  equal not_equal before before_or_equal after_or_equal after : FilterDateOperator

abbrev pub default : FilterDateOperator
default = FilterDateOperator.equal

-- `value as i32`.
unfoldable pub as_i32 : FilterDateOperator → ℤ
as_i32 FilterDateOperator.equal = pos 0
as_i32 FilterDateOperator.not_equal = pos 1
as_i32 FilterDateOperator.before = pos 2
as_i32 FilterDateOperator.before_or_equal = pos 3
as_i32 FilterDateOperator.after_or_equal = pos 4
as_i32 FilterDateOperator.after = pos 5

unfoldable pub from_i32 : ℤ → FilterDateOperator
from_i32 value =
    if is_pos value 0
    then FilterDateOperator.equal
    else if is_pos value 1
    then FilterDateOperator.not_equal
    else if is_pos value 2
    then FilterDateOperator.before
    else if is_pos value 3
    then FilterDateOperator.before_or_equal
    else if is_pos value 4
    then FilterDateOperator.after_or_equal
    else if is_pos value 5
    then FilterDateOperator.after
    else FilterDateOperator.equal

known : (a : FilterDateOperator) → from_i32 (as_i32 a) ≡ a
unfolding from_i32 as_i32
known FilterDateOperator.equal = refl
known _ = refl

unknown :
    (v : ℤ) → ((a : FilterDateOperator) → as_i32 a ≢ v) → from_i32 v ≡ FilterDateOperator.equal
unfolding from_i32 as_i32
unknown (negsuc k) h = refl
unknown (pos k) h = ground (
  arith,
  h FilterDateOperator.equal,
  h FilterDateOperator.not_equal,
  h FilterDateOperator.before,
  h FilterDateOperator.before_or_equal,
  h FilterDateOperator.after_or_equal,
  h FilterDateOperator.after,
)

-- A code that `as i32` gives is read back as its value, and any other code as the fallback value.
pub coded : IsCoded from_i32 as_i32 FilterDateOperator.equal
coded = record { known = known; unknown = unknown }

-- The generated `FilterDateOperator`, and its numbers in the protocol.
pub data V3FilterDateOperator : Type 0 where
  equal not_equal before before_or_equal after_or_equal after : V3FilterDateOperator

unfoldable pub v3_as_i32 : V3FilterDateOperator → ℤ
v3_as_i32 V3FilterDateOperator.equal = pos 0
v3_as_i32 V3FilterDateOperator.not_equal = pos 1
v3_as_i32 V3FilterDateOperator.before = pos 2
v3_as_i32 V3FilterDateOperator.before_or_equal = pos 3
v3_as_i32 V3FilterDateOperator.after_or_equal = pos 4
v3_as_i32 V3FilterDateOperator.after = pos 5

unfoldable pub into_v3 : FilterDateOperator → V3FilterDateOperator
into_v3 FilterDateOperator.equal = V3FilterDateOperator.equal
into_v3 FilterDateOperator.not_equal = V3FilterDateOperator.not_equal
into_v3 FilterDateOperator.before = V3FilterDateOperator.before
into_v3 FilterDateOperator.before_or_equal = V3FilterDateOperator.before_or_equal
into_v3 FilterDateOperator.after_or_equal = V3FilterDateOperator.after_or_equal
into_v3 FilterDateOperator.after = V3FilterDateOperator.after

unfoldable pub from_v3 : V3FilterDateOperator → FilterDateOperator
from_v3 V3FilterDateOperator.equal = FilterDateOperator.equal
from_v3 V3FilterDateOperator.not_equal = FilterDateOperator.not_equal
from_v3 V3FilterDateOperator.before = FilterDateOperator.before
from_v3 V3FilterDateOperator.before_or_equal = FilterDateOperator.before_or_equal
from_v3 V3FilterDateOperator.after_or_equal = FilterDateOperator.after_or_equal
from_v3 V3FilterDateOperator.after = FilterDateOperator.after

back : (a : FilterDateOperator) → from_v3 (into_v3 a) ≡ a
unfolding into_v3 from_v3 as_i32 v3_as_i32
back FilterDateOperator.equal = refl
back _ = refl

forth : (b : V3FilterDateOperator) → into_v3 (from_v3 b) ≡ b
unfolding into_v3 from_v3 as_i32 v3_as_i32
forth V3FilterDateOperator.equal = refl
forth _ = refl

numbers : (a : FilterDateOperator) → as_i32 a ≡ v3_as_i32 (into_v3 a)
unfolding into_v3 from_v3 as_i32 v3_as_i32
numbers FilterDateOperator.equal = refl
numbers _ = refl

-- The two types have the same values under the same numbers.
pub mirrored : IsMirrored into_v3 from_v3 as_i32 v3_as_i32
mirrored = record { back = back; forth = forth; numbers = numbers }
