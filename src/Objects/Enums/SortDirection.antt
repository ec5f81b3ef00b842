-- ===== src/Objects/Enums/SortDirection.antt =====
-- packages/rust/armonik/src/objects/sort.rs: `SortDirection` and its conversions.
-- The mirror type that prost generates is read off Protos/V1/sort_direction.proto.
use armoni_k_api.Common.{ℤ, pos, negsuc, is_pos, ◌≡◌, ◌≢◌, refl, arith, if◌then◌else◌}
use armoni_k_api.Objects.Codes.{IsCoded, IsMirrored}

pub data SortDirection : Type 0 where
  unspecified asc desc : SortDirection

abbrev pub default : SortDirection
default = SortDirection.asc

-- `value as i32`.
unfoldable pub as_i32 : SortDirection → ℤ
as_i32 SortDirection.unspecified = pos 0
as_i32 SortDirection.asc = pos 1
as_i32 SortDirection.desc = pos 2

unfoldable pub from_i32 : ℤ → SortDirection
from_i32 value =
    if is_pos value 0
    then SortDirection.unspecified
    else if is_pos value 1
    then SortDirection.asc
    else if is_pos value 2
    then SortDirection.desc
    else SortDirection.unspecified

known : (a : SortDirection) → from_i32 (as_i32 a) ≡ a
unfolding from_i32 as_i32
known SortDirection.unspecified = refl
known _ = refl

unknown : (v : ℤ) → ((a : SortDirection) → as_i32 a ≢ v) → from_i32 v ≡ SortDirection.unspecified
unfolding from_i32 as_i32
unknown (negsuc k) h = refl
unknown (pos k) h =
    ground (arith, h SortDirection.unspecified, h SortDirection.asc, h SortDirection.desc)

-- A code that `as i32` gives is read back as its value, and any other code as the fallback value.
pub coded : IsCoded from_i32 as_i32 SortDirection.unspecified
coded = record { known = known; unknown = unknown }

-- The generated `SortDirection`, and its numbers in the protocol.
pub data V3SortDirection : Type 0 where
  unspecified asc desc : V3SortDirection

unfoldable pub v3_as_i32 : V3SortDirection → ℤ
v3_as_i32 V3SortDirection.unspecified = pos 0
v3_as_i32 V3SortDirection.asc = pos 1
v3_as_i32 V3SortDirection.desc = pos 2

unfoldable pub into_v3 : SortDirection → V3SortDirection
into_v3 SortDirection.unspecified = V3SortDirection.unspecified
into_v3 SortDirection.asc = V3SortDirection.asc
into_v3 SortDirection.desc = V3SortDirection.desc

unfoldable pub from_v3 : V3SortDirection → SortDirection
from_v3 V3SortDirection.unspecified = SortDirection.unspecified
from_v3 V3SortDirection.asc = SortDirection.asc
from_v3 V3SortDirection.desc = SortDirection.desc

back : (a : SortDirection) → from_v3 (into_v3 a) ≡ a
unfolding into_v3 from_v3 as_i32 v3_as_i32
back SortDirection.unspecified = refl
back _ = refl

forth : (b : V3SortDirection) → into_v3 (from_v3 b) ≡ b
unfolding into_v3 from_v3 as_i32 v3_as_i32
forth V3SortDirection.unspecified = refl
forth _ = refl

numbers : (a : SortDirection) → as_i32 a ≡ v3_as_i32 (into_v3 a)
unfolding into_v3 from_v3 as_i32 v3_as_i32
numbers SortDirection.unspecified = refl
numbers _ = refl

-- The two types have the same values under the same numbers.
pub mirrored : IsMirrored into_v3 from_v3 as_i32 v3_as_i32
mirrored = record { back = back; forth = forth; numbers = numbers }
