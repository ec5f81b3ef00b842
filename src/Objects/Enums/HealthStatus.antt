-- ===== src/Objects/Enums/HealthStatus.antt =====
-- packages/rust/armonik/src/objects/health_checks/status.rs: `Status` and its conversions.
-- The mirror type that prost generates is read off Protos/V1/health_checks_common.proto.
use armoni_k_api.Common.{ℤ, pos, negsuc, is_pos, ◌≡◌, ◌≢◌, refl, arith, if◌then◌else◌}
use armoni_k_api.Objects.Codes.{IsCoded, IsMirrored}

pub data HealthStatus : Type 0 where
  unspecified healthy degraded unhealthy : HealthStatus

abbrev pub default : HealthStatus
default = HealthStatus.unspecified

-- `value as i32`.
unfoldable pub as_i32 : HealthStatus → ℤ
as_i32 HealthStatus.unspecified = pos 0
as_i32 HealthStatus.healthy = pos 1
as_i32 HealthStatus.degraded = pos 2
as_i32 HealthStatus.unhealthy = pos 3

unfoldable pub from_i32 : ℤ → HealthStatus
from_i32 value =
    if is_pos value 0
    then HealthStatus.unspecified
    else if is_pos value 1
    then HealthStatus.healthy
    else if is_pos value 2
    then HealthStatus.degraded
    else if is_pos value 3
    then HealthStatus.unhealthy
    else HealthStatus.unspecified

known : (a : HealthStatus) → from_i32 (as_i32 a) ≡ a
unfolding from_i32 as_i32
known HealthStatus.unspecified = refl
known _ = refl

unknown : (v : ℤ) → ((a : HealthStatus) → as_i32 a ≢ v) → from_i32 v ≡ HealthStatus.unspecified
unfolding from_i32 as_i32
unknown (negsuc k) h = refl
unknown (pos k) h = ground (
  arith,
  h HealthStatus.unspecified,
  h HealthStatus.healthy,
  h HealthStatus.degraded,
  h HealthStatus.unhealthy,
)

-- A code that `as i32` gives is read back as its value, and any other code as the fallback value.
pub coded : IsCoded from_i32 as_i32 HealthStatus.unspecified
coded = record { known = known; unknown = unknown }

-- The generated `HealthStatusEnum`, and its numbers in the protocol.
pub data V3HealthStatusEnum : Type 0 where
  unspecified healthy degraded unhealthy : V3HealthStatusEnum

unfoldable pub v3_as_i32 : V3HealthStatusEnum → ℤ
v3_as_i32 V3HealthStatusEnum.unspecified = pos 0
v3_as_i32 V3HealthStatusEnum.healthy = pos 1
v3_as_i32 V3HealthStatusEnum.degraded = pos 2
v3_as_i32 V3HealthStatusEnum.unhealthy = pos 3

unfoldable pub into_v3 : HealthStatus → V3HealthStatusEnum
into_v3 HealthStatus.unspecified = V3HealthStatusEnum.unspecified
into_v3 HealthStatus.healthy = V3HealthStatusEnum.healthy
into_v3 HealthStatus.degraded = V3HealthStatusEnum.degraded
into_v3 HealthStatus.unhealthy = V3HealthStatusEnum.unhealthy

unfoldable pub from_v3 : V3HealthStatusEnum → HealthStatus
from_v3 V3HealthStatusEnum.unspecified = HealthStatus.unspecified
from_v3 V3HealthStatusEnum.healthy = HealthStatus.healthy
from_v3 V3HealthStatusEnum.degraded = HealthStatus.degraded
from_v3 V3HealthStatusEnum.unhealthy = HealthStatus.unhealthy

back : (a : HealthStatus) → from_v3 (into_v3 a) ≡ a
unfolding into_v3 from_v3 as_i32 v3_as_i32
back HealthStatus.unspecified = refl
back _ = refl

forth : (b : V3HealthStatusEnum) → into_v3 (from_v3 b) ≡ b
unfolding into_v3 from_v3 as_i32 v3_as_i32
forth V3HealthStatusEnum.unspecified = refl
forth _ = refl

numbers : (a : HealthStatus) → as_i32 a ≡ v3_as_i32 (into_v3 a)
unfolding into_v3 from_v3 as_i32 v3_as_i32
numbers HealthStatus.unspecified = refl
numbers _ = refl

-- The two types have the same values under the same numbers.
pub mirrored : IsMirrored into_v3 from_v3 as_i32 v3_as_i32
mirrored = record { back = back; forth = forth; numbers = numbers }
