-- ===== src/Objects/HealthChecks.antt =====
-- packages/rust/armonik/src/objects/health_checks: the health of the services. The request is empty.
use armoni_k_api.Common.{ℤ, String, ◌≡◌, List, []}
use armoni_k_api.Objects.Convert.{into_collect, list-retract}
use armoni_k_api.Objects.Enums.HealthStatus as StatusCodes

pub record ServiceHealth : Type 0 where
  pub name : String
  pub message : String
  pub health : StatusCodes.HealthStatus

pub record V3ServiceHealth : Type 0 where
  pub name : String
  pub message : String
  pub healthy : ℤ

abbrev pub default_service_health : ServiceHealth
default_service_health = record { name = ""; message = ""; health = StatusCodes.default }

unfoldable pub service_health_into : ServiceHealth → V3ServiceHealth
service_health_into r = record {
  name = r.name;
  message = r.message;
  healthy = StatusCodes.as_i32 r.health;
}

unfoldable pub service_health_from : V3ServiceHealth → ServiceHealth
service_health_from w = record {
  name = w.name;
  message = w.message;
  health = StatusCodes.from_i32 w.healthy;
}

pub service_health_back : (r : ServiceHealth) → service_health_from (service_health_into r) ≡ r
unfolding service_health_from service_health_into
service_health_back r =
    λ i. record { name = r.name; message = r.message; health = StatusCodes.coded.known r.health i }

pub record Health : Type 0 where
  pub services : List ServiceHealth

pub record V3Health : Type 0 where
  pub services : List V3ServiceHealth

abbrev pub default_health : Health
default_health = record { services = [] }

unfoldable pub health_into : Health → V3Health
health_into r = record { services = into_collect service_health_into r.services }

unfoldable pub health_from : V3Health → Health
health_from w = record { services = into_collect service_health_from w.services }

pub health_back : (r : Health) → health_from (health_into r) ≡ r
unfolding health_from health_into
health_back r = λ i. record {
  services = list-retract service_health_into service_health_from service_health_back r.services i;
}
