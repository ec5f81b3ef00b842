-- ===== src/Server/HealthChecks.antt =====
-- packages/rust/armonik/src/server/health_checks.rs: the trait of the handlers, and the server that is made of them.
use armoni_k_api.Rpc.Calls.{Status, Call}
use armoni_k_api.Rpc.Unary.{unary}
use armoni_k_api.Objects.HealthChecks.{Health, V3Health, health_into}

-- The calls of the generated service, of its client as of its server.
pub record HealthChecksWire (S : Type 0) : Type 0 where
  pub check_health : (Unit {0}) → Call S Status V3Health

-- The trait of the handlers.
pub record HealthChecksService (S Context : Type 0) : Type 0 where
  pub check : (Unit {0}) → Context → Call S Status Health

-- The server of the handlers, for calls that come with the given context.
unfoldable pub serve :
    {S Context : Type 0} → HealthChecksService S Context → Context → HealthChecksWire S
serve service context = record {
  check_health = λ w. unary (λ u. u) health_into service.check w context;
}
