-- ===== src/Server/Versions.antt =====
-- packages/rust/armonik/src/server/versions.rs: the trait of the handlers, and the server that is made of them.
use armoni_k_api.Rpc.Calls.{Status, Call}
use armoni_k_api.Rpc.Unary.{unary}
use armoni_k_api.Objects.Versions.{Versions, V3Versions, versions_into}

-- The calls of the generated service, of its client as of its server.
pub record VersionsWire (S : Type 0) : Type 0 where
  pub list_versions : (Unit {0}) → Call S Status V3Versions

-- The trait of the handlers.
pub record VersionsService (S Context : Type 0) : Type 0 where
  pub list : (Unit {0}) → Context → Call S Status Versions

-- The server of the handlers, for calls that come with the given context.
unfoldable pub serve : {S Context : Type 0} → VersionsService S Context → Context → VersionsWire S
serve service context = record {
  list_versions = λ w. unary (λ u. u) versions_into service.list w context;
}
