-- ===== src/Client/Versions/Calls.antt =====
-- packages/rust/armonik/src/client/versions.rs: the bodies of `impl_call!`, which send a request as it is.
use armoni_k_api.Rpc.Calls.{RequestError, Call}
use armoni_k_api.Rpc.Unary.{client_call}
use armoni_k_api.Server.Versions.{VersionsWire}
use armoni_k_api.Objects.Versions.{Versions, versions_from}

module _ {S : Type 0} (stub : VersionsWire S) where
  unfoldable pub list : (Unit {0}) → Call S RequestError Versions
  list = client_call (λ u. u) versions_from stub.list_versions
