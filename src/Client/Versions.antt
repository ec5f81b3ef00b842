-- ===== src/Client/Versions.antt =====
-- packages/rust/armonik/src/client/versions.rs: the client of the service, over a stub that is generated code.
pub mod Calls
pub mod Served
use armoni_k_api.Common.{ℤ, String, Bool, Option, List, map}
use armoni_k_api.Common.Outcome.{Result, map_ok}
use armoni_k_api.Rpc.Calls.{RequestError, Call, then_result}
use armoni_k_api.Server.Versions.{VersionsWire}
use armoni_k_api.Client.Versions.Calls as Calls
use armoni_k_api.Objects.Versions.{Versions, V3Versions}

module _ {S : Type 0} (stub : VersionsWire S) where
  unfoldable pub list : Call S RequestError Versions
  list = Calls.list stub tt
