-- ===== src/Client/Auth.antt =====
-- packages/rust/armonik/src/client/auth.rs: the client of the service, over a stub that is generated code.
pub mod Calls
pub mod Served
use armoni_k_api.Common.{ℤ, String, Bool, Option, List, map}
use armoni_k_api.Common.Outcome.{Result, map_ok}
use armoni_k_api.Rpc.Calls.{RequestError, Call, then_result}
use armoni_k_api.Server.Auth.{AuthWire}
use armoni_k_api.Client.Auth.Calls as Calls
use armoni_k_api.Objects.Auth.{User, CurrentUser, V3CurrentUser}

module _ {S : Type 0} (stub : AuthWire S) where
  unfoldable pub current_user : Call S RequestError User
  current_user = then_result (map_ok (λ (r : CurrentUser). r.user)) (Calls.current_user stub tt)
