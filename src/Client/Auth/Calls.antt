-- ===== src/Client/Auth/Calls.antt =====
-- packages/rust/armonik/src/client/auth.rs: the bodies of `impl_call!`, which send a request as it is.
use armoni_k_api.Rpc.Calls.{RequestError, Call}
use armoni_k_api.Rpc.Unary.{client_call}
use armoni_k_api.Server.Auth.{AuthWire}
use armoni_k_api.Objects.Auth.{CurrentUser, current_user_from}

module _ {S : Type 0} (stub : AuthWire S) where
  unfoldable pub current_user : (Unit {0}) → Call S RequestError CurrentUser
  current_user = client_call (λ u. u) current_user_from stub.get_current_user
