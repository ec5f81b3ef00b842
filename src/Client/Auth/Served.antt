-- ===== src/Client/Auth/Served.antt =====
-- The calls of packages/rust/armonik/src/client/auth.rs against the server of packages/rust/armonik/src/server/auth.rs.
use armoni_k_api.Common.{◌≡◌, refl}
use armoni_k_api.Common.Outcome.{map_ok}
use armoni_k_api.Rpc.Calls.{RequestError, grpc, Call, then_result, finish}
use armoni_k_api.Rpc.Unary.{part_served}
use armoni_k_api.Server.Auth.{AuthWire, AuthService, serve}
use armoni_k_api.Client.Auth as Client
use armoni_k_api.Client.Auth.Calls as Calls
use armoni_k_api.Objects.Auth.{User, current_user_into, current_user_from, current_user_back}

-- A call of the client with its arguments, and what it can return.
pub data AuthCall : Type 0 where
  current_user : AuthCall

pub data AuthAnswer : Type 0 where
  about : User → AuthAnswer

module _ {S : Type 0} (stub : AuthWire S) where
  unfoldable pub perform : AuthCall → Call S RequestError AuthAnswer
  perform AuthCall.current_user = then_result (map_ok about) (Client.current_user stub)

module _ {S Context : Type 0} (service : AuthService S Context) (context : Context) where
  -- The handler of the call, run once on the arguments, with its error wrapped.
  unfoldable pub handle : AuthCall → Call S RequestError AuthAnswer
  handle AuthCall.current_user = finish (λ r. about r.user) grpc (service.current_user tt context)

  -- The same for the client of auth.
  pub perform-serve_auth :
      (call : AuthCall) (s : S) → perform (serve service context) call s ≡ handle call s
  unfolding perform handle serve Client.current_user Calls.current_user
  perform-serve_auth AuthCall.current_user s =
      part_served (λ u. u) (λ u. u) current_user_into current_user_from (λ _. refl)
        current_user_back (λ r. r.user) about service.current_user context tt s
