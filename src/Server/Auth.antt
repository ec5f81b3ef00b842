-- ===== src/Server/Auth.antt =====
-- packages/rust/armonik/src/server/auth.rs: the trait of the handlers, and the server that is made of them.
use armoni_k_api.Rpc.Calls.{Status, Call}
use armoni_k_api.Rpc.Unary.{unary}
use armoni_k_api.Objects.Auth.{CurrentUser, V3CurrentUser, current_user_into}

-- The calls of the generated service, of its client as of its server.
pub record AuthWire (S : Type 0) : Type 0 where
  pub get_current_user : (Unit {0}) → Call S Status V3CurrentUser

-- The trait of the handlers.
pub record AuthService (S Context : Type 0) : Type 0 where
  pub current_user : (Unit {0}) → Context → Call S Status CurrentUser

-- The server of the handlers, for calls that come with the given context.
unfoldable pub serve : {S Context : Type 0} → AuthService S Context → Context → AuthWire S
serve service context = record {
  get_current_user = λ w. unary (λ u. u) current_user_into service.current_user w context;
}
