-- ===== src/Client/Versions/Served.antt =====
-- The calls of packages/rust/armonik/src/client/versions.rs against the server of packages/rust/armonik/src/server/versions.rs.
use armoni_k_api.Common.{◌≡◌, refl}
use armoni_k_api.Common.Outcome.{map_ok}
use armoni_k_api.Rpc.Calls.{RequestError, grpc, Call, then_result, finish}
use armoni_k_api.Rpc.Unary.{call_served}
use armoni_k_api.Server.Versions.{VersionsWire, VersionsService, serve}
use armoni_k_api.Client.Versions as Client
use armoni_k_api.Client.Versions.Calls as Calls
use armoni_k_api.Objects.Versions.{Versions, versions_into, versions_from, versions_back}

-- A call of the client with its arguments, and what it can return.
pub data VersionsCall : Type 0 where
  list : VersionsCall

pub data VersionsAnswer : Type 0 where
  listed : Versions → VersionsAnswer

module _ {S : Type 0} (stub : VersionsWire S) where
  unfoldable pub perform : VersionsCall → Call S RequestError VersionsAnswer
  perform VersionsCall.list = then_result (map_ok listed) (Client.list stub)

module _ {S Context : Type 0} (service : VersionsService S Context) (context : Context) where
  -- The handler of the call, run once on the arguments, with its error wrapped.
  unfoldable pub handle : VersionsCall → Call S RequestError VersionsAnswer
  handle VersionsCall.list = finish listed grpc (service.list tt context)

  -- The same for the client of versions.
  pub perform-serve_versions :
      (call : VersionsCall) (s : S) → perform (serve service context) call s ≡ handle call s
  unfolding perform handle serve Client.list Calls.list
  perform-serve_versions VersionsCall.list s =
      call_served (λ u. u) (λ u. u) versions_into versions_from (λ _. refl) versions_back listed
        service.list context tt s
