-- ===== src/Client/Agent/Streamed.antt =====
-- packages/rust/armonik/src/client/agent.rs: the tasks that a worker creates by a stream of requests,
-- against the server of packages/rust/armonik/src/server/agent.rs.
use armoni_k_api.Common.{◌≡◌, ap, List, map}
use armoni_k_api.Common.Outcome.{Result, ok, err, map_err, ◌>>=◌}
use armoni_k_api.Objects.Agent.CreateTasks as CreateTasks
use armoni_k_api.Objects.Agent.CreateTasks.{
  Request, V3Request, request_into, request_from, request_from-request_into, Response, V3Response,
  response_into, response_from, response_from-response_into,
}
use armoni_k_api.Rpc.Calls.{Status, RequestError, grpc, Call, then_result}
use armoni_k_api.Rpc.Streams.{Delivers}
use armoni_k_api.Rpc.Unary.{client_call}
use armoni_k_api.Rpc.Delivery.{read, read-Delivers, client_call-stream_client}
use armoni_k_api.Server.Agent.{AgentService, serve}
use armoni_k_api.Client.Submitter.{internal_error}

-- The `match response` of `create_tasks`: the token is dropped.
unfoldable pub judge_tasks : Response → Result (List CreateTasks.Status) RequestError
judge_tasks (Response.statuses _ l) = ok l
judge_tasks (Response.error _ msg) = err (internal_error msg)

module _ {S : Type 0} where
  -- The stub takes the stream of the converted requests.
  unfoldable pub create_tasks :
      (List V3Request → Call S Status V3Response)
      → List Request
      → Call S RequestError (List CreateTasks.Status)
  create_tasks stub requests =
      then_result (λ r. r >>= judge_tasks)
        (client_call (map request_into) response_from stub requests)

module _ {S Context : Type 0} (service : AgentService S Context) (context : Context) where
  -- `create_tasks` of the agent against a server, over a network that delivers a first part of a stream
  -- in order: the handler runs once, on what is delivered of the very requests, and its answer is judged.
  pub create_tasks-serve :
      (network : List V3Request → List (Result V3Request Status))
      (delivers : (sent : List V3Request) → Delivers sent (network sent)) (requests : List Request)
      (s : S)
      → (received : List (Result Request Status)) × Delivers requests received
        × (create_tasks (λ sent. (serve service context).create_task (network sent)) requests s ≡ (
          map_err grpc (service.create_tasks received context s).0 >>= judge_tasks,
          (service.create_tasks received context s).1,
        ))
  unfolding create_tasks serve
  create_tasks-serve network delivers requests s = (
    read request_into request_from network requests,
    read-Delivers request_into request_from network request_from-request_into delivers requests,
    ap (λ c. (c.0 >>= judge_tasks, c.1))
        (client_call-stream_client request_into request_from response_into response_from
          response_from-response_into network service.create_tasks context requests s),
  )
