-- ===== src/Client/ServiceTests.antt =====
-- The theorems on whole services at concrete handlers.
use armoni_k_api.Common.{◌≡◌, [], ◌∷◌, map}
use armoni_k_api.Common.Outcome.{map_err}
use armoni_k_api.Rpc.Calls.{finish, grpc}
use armoni_k_api.Server.Sessions as SessionsServer
use armoni_k_api.Server.Tasks as TasksServer
use armoni_k_api.Server.Results as ResultsServer
use armoni_k_api.Server.Submitter as SubmitterServer
use armoni_k_api.Server.Agent as AgentServer
use armoni_k_api.Client.Sessions.Served as Sessions
use armoni_k_api.Client.Tasks.Served as Tasks
use armoni_k_api.Client.Results.Answered as Results
use armoni_k_api.Client.Submitter.Asked as Submitter
use armoni_k_api.Client.Submitter.Answered.{perform-serve_submitter}
use armoni_k_api.Client.Agent.Served as Agent
use armoni_k_api.Objects.Enums.EventsEnum as EventCodes
use armoni_k_api.Server.Events as EventsServer
use armoni_k_api.Client.Events.{subscription, subscribe, subscribe-serve}
use armoni_k_api.Client.Partitions.Served as Partitions
use armoni_k_api.Server.Partitions as PartitionsServer
use armoni_k_api.Client.Handlers.{
  partition_handlers, in_order, session_handlers, task_handlers, one_session, submitter_handlers,
  result_handlers, event_handlers,
}

perform-serve_sessions_example :
    Sessions.perform
      (SessionsServer.serve session_handlers tt)
      (Sessions.SessionsCall.cancel "s1")
      4
    ≡ Sessions.handle session_handlers tt (Sessions.SessionsCall.cancel "s1") 4
perform-serve_sessions_example =
    Sessions.perform-serve_sessions session_handlers tt (Sessions.SessionsCall.cancel "s1") 4

perform-serve_tasks_example :
    Tasks.perform
      (TasksServer.serve in_order task_handlers tt)
      (Tasks.TasksCall.get_result_ids ("t1" ∷ []))
      0
    ≡ Tasks.handle in_order task_handlers tt (Tasks.TasksCall.get_result_ids ("t1" ∷ [])) 0
perform-serve_tasks_example =
    Tasks.perform-serve_tasks in_order task_handlers tt (Tasks.TasksCall.get_result_ids ("t1" ∷ []))
      0

perform-serve_submitter_example :
    Submitter.perform
      (SubmitterServer.serve in_order submitter_handlers tt)
      (Submitter.SubmitterCall.count_tasks one_session)
      0
    ≡ Submitter.handle in_order submitter_handlers tt
        (Submitter.SubmitterCall.count_tasks one_session)
        0
perform-serve_submitter_example =
    perform-serve_submitter in_order submitter_handlers tt
      (Submitter.SubmitterCall.count_tasks one_session) 0

perform-serve_results_example :
    Results.perform in_order
      (ResultsServer.serve in_order result_handlers tt)
      (Results.ResultsCall.import "s1" (("r1", 7 ∷ []) ∷ []))
      0
    ≡ Results.handle in_order result_handlers tt
        (Results.ResultsCall.import "s1" (("r1", 7 ∷ []) ∷ []))
        0
perform-serve_results_example =
    Results.perform-serve_results in_order result_handlers tt
      (Results.ResultsCall.import "s1" (("r1", 7 ∷ []) ∷ [])) 0

subscribe-serve_example :
    subscribe
      (EventsServer.serve event_handlers tt)
      "s1"
      ([] ∷ [])
      []
      (EventCodes.EventsEnum.task_status_update ∷ [])
      0
    ≡ finish
        (map (map_err grpc))
        grpc
        (event_handlers.subscribe
          (subscription "s1" ([] ∷ []) [] (EventCodes.EventsEnum.task_status_update ∷ []))
          tt)
        0
subscribe-serve_example =
    subscribe-serve event_handlers tt "s1" ([] ∷ []) []
      (EventCodes.EventsEnum.task_status_update ∷ []) 0

perform-serve_partitions_example :
    Partitions.perform
      (PartitionsServer.serve partition_handlers tt)
      (Partitions.PartitionsCall.get "p1")
      2
    ≡ Partitions.handle partition_handlers tt (Partitions.PartitionsCall.get "p1") 2
perform-serve_partitions_example =
    Partitions.perform-serve_partitions partition_handlers tt (Partitions.PartitionsCall.get "p1") 2
