-- ===== src/Client/Handlers.antt =====
-- Concrete handlers for the services of packages/rust/armonik/src/server. The state of the cluster is
-- the number of calls that it has answered.
use armoni_k_api.Common.{ℕ, suc, pos, String, [], ◌∷◌}
use armoni_k_api.Common.Outcome.{ok, err}
use armoni_k_api.Common.HashMap.{Iteration}
use mathlib.Core.List.Permᴰ
use armoni_k_api.Objects.Enums.SessionStatus.{SessionStatus}
use armoni_k_api.Objects.Enums.TaskStatus as TaskCodes
use armoni_k_api.Objects.Count.{Count}
use armoni_k_api.Objects.Results.Raw as ResultRaw
use armoni_k_api.Objects.Results.Import.{ImportResponse}
use armoni_k_api.Objects.Sessions.Raw as SessionRaw
use armoni_k_api.Objects.Submitter.TaskFilter.{TaskFilter, sessions, include}
use armoni_k_api.Objects.Tasks.ResultIds.{ResultIds}
use armoni_k_api.Rpc.Calls.{Status, other, Call}
use armoni_k_api.Server.Sessions as SessionsServer
use armoni_k_api.Server.Tasks as TasksServer
use armoni_k_api.Server.Results as ResultsServer
use armoni_k_api.Server.Submitter as SubmitterServer
use armoni_k_api.Server.Agent as AgentServer
use armoni_k_api.Server.Partitions as PartitionsServer
use armoni_k_api.Objects.Partitions.ListRequests as Partitions
use armoni_k_api.Objects.Events.Update.{task_status_update}
use armoni_k_api.Objects.Events.Subscribe.{Event}
use armoni_k_api.Server.Events as EventsServer

-- Maps that iterate in the order of their entries.
abbrev pub in_order : Iteration
in_order = record { order = λ m. m; permutes = λ m. Permᴰ.refl m }

-- A handler that refuses, and one that answers.
abbrev refuse : {Req Resp : Type 0} → Req → Unit {0} → Call ℕ Status Resp
refuse _ _ s = (err (record { code = other "unavailable"; message = "refused" }), suc s)

abbrev answer : {Req Resp : Type 0} → (Req → Resp) → Req → Unit {0} → Call ℕ Status Resp
answer f r _ s = (ok (f r), suc s)

abbrev cancelled_session : String → SessionRaw.Raw
cancelled_session id = record SessionRaw.default_raw {
  session_id = id;
  status = SessionStatus.cancelled;
}

abbrev pub session_handlers : SessionsServer.SessionsService ℕ (Unit {0})
session_handlers = record {
  list = refuse;
  get = answer (λ r. record { session = cancelled_session r.session_id });
  cancel = answer (λ r. record { session = cancelled_session r.session_id });
  create = refuse;
  pause = refuse;
  resume = refuse;
  close = refuse;
  purge = refuse;
  delete = refuse;
  stop_submission = refuse;
}

-- The results of two tasks.
abbrev pub two_results : ResultIds
two_results = record { task_results = ("t1", "r1" ∷ "r2" ∷ []) ∷ ("t2", []) ∷ [] }

abbrev pub task_handlers : TasksServer.TasksService ℕ (Unit {0})
task_handlers = record {
  list = refuse;
  list_detailed = refuse;
  get = refuse;
  cancel = refuse;
  get_result_ids = answer (λ _. two_results);
  count_status = refuse;
  submit = refuse;
}

-- One finished task and three that wait.
abbrev pub two_counts : Count
two_counts = record {
  values = (TaskCodes.TaskStatus.completed, pos 1) ∷ (TaskCodes.TaskStatus.submitted, pos 3) ∷ [];
}

abbrev pub one_session : TaskFilter
one_session = record {
  ids = sessions ("s1" ∷ []);
  statuses = include (TaskCodes.TaskStatus.completed ∷ []);
}

abbrev pub submitter_handlers : SubmitterServer.SubmitterService ℕ (Unit {0})
submitter_handlers = record {
  get_service_configuration = refuse;
  create_session = refuse;
  cancel_session = refuse;
  create_small_tasks = refuse;
  list_tasks = refuse;
  list_sessions = refuse;
  count_tasks = answer (λ _. two_counts);
  try_get_task_output = refuse;
  wait_for_availability = refuse;
  wait_for_completion = refuse;
  cancel_tasks = refuse;
  task_status = refuse;
  result_status = refuse;
  try_get_result = refuse;
  create_large_tasks = refuse;
}

abbrev pub named_result : ResultRaw.Raw
named_result = record ResultRaw.default_raw { result_id = "r1"; name = "input" }

-- An answer whose key is the identifier of the result.
abbrev misfiled : ImportResponse
misfiled = record { results = ("r1", named_result) ∷ [] }

abbrev pub result_handlers : ResultsServer.ResultsService ℕ (Unit {0})
result_handlers = record {
  list = refuse;
  get = refuse;
  get_owner_task_id = refuse;
  create_metadata = refuse;
  create = refuse;
  import = answer (λ _. misfiled);
  delete_data = refuse;
  get_service_configuration = refuse;
  upload = refuse;
  download = refuse;
}

abbrev pub agent_handlers : AgentServer.AgentService ℕ (Unit {0})
agent_handlers = record {
  create_results_metadata = refuse;
  create_results = refuse;
  notify_result_data = answer (λ r. record { result_ids = r.result_ids });
  submit_tasks = refuse;
  get_resource_data = refuse;
  get_common_data = refuse;
  get_direct_data = refuse;
  create_tasks = refuse;
}

abbrev one_partition : String → Partitions.Raw
one_partition id = record Partitions.default_raw { partition_id = id }

abbrev pub partition_handlers : PartitionsServer.PartitionsService ℕ (Unit {0})
partition_handlers = record {
  list = refuse;
  get = answer (λ r. record { partition = one_partition r.partition_id });
}

abbrev pub finished : Event
finished = record {
  session_id = "s1";
  update = task_status_update (record { task_id = "t1"; status = TaskCodes.TaskStatus.completed });
}

abbrev pub lost_stream : Status
lost_stream = record { code = other "unavailable"; message = "lost" }

-- A handler that tells of one task, and then fails.
abbrev pub event_handlers : EventsServer.EventsService ℕ (Unit {0})
event_handlers = record { subscribe = answer (λ _. ok finished ∷ err lost_stream ∷ []) }
