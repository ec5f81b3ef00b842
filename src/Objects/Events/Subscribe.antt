-- ===== src/Objects/Events/Subscribe.antt =====
-- packages/rust/armonik/src/objects/events/subscribe.rs: the request for events, and an event.
use armoni_k_api.Common.{ℤ, String, ◌≡◌, Option, some, List, [], map, unwrap_or}
use armoni_k_api.Objects.Convert.{into_collect, list-retract}
use armoni_k_api.Objects.Enums.EventsEnum as EventCodes
use armoni_k_api.Objects.Tasks.Filter as TaskFilters
use armoni_k_api.Objects.Results.Filter as ResultFilters
use armoni_k_api.Objects.Events.Update.{Update, V3Update, update_into, update_from, update_back}

pub record SubscribeRequest : Type 0 where
  pub session_id : String
  pub task_filters : TaskFilters.TaskFilter
  pub result_filters : ResultFilters.ResultFilter
  pub returned_events : List EventCodes.EventsEnum

-- `v3::events::EventSubscriptionRequest`
pub record V3SubscribeRequest : Type 0 where
  pub session_id : String
  pub tasks_filters : Option TaskFilters.V3TaskFilter
  pub results_filters : Option ResultFilters.V3ResultFilter
  pub returned_events : List ℤ

unfoldable pub subscribe_into : SubscribeRequest → V3SubscribeRequest
subscribe_into r = record {
  session_id = r.session_id;
  tasks_filters = some (TaskFilters.filters_into r.task_filters);
  results_filters = some (ResultFilters.filters_into r.result_filters);
  returned_events = map EventCodes.as_i32 r.returned_events;
}

-- Filters that are absent are read as the empty message.
unfoldable pub subscribe_from : V3SubscribeRequest → SubscribeRequest
subscribe_from w = record {
  session_id = w.session_id;
  task_filters = TaskFilters.filters_from (unwrap_or (record { disjuncts = [] }) w.tasks_filters);
  result_filters =
      ResultFilters.filters_from (unwrap_or (record { disjuncts = [] }) w.results_filters);
  returned_events = into_collect EventCodes.from_i32 w.returned_events;
}

pub subscribe_back : (r : SubscribeRequest) → subscribe_from (subscribe_into r) ≡ r
unfolding subscribe_from subscribe_into
subscribe_back r = λ i. record {
  session_id = r.session_id;
  task_filters = TaskFilters.filters_back r.task_filters i;
  result_filters = ResultFilters.filters_back r.result_filters i;
  returned_events =
      list-retract EventCodes.as_i32 EventCodes.from_i32 EventCodes.coded.known r.returned_events i;
}

pub record Event : Type 0 where
  pub session_id : String
  pub update : Update

pub record V3Event : Type 0 where
  pub session_id : String
  pub update : V3Update

unfoldable pub event_into : Event → V3Event
event_into r = record { session_id = r.session_id; update = update_into r.update }

unfoldable pub event_from : V3Event → Event
event_from w = record { session_id = w.session_id; update = update_from w.update }

pub event_back : (r : Event) → event_from (event_into r) ≡ r
unfolding event_from event_into
event_back r = λ i. record { session_id = r.session_id; update = update_back r.update i }
