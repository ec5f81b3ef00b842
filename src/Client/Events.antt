-- ===== src/Client/Events.antt =====
-- packages/rust/armonik/src/client/events.rs: the subscription to the events of a session, against the
-- server of packages/rust/armonik/src/server/events.rs.
use armoni_k_api.Common.{String, ◌≡◌, refl, ap, List, map}
use armoni_k_api.Common.Outcome.{Result, ok, err, map_ok, map_err}
use armoni_k_api.Objects.Enums.EventsEnum as EventCodes
use armoni_k_api.Objects.Filters.Formula.{FieldFilter}
use armoni_k_api.Objects.Tasks.Field as TaskFields
use armoni_k_api.Objects.Tasks.Filter as TaskFilters
use armoni_k_api.Objects.Results.Field as ResultFields
use armoni_k_api.Objects.Results.Filter as ResultFilters
use armoni_k_api.Objects.Events.Subscribe.{
  SubscribeRequest, subscribe_into, subscribe_back, Event, event_into, event_from, event_back,
}
use armoni_k_api.Rpc.Calls.{Status, RequestError, grpc, Call, finish}
use armoni_k_api.Rpc.Streams.{stream_server, client_stream, client_stream_back}
use armoni_k_api.Server.Events.{EventsWire, EventsService, serve}

-- The filters are given as lists of lists, each of which becomes an alternative.
abbrev pub subscription :
    String
    → List (List (FieldFilter TaskFields.Field TaskFilters.TaskCondition))
    → List (List (FieldFilter ResultFields.Field ResultFilters.ResultCondition))
    → List EventCodes.EventsEnum
    → SubscribeRequest
subscription session_id task_filters result_filters returned_events = record {
  session_id = session_id;
  task_filters = TaskFilters.alternatives task_filters;
  result_filters = record { disjuncts = map (λ and. record { conjuncts = and }) result_filters };
  returned_events = returned_events;
}

module _ {S : Type 0} (stub : EventsWire S) where
  unfoldable pub subscribe :
      String
      → List (List (FieldFilter TaskFields.Field TaskFilters.TaskCondition))
      → List (List (FieldFilter ResultFields.Field ResultFilters.ResultCondition))
      → List EventCodes.EventsEnum
      → Call S RequestError (List (Result Event RequestError))
  subscribe session_id task_filters result_filters returned_events =
      finish (client_stream event_from) grpc (
        stub.get_events
          (subscribe_into (subscription session_id task_filters result_filters returned_events)))

received :
    (reply : Result (List (Result Event Status)) Status)
    → map_ok (client_stream event_from) (map_err grpc (map_ok (map (map_ok event_into)) reply))
      ≡ map_ok (map (map_err grpc)) (map_err grpc reply)
received (ok items) = ap ok (client_stream_back event_into event_from event_back items)
received (err e) = refl

module _ {S Context : Type 0} (service : EventsService S Context) (context : Context) where
  -- A subscription against a server runs the handler once, on the session, the filters and the kinds of
  -- event that were given, with an alternative for each list of conditions, and the client gets its very
  -- events in order, with every error, of the stream or of the call, wrapped.
  pub subscribe-serve :
      (session_id : String)
      (task_filters : List (List (FieldFilter TaskFields.Field TaskFilters.TaskCondition)))
      (result_filters : List (List (FieldFilter ResultFields.Field ResultFilters.ResultCondition)))
      (returned_events : List EventCodes.EventsEnum) (s : S)
      → subscribe (serve service context) session_id task_filters result_filters returned_events s
        ≡ finish
            (map (map_err grpc))
            grpc
            (service.subscribe
              (subscription session_id task_filters result_filters returned_events)
              context)
            s
  unfolding subscribe serve stream_server
  subscribe-serve session_id task_filters result_filters returned_events s =
      let request = subscription session_id task_filters result_filters returned_events in
      let reply = service.subscribe request context s in
      rw (subscribe_back request) (ap (λ r. (r, reply.1)) (received reply.0))
