-- ===== src/Client/Streams.antt =====
-- The calls of packages/rust/armonik/src/client that are answered with a stream, against the servers of
-- packages/rust/armonik/src/server, over a network that may break. tonic ends a stream at its first
-- error.
use armoni_k_api.Common.{String, ◌≡◌, refl, ap, sym, ◌∙◌, fun_ext, List, map, map-map}
use armoni_k_api.Common.Outcome.{Result, ok, err, map_ok, map_err}
use armoni_k_api.Objects.Enums.EventsEnum as EventCodes
use armoni_k_api.Objects.Filters.Formula.{FieldFilter}
use armoni_k_api.Objects.Tasks.Field as TaskFields
use armoni_k_api.Objects.Tasks.Filter as TaskFilters
use armoni_k_api.Objects.Results.Field as ResultFields
use armoni_k_api.Objects.Results.Filter as ResultFilters
use armoni_k_api.Objects.Results.Upload.{
  DownloadRequest, DownloadResponse, V3DownloadResponse, download_into, download_from, chunk_into,
}
use armoni_k_api.Objects.Submitter.TryGetResult.{
  ResultRequest, result_request_into, result_request_from, ResultReply, V3ResultReply, reply_into,
  reply_from, reply_back,
}
use armoni_k_api.Objects.Events.Subscribe.{
  subscribe_into, subscribe_from, subscribe_back, Event, V3Event, event_into, event_from,
  event_back,
}
use armoni_k_api.Rpc.Calls.{Status, grpc, Call}
use armoni_k_api.Rpc.Streams.{stream_server}
use armoni_k_api.Rpc.Replies.{Answers, convert, Answers-back, over, client_stream-over}
use armoni_k_api.Client.Results.{download_item, download}
use armoni_k_api.Client.Results.Served.{returned_item}
use armoni_k_api.Client.Submitter.Fetched.{try_get_result}
use armoni_k_api.Server.Events.{EventsService, serve}
use armoni_k_api.Client.Events.{subscription, subscribe}

abbrev chunk_from : V3DownloadResponse → DownloadResponse
chunk_from w = record { data_chunk = w.data_chunk }

chunk_item :
    (item : Result V3DownloadResponse Status)
    → download_item item ≡ returned_item (map_ok chunk_from item)
unfolding download_item
chunk_item (ok w) = refl
chunk_item (err e) = refl

chunks :
    (reply : Result (List (Result V3DownloadResponse Status)) Status)
    → map_ok (map download_item) (map_err grpc reply)
      ≡ map_ok (map returned_item) (map_err grpc (convert chunk_from reply))
chunks (ok items) = ap ok (
    ap (λ f. map f items) (fun_ext chunk_item)
    ∙ sym (map-map returned_item (map_ok chunk_from) items))
chunks (err e) = refl

module _ {S Context : Type 0} (context : Context) where
  -- A download against a server, over a network that ends a stream at its first error and may break
  -- it: the handler runs once, on the session and the result that were given, and the client gets, of
  -- the chunks of its stream, those that arrive, in order, with every error wrapped.
  pub download-over :
      (carry : Result (List (Result V3DownloadResponse Status)) Status
        → Result (List (Result V3DownloadResponse Status)) Status)
      (answers : (sent : Result (List (Result V3DownloadResponse Status)) Status)
        → Answers sent (carry sent))
      (handler : DownloadRequest → Context → Call S Status (List (Result DownloadResponse Status)))
      (session result : String) (s : S)
      → let reply = handler (record { session_id = session; result_id = result }) context s in
        (received : Result (List (Result DownloadResponse Status)) Status) × Answers reply.0
          received
        × (download
              (over carry (λ w. stream_server download_from chunk_into handler w context))
              session
              result
              s
            ≡ (map_ok (map returned_item) (map_err grpc received), reply.1))
  unfolding download over stream_server download_into download_from chunk_into
  download-over carry answers handler session result s =
      let reply = handler (record { session_id = session; result_id = result }) context s in
      let arrived = carry (convert chunk_into reply.0) in
      (
        convert chunk_from arrived,
        Answers-back chunk_into chunk_from (λ _. refl) reply.0 arrived
            (answers (convert chunk_into reply.0)),
        ap (λ r. (r, reply.1)) (chunks arrived),
      )

  -- `try_get_result` against a server, over a network that ends a stream at its first error and may
  -- break it: the handler runs once, on the session and the result that were given, and the client
  -- gets, of its very replies, those that arrive, in order, with every error wrapped.
  pub try_get_result-over :
      (carry : Result (List (Result V3ResultReply Status)) Status
        → Result (List (Result V3ResultReply Status)) Status)
      (answers : (sent : Result (List (Result V3ResultReply Status)) Status)
        → Answers sent (carry sent))
      (handler : ResultRequest → Context → Call S Status (List (Result ResultReply Status)))
      (session id : String) (s : S)
      → let reply = handler (record { session_id = session; result_id = id }) context s in
        (received : Result (List (Result ResultReply Status)) Status) × Answers reply.0 received
        × (try_get_result
              (over carry (λ w. stream_server result_request_from reply_into handler w context))
              session
              id
              s
            ≡ (map_ok (map (map_err grpc)) (map_err grpc received), reply.1))
  unfolding try_get_result
  try_get_result-over carry answers handler session id s =
      client_stream-over result_request_into result_request_from
        (unfold result_request_into result_request_from in λ _. refl) reply_into reply_from
        reply_back carry answers handler context (record { session_id = session; result_id = id }) s

  -- A subscription against a server, over a network that ends a stream at its first error and may
  -- break it: the handler runs once, on the session, the filters and the kinds of event that were
  -- given, with an alternative for each list of conditions, and the client gets, of its very events,
  -- those that arrive, in order, with every error wrapped.
  pub subscribe-over :
      (carry : Result (List (Result V3Event Status)) Status
        → Result (List (Result V3Event Status)) Status)
      (answers : (sent : Result (List (Result V3Event Status)) Status) → Answers sent (carry sent))
      (service : EventsService S Context) (session_id : String)
      (task_filters : List (List (FieldFilter TaskFields.Field TaskFilters.TaskCondition)))
      (result_filters : List (List (FieldFilter ResultFields.Field ResultFilters.ResultCondition)))
      (returned_events : List EventCodes.EventsEnum) (s : S)
      → let reply =
          service.subscribe
            (subscription session_id task_filters result_filters returned_events)
            context
            s in
        (received : Result (List (Result Event Status)) Status) × Answers reply.0 received
        × (subscribe
              (record { get_events = over carry (serve service context).get_events })
              session_id
              task_filters
              result_filters
              returned_events
              s
            ≡ (map_ok (map (map_err grpc)) (map_err grpc received), reply.1))
  unfolding subscribe serve
  subscribe-over carry answers service session_id task_filters result_filters returned_events s =
      client_stream-over subscribe_into subscribe_from subscribe_back event_into event_from
        event_back carry answers service.subscribe context
        (subscription session_id task_filters result_filters returned_events) s
