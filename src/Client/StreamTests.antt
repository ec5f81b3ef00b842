-- ===== src/Client/StreamTests.antt =====
-- The theorems on streams of answers at a concrete network.
use armoni_k_api.Common.{ℕ, suc, String, ◌≡◌, List, [], ◌∷◌, map}
use armoni_k_api.Common.Outcome.{Result, ok, err, map_ok, map_err}
use armoni_k_api.Objects.Enums.EventsEnum as EventCodes
use armoni_k_api.Objects.Results.Upload as Upload
use armoni_k_api.Objects.Submitter.TryGetResult.{
  ResultRequest, result_request_from, ResultReply, not_completed, reply_into,
}
use armoni_k_api.Objects.Events.Subscribe.{Event}
use armoni_k_api.Rpc.Calls.{Status, grpc, Call}
use armoni_k_api.Rpc.Streams.{stream_server}
use armoni_k_api.Rpc.Replies.{
  Forwards, Answers, ended, failed, broken, arrived, refused, streamed, over,
}
use armoni_k_api.Server.Events as EventsServer
use armoni_k_api.Client.Results.{download}
use armoni_k_api.Client.Results.Served.{returned_item}
use armoni_k_api.Client.Submitter.Fetched.{try_get_result}
use armoni_k_api.Client.Events.{subscribe}
use armoni_k_api.Client.Streams.{download-over, try_get_result-over, subscribe-over}
use armoni_k_api.Client.Handlers.{event_handlers, finished, lost_stream}

-- A network that breaks after the first item of a stream.
abbrev first_item {ℓ} : {A : Type ℓ} → List (Result A Status) → List (Result A Status)
first_item [] = []
first_item (err e ∷ rest) = err e ∷ []
first_item (ok a ∷ rest) = ok a ∷ err lost_stream ∷ []

first_item-Forwards : {A : Type 0} (sent : List (Result A Status)) → Forwards sent (first_item sent)
first_item-Forwards [] = ended
first_item-Forwards (err e ∷ rest) = failed e rest
first_item-Forwards (ok a ∷ rest) = arrived a (broken rest lost_stream)

abbrev breaking {ℓ} :
    {A : Type ℓ} → Result (List (Result A Status)) Status → Result (List (Result A Status)) Status
breaking = map_ok first_item

breaking-Answers :
    {A : Type 0} (sent : Result (List (Result A Status)) Status) → Answers sent (breaking sent)
breaking-Answers (ok sent) = streamed (first_item-Forwards sent)
breaking-Answers (err e) = refused e

-- Handlers with two items, that count their calls.
abbrev chunk_pair : List (Result Upload.DownloadResponse Status)
chunk_pair = ok (record { data_chunk = 1 ∷ 2 ∷ [] }) ∷ ok (record { data_chunk = 3 ∷ [] }) ∷ []

abbrev download_handler :
    Upload.DownloadRequest → String → Call ℕ Status (List (Result Upload.DownloadResponse Status))
download_handler _ _ n = (ok chunk_pair, suc n)

download-over_example :
    (received : Result (List (Result Upload.DownloadResponse Status)) Status) × Answers
      (ok chunk_pair)
      received
    × (download
          (over breaking (λ w.
            stream_server Upload.download_from Upload.chunk_into download_handler w "context"))
          "session"
          "result"
          0
        ≡ (map_ok (map returned_item) (map_err grpc received), 1))
download-over_example =
    download-over "context" breaking breaking-Answers download_handler "session" "result" 0

abbrev fetch_handler : ResultRequest → String → Call ℕ Status (List (Result ResultReply Status))
fetch_handler request _ n =
    (ok (ok (not_completed request.result_id) ∷ err lost_stream ∷ []), suc n)

try_get_result-over_example :
    (received : Result (List (Result ResultReply Status)) Status) × Answers
      (ok (ok (not_completed "result") ∷ err lost_stream ∷ []))
      received
    × (try_get_result
          (over breaking
            (λ w. stream_server result_request_from reply_into fetch_handler w "context"))
          "session"
          "result"
          0
        ≡ (map_ok (map (map_err grpc)) (map_err grpc received), 1))
try_get_result-over_example =
    try_get_result-over "context" breaking breaking-Answers fetch_handler "session" "result" 0

subscribe-over_example :
    (received : Result (List (Result Event Status)) Status) × Answers
      (ok (ok finished ∷ err lost_stream ∷ []))
      received
    × (subscribe
          (record { get_events = over breaking (EventsServer.serve event_handlers tt).get_events })
          "s1"
          ([] ∷ [])
          []
          (EventCodes.EventsEnum.task_status_update ∷ [])
          0
        ≡ (map_ok (map (map_err grpc)) (map_err grpc received), 1))
subscribe-over_example =
    subscribe-over tt breaking breaking-Answers event_handlers "s1" ([] ∷ []) []
      (EventCodes.EventsEnum.task_status_update ∷ []) 0
