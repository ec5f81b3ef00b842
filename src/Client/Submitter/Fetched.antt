-- ===== src/Client/Submitter/Fetched.antt =====
-- packages/rust/armonik/src/client/submitter.rs: `try_get_result`, against the server of
-- packages/rust/armonik/src/server/submitter.rs.
use armoni_k_api.Common.{String, ◌≡◌, refl, ap, List, map}
use armoni_k_api.Common.Outcome.{Result, ok, err, map_err, map_ok}
use armoni_k_api.Objects.Submitter.TryGetResult.{
  ResultRequest, V3ResultRequest, result_request_into, result_request_from, ResultReply,
  V3ResultReply, reply_into, reply_from, reply_back,
}
use armoni_k_api.Rpc.Calls.{Status, RequestError, grpc, Call, finish}
use armoni_k_api.Rpc.Streams.{stream_server, client_stream, client_stream_back}

module _ {S : Type 0} where
  unfoldable pub try_get_result :
      (V3ResultRequest → Call S Status (List (Result V3ResultReply Status)))
      → String
      → String
      → Call S RequestError (List (Result ResultReply RequestError))
  try_get_result stub session id =
      let request : ResultRequest = record { session_id = session; result_id = id } in
      finish (client_stream reply_from) grpc (stub (result_request_into request))

received :
    (reply : Result (List (Result ResultReply Status)) Status)
    → map_ok (client_stream reply_from) (map_err grpc (map_ok (map (map_ok reply_into)) reply))
      ≡ map_ok (map (map_err grpc)) (map_err grpc reply)
received (ok items) = ap ok (client_stream_back reply_into reply_from reply_back items)
received (err e) = refl

module _ {S Context : Type 0} (context : Context) where
  -- `try_get_result` against a server runs the handler once, on the session and the result that were
  -- given, and the client gets its very replies in order, with every error, of the stream or of the
  -- call, wrapped.
  pub try_get_result-stream_server :
      (handler : ResultRequest → Context → Call S Status (List (Result ResultReply Status)))
      (session id : String) (s : S)
      → let request : ResultRequest = record { session_id = session; result_id = id } in
        try_get_result
          (λ w. stream_server result_request_from reply_into handler w context)
          session
          id
          s
        ≡ finish (map (map_err grpc)) grpc (handler request context) s
  unfolding try_get_result stream_server result_request_into result_request_from
  try_get_result-stream_server handler session id s =
      let reply = handler (record { session_id = session; result_id = id }) context s in
      ap (λ r. (r, reply.1)) (received reply.0)
