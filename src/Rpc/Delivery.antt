-- ===== src/Rpc/Delivery.antt =====
-- A client that sends a stream to a server of the crate, through a network that may break.
use armoni_k_api.Common.{◌≡◌, ap, subst, List, map, map-map_retract}
use armoni_k_api.Common.Outcome.{Result, map_err, map_ok}
use armoni_k_api.Rpc.Calls.{Status, RequestError, grpc, Call}
use armoni_k_api.Rpc.Unary.{client_call, back_ok}
use armoni_k_api.Rpc.Streams.{Delivers, Delivers-map, stream_client}

module _ {Req V3Req : Type 0} (req_into : Req → V3Req) (req_from : V3Req → Req)
    (network : List V3Req → List (Result V3Req Status)) where
  -- What the handler reads of a stream of requests.
  abbrev pub read : List Req → List (Result Req Status)
  read requests = map (map_ok req_from) (network (map req_into requests))

  module _ (req_back : (r : Req) → req_from (req_into r) ≡ r)
      (delivers : (sent : List V3Req) → Delivers sent (network sent)) where
    pub read-Delivers : (requests : List Req) → Delivers requests (read requests)
    read-Delivers requests =
        subst (λ l. Delivers l (read requests))
          (map-map_retract req_into req_from req_back requests)
          (Delivers-map req_from (delivers (map req_into requests)))

module _ {S Req Resp V3Req V3Resp Context : Type 0} (req_into : Req → V3Req)
    (req_from : V3Req → Req) (resp_into : Resp → V3Resp) (resp_from : V3Resp → Resp)
    (resp_back : (r : Resp) → resp_from (resp_into r) ≡ r)
    (network : List V3Req → List (Result V3Req Status)) where
  pub client_call-stream_client :
      (handler : List (Result Req Status) → Context → Call S Status Resp) (context : Context)
      (requests : List Req) (s : S)
      → let received = read req_into req_from network requests in
        client_call
          (map req_into)
          resp_from
          (λ sent. stream_client req_from resp_into handler (network sent) context)
          requests
          s
        ≡ (map_err grpc (handler received context s).0, (handler received context s).1)
  unfolding client_call stream_client
  client_call-stream_client handler context requests s =
      let received = read req_into req_from network requests in
      ap (λ (r : Result Resp RequestError). (r, (handler received context s).1))
        (back_ok resp_into resp_from resp_back (handler received context s).0)
