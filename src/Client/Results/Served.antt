-- ===== src/Client/Results/Served.antt =====
-- Lists, uploads and downloads against the server of packages/rust/armonik/src/server/results.rs.
use armoni_k_api.Common.{ℤ, String, ◌≡◌, refl, sym, ap, ◌∙◌, fun_ext, List, ◌∷◌, map, map-map}
use armoni_k_api.Common.Outcome.{Result, ok, err, map_err, map_ok}
use armoni_k_api.Objects.Convert.{to_option}
use armoni_k_api.Objects.DataChunk.{Bytes}
use armoni_k_api.Objects.Results.Raw.{Raw, raw_into, raw_of, raw_from-raw_into}
use armoni_k_api.Objects.Results.Upload.{
  Request, identifier, V3Request, request_into, request_from, request_from-request_into,
  upload_requests, DownloadRequest, download_into, download_from, DownloadResponse, chunk_into,
}
use armoni_k_api.Objects.Filters.Formula.{FieldFilter}
use armoni_k_api.Objects.Results.Field.{Field}
use armoni_k_api.Objects.Results.Filter.{ResultCondition}
use armoni_k_api.Objects.Results.ListResults.{
  Sort, ListRequest, ListResponse, list_request_into, list_request_from, list_response_into,
  list_response_from, list_request_back, list_response_back,
}
use armoni_k_api.Rpc.Calls.{Status, RequestError, grpc, Call, finish}
use armoni_k_api.Rpc.Streams.{Delivers, stream_client, stream_server}
use armoni_k_api.Rpc.Unary.{client_call, unary, client_call-unary}
use armoni_k_api.Rpc.Delivery.{read, read-Delivers, client_call-stream_client}
use armoni_k_api.Client.Results.{upload_stream, upload, download_item, download, list}

-- The stream that is built by hand is the converted stream of the requests.
upload_stream-eq :
    (session result : String) (chunks : List Bytes)
    → upload_stream session result chunks ≡ map request_into (upload_requests session result chunks)
unfolding upload_stream upload_requests
upload_stream-eq session result chunks =
    ap (λ l. request_into (identifier session result) ∷ l)
      (sym (map-map request_into Request.data_chunk chunks))

-- What the client gets for an item of the handler: its chunk, or its error.
abbrev pub returned_item : Result DownloadResponse Status → Result Bytes RequestError
returned_item item = map_err grpc (map_ok (λ r. r.data_chunk) item)

sent_item :
    (item : Result DownloadResponse Status)
    → download_item (map_ok chunk_into item) ≡ returned_item item
unfolding download_item chunk_into
sent_item (ok r) = refl
sent_item (err e) = refl

sent_reply :
    (reply : Result (List (Result DownloadResponse Status)) Status)
    → map_ok (map download_item) (map_err grpc (map_ok (map (map_ok chunk_into)) reply))
      ≡ map_ok (map returned_item) (map_err grpc reply)
sent_reply (ok items) =
    ap ok
      (map-map download_item (map_ok chunk_into) items ∙ ap (λ f. map f items) (fun_ext sent_item))
sent_reply (err e) = refl

module _ {S Context : Type 0} (context : Context) where
  -- `upload` against a server, over a network that delivers a first part of a stream in order: the
  -- handler runs once, on what is delivered of the identifier of the result and then the chunks in
  -- order, and the client gets the metadata that it returns, or its error.
  pub upload-stream_client :
      (network : List V3Request → List (Result V3Request Status))
      (delivers : (sent : List V3Request) → Delivers sent (network sent))
      (handler : List (Result Request Status) → Context → Call S Status Raw)
      (session result : String) (chunks : List Bytes) (s : S)
      → (received : List (Result Request Status)) × Delivers
          (upload_requests session result chunks)
          received
        × (upload
              (λ sent.
                stream_client request_from (to_option raw_into) handler (network sent) context)
              session
              result
              chunks
              s
            ≡ (map_err grpc (handler received context s).0, (handler received context s).1))
  unfolding upload client_call
  upload-stream_client network delivers handler session result chunks s = (
    read request_into request_from network (upload_requests session result chunks),
    read-Delivers request_into request_from network request_from-request_into delivers
        (upload_requests session result chunks),
    ap
          (λ stream.
            finish raw_of grpc
              (stream_client request_from (to_option raw_into) handler (network stream) context) s)
          (upload_stream-eq session result chunks)
        ∙ client_call-stream_client request_into request_from (to_option raw_into) raw_of
            raw_from-raw_into network handler context (upload_requests session result chunks) s,
  )

  -- `download` against a server runs the handler once, on the session and the result that were given,
  -- and the client gets the chunks of its stream in order, with every error, of the stream or of the
  -- call, wrapped.
  pub download-stream_server :
      (handler : DownloadRequest → Context → Call S Status (List (Result DownloadResponse Status)))
      (session result : String) (s : S)
      → let request : DownloadRequest = record { session_id = session; result_id = result } in
        download (λ w. stream_server download_from chunk_into handler w context) session result s
        ≡ finish (map returned_item) grpc (handler request context) s
  unfolding download stream_server download_into download_from
  download-stream_server handler session result s =
      let reply = handler (record { session_id = session; result_id = result }) context s in
      ap (λ r. (r, reply.1)) (sent_reply reply.0)

  -- `list` against a server runs the handler once, on the page, the sort and the filters that were
  -- given, with an alternative for each list of conditions, and the client gets its answer, or its
  -- error.
  pub list-unary :
      (handler : ListRequest → Context → Call S Status ListResponse)
      (filters : List (List (FieldFilter Field ResultCondition))) (sort : Sort) (page page_size : ℤ)
      (s : S)
      → let request : ListRequest = record {
        page = page;
        page_size = page_size;
        filters = record { disjuncts = map (λ and. record { conjuncts = and }) filters };
        sort = sort;
      } in
        list
          (λ w. unary list_request_from list_response_into handler w context)
          filters
          sort
          page
          page_size
          s
        ≡ (map_err grpc (handler request context s).0, (handler request context s).1)
  unfolding list
  list-unary handler filters sort page page_size s =
      client_call-unary list_request_into list_request_from list_response_into list_response_from
        list_request_back list_response_back handler context
        (record {
          page = page;
          page_size = page_size;
          filters = record { disjuncts = map (λ and. record { conjuncts = and }) filters };
          sort = sort;
        })
        s
