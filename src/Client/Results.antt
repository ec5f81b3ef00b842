-- ===== src/Client/Results.antt =====
-- packages/rust/armonik/src/client/results.rs: the list of results, and the upload and the
-- download of the data of one.
-- The stub of the service is generated code, the argument `stub`.
pub mod Served
pub mod Calls
pub mod Metadata
pub mod Answered
use armoni_k_api.Common.{ℤ, String, Option, List, ◌∷◌, ◌++◌, [], map}
use armoni_k_api.Common.Outcome.{Result, map_err, map_ok}
use armoni_k_api.Objects.DataChunk.{Bytes}
use armoni_k_api.Objects.Results.Raw.{Raw, V3Raw, raw_of}
use armoni_k_api.Objects.Results.Upload.{
  Request, identifier, data_chunk, V3Request, request_into, V3DownloadRequest, DownloadRequest,
  download_into, V3DownloadResponse,
}
use armoni_k_api.Objects.Filters.Formula.{FieldFilter}
use armoni_k_api.Objects.Results.Field.{Field}
use armoni_k_api.Objects.Results.Filter.{ResultCondition}
use armoni_k_api.Objects.Results.ListResults.{
  Sort, ListRequest, V3ListRequest, ListResponse, V3ListResponse, list_request_into,
  list_response_from,
}
use armoni_k_api.Rpc.Unary.{client_call}
use armoni_k_api.Rpc.Calls.{Status, RequestError, grpc, Call, finish}

-- The chain of a stream of one identifier and the stream of the chunks.
unfoldable pub upload_stream : String → String → List Bytes → List V3Request
upload_stream session result chunks =
    (request_into (identifier session result) ∷ [])
    ++ map (λ chunk. request_into (Request.data_chunk chunk)) chunks

-- What is made of one item of the stream of a download.
unfoldable pub download_item : Result V3DownloadResponse Status → Result Bytes RequestError
download_item item = map_err grpc (map_ok (λ r. r.data_chunk) item)

module _ {S : Type 0} where
  -- The answer of the stub is the optional result of `UploadResultDataResponse`.
  unfoldable pub upload :
      (List V3Request → Call S Status (Option V3Raw))
      → String
      → String
      → List Bytes
      → Call S RequestError Raw
  upload stub session result chunks =
      finish raw_of grpc (stub (upload_stream session result chunks))

  unfoldable pub download :
      (V3DownloadRequest → Call S Status (List (Result V3DownloadResponse Status)))
      → String
      → String
      → Call S RequestError (List (Result Bytes RequestError))
  download stub session result =
      let request : DownloadRequest = record { session_id = session; result_id = result } in
      finish (map download_item) grpc (stub (download_into request))

  -- The filters are given as a list of lists, and collected into an `Or` of `And`s.
  unfoldable pub list :
      (V3ListRequest → Call S Status V3ListResponse)
      → List (List (FieldFilter Field ResultCondition))
      → Sort
      → ℤ
      → ℤ
      → Call S RequestError ListResponse
  list stub filters sort page page_size =
      let request : ListRequest = record {
        page = page;
        page_size = page_size;
        filters = record { disjuncts = map (λ and. record { conjuncts = and }) filters };
        sort = sort;
      } in
      client_call list_request_into list_response_from stub request
