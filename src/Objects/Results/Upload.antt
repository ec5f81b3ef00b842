-- ===== src/Objects/Results/Upload.antt =====
-- packages/rust/armonik/src/objects/results/upload.rs and download.rs: the stream of messages that
-- uploads the data of a result, and the one that brings it back.
use armoni_k_api.Common.{String, ◌≡◌, refl, Option, none, some, List, ◌∷◌, map}
use armoni_k_api.Objects.DataChunk.{Bytes}

pub data Request : Type 0 where
  -- the session, then the result
  identifier : String → String → Request
  data_chunk : Bytes → Request

pub record ResultIdentifier : Type 0 where
  pub session_id : String
  pub result_id : String

pub data V3RequestType : Type 0 where
  id : ResultIdentifier → V3RequestType
  data_chunk : Bytes → V3RequestType

abbrev pub V3Request : Type 0
V3Request = Option V3RequestType

unfoldable pub request_into : Request → V3Request
request_into (identifier session result) =
    some (id (record { session_id = session; result_id = result }))
request_into (Request.data_chunk bytes) = some (V3RequestType.data_chunk bytes)

unfoldable pub request_from : V3Request → Request
request_from (some (id r)) = identifier r.session_id r.result_id
request_from (some (V3RequestType.data_chunk bytes)) = Request.data_chunk bytes
request_from none = identifier "" ""

pub request_from-request_into : (r : Request) → request_from (request_into r) ≡ r
unfolding request_from request_into
request_from-request_into (identifier session result) = refl
request_from-request_into (Request.data_chunk bytes) = refl

-- The requests that the documentation of `Request` asks for: the identifier, then the chunks.
unfoldable pub upload_requests : String → String → List Bytes → List Request
upload_requests session result chunks = identifier session result ∷ map Request.data_chunk chunks

-- download.rs
pub record DownloadRequest : Type 0 where
  pub session_id : String
  pub result_id : String

pub record V3DownloadRequest : Type 0 where
  pub session_id : String
  pub result_id : String

unfoldable pub download_into : DownloadRequest → V3DownloadRequest
download_into r = record { session_id = r.session_id; result_id = r.result_id }

unfoldable pub download_from : V3DownloadRequest → DownloadRequest
download_from w = record { session_id = w.session_id; result_id = w.result_id }

pub record DownloadResponse : Type 0 where
  pub data_chunk : Bytes

pub record V3DownloadResponse : Type 0 where
  pub data_chunk : Bytes

unfoldable pub chunk_into : DownloadResponse → V3DownloadResponse
chunk_into r = record { data_chunk = r.data_chunk }
