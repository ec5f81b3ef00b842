-- ===== src/Client/Partitions/Served.antt =====
-- The calls of packages/rust/armonik/src/client/partitions.rs against the server of packages/rust/armonik/src/server/partitions.rs.
use armoni_k_api.Common.{ℤ, String, ◌≡◌, List}
use armoni_k_api.Common.Outcome.{map_ok}
use armoni_k_api.Rpc.Calls.{RequestError, grpc, Call, then_result, finish}
use armoni_k_api.Rpc.Unary.{call_served, part_served}
use armoni_k_api.Server.Partitions.{PartitionsWire, PartitionsService, serve}
use armoni_k_api.Client.Partitions as Client
use armoni_k_api.Client.Partitions.Calls as Calls
use armoni_k_api.Objects.Filters.Formula.{FieldFilter}
use armoni_k_api.Objects.Partitions.Field.{Field}
use armoni_k_api.Objects.Partitions.Filter.{PartitionCondition, alternatives}
use armoni_k_api.Objects.Partitions.ListRequests.{
  Raw, Sort, ListResponse, list_request_into, list_request_from, list_response_into,
  list_response_from, get_request_into, get_request_from, get_reply_into, get_reply_from,
  list_request_back, list_response_back, get_request_back, get_reply_back,
}

-- A call of the client with its arguments, and what it can return.
pub data PartitionsCall : Type 0 where
  list : List (List (FieldFilter Field PartitionCondition)) → Sort → ℤ → ℤ → PartitionsCall
  get : String → PartitionsCall

pub data PartitionsAnswer : Type 0 where
  listed : ListResponse → PartitionsAnswer
  about : Raw → PartitionsAnswer

module _ {S : Type 0} (stub : PartitionsWire S) where
  unfoldable pub perform : PartitionsCall → Call S RequestError PartitionsAnswer
  perform (PartitionsCall.list filters sort page page_size) =
      then_result (map_ok listed) (Client.list stub filters sort page page_size)
  perform (PartitionsCall.get partition_id) =
      then_result (map_ok about) (Client.get stub partition_id)

module _ {S Context : Type 0} (service : PartitionsService S Context) (context : Context) where
  -- The handler of the call, run once on the arguments, with its error wrapped.
  unfoldable pub handle : PartitionsCall → Call S RequestError PartitionsAnswer
  handle (PartitionsCall.list filters sort page page_size) = finish listed grpc (
      service.list
        (record { page = page; page_size = page_size; filters = alternatives filters; sort = sort })
        context)
  handle (PartitionsCall.get partition_id) =
      finish (λ r. about r.partition) grpc
        (service.get (record { partition_id = partition_id }) context)

  -- Every call of the client of partitions against a server runs its own handler, once, on the arguments
  -- that were given, and returns the part of the answer that the client promises, or the error.
  pub perform-serve_partitions :
      (call : PartitionsCall) (s : S) → perform (serve service context) call s ≡ handle call s
  unfolding perform handle serve Client.list Calls.list Client.get Calls.get
  perform-serve_partitions (PartitionsCall.list filters sort page page_size) s =
      call_served list_request_into list_request_from list_response_into list_response_from
        list_request_back list_response_back listed service.list context
        (record { page = page; page_size = page_size; filters = alternatives filters; sort = sort })
        s
  perform-serve_partitions (PartitionsCall.get partition_id) s =
      part_served get_request_into get_request_from get_reply_into get_reply_from get_request_back
        get_reply_back (λ r. r.partition) about service.get context
        (record { partition_id = partition_id }) s
