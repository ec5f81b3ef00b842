-- ===== src/Objects/Partitions/ListRequests.antt =====
-- packages/rust/armonik/src/objects/partitions: a partition, and the requests and the answers of the
-- service of partitions.
use armoni_k_api.Common.{ℤ, pos, String, ◌≡◌, refl, Option, List, []}
use armoni_k_api.Objects.Convert.{to_option, from_option, into_collect, list-retract}
use armoni_k_api.Objects.Enums.SortDirection as Direction
use armoni_k_api.Objects.Partitions.Field.{
  Field, V3Field, default_field, partition_field_into, partition_field_from, partition_field_back,
}
use armoni_k_api.Objects.Partitions.Filter.{
  PartitionFilter, V3PartitionFilter, no_filters, filters_into, filters_from, filters_back,
}

-- The map of the pod configuration is its list of entries, which the conversions pass on as it is.
pub record Raw : Type 0 where
  pub partition_id : String
  pub parent_partition_ids : List String
  pub pod_reserved : ℤ
  pub pod_max : ℤ
  pub pod_configuration : List (String × String)
  pub preemption_percentage : ℤ
  pub priority : ℤ

pub record V3Raw : Type 0 where
  pub id : String
  pub parent_partition_ids : List String
  pub pod_reserved : ℤ
  pub pod_max : ℤ
  pub pod_configuration : List (String × String)
  pub preemption_percentage : ℤ
  pub priority : ℤ

abbrev pub default_raw : Raw
default_raw = record {
  partition_id = "";
  parent_partition_ids = [];
  pod_reserved = pos 0;
  pod_max = pos 0;
  pod_configuration = [];
  preemption_percentage = pos 0;
  priority = pos 0;
}

unfoldable pub raw_into : Raw → V3Raw
raw_into r = record {
  id = r.partition_id;
  parent_partition_ids = r.parent_partition_ids;
  pod_reserved = r.pod_reserved;
  pod_max = r.pod_max;
  pod_configuration = r.pod_configuration;
  preemption_percentage = r.preemption_percentage;
  priority = r.priority;
}

unfoldable pub raw_from : V3Raw → Raw
raw_from w = record {
  partition_id = w.id;
  parent_partition_ids = w.parent_partition_ids;
  pod_reserved = w.pod_reserved;
  pod_max = w.pod_max;
  pod_configuration = w.pod_configuration;
  preemption_percentage = w.preemption_percentage;
  priority = w.priority;
}

pub raw_back : (r : Raw) → raw_from (raw_into r) ≡ r
unfolding raw_from raw_into
raw_back r = refl

pub record Sort : Type 0 where
  pub field : Field
  pub direction : Direction.SortDirection

pub record V3Sort : Type 0 where
  pub field : Option V3Field
  pub direction : ℤ

abbrev pub default_sort : Sort
default_sort = record { field = default_field; direction = Direction.default }

unfoldable pub sort_into : Sort → V3Sort
sort_into r = record {
  field = to_option partition_field_into r.field;
  direction = Direction.as_i32 r.direction;
}

unfoldable pub sort_from : V3Sort → Sort
sort_from w = record {
  field = from_option partition_field_from default_field w.field;
  direction = Direction.from_i32 w.direction;
}

pub sort_back : (r : Sort) → sort_from (sort_into r) ≡ r
unfolding sort_from sort_into
sort_back r = λ i. record {
  field = partition_field_back r.field i;
  direction = Direction.coded.known r.direction i;
}

pub record ListRequest : Type 0 where
  pub page : ℤ
  pub page_size : ℤ
  pub filters : PartitionFilter
  pub sort : Sort

pub record V3ListRequest : Type 0 where
  pub page : ℤ
  pub page_size : ℤ
  pub filters : Option V3PartitionFilter
  pub sort : Option V3Sort

abbrev pub default_list_request : ListRequest
default_list_request = record {
  page = pos 0;
  page_size = pos 100;
  filters = no_filters;
  sort = default_sort;
}

unfoldable pub list_request_into : ListRequest → V3ListRequest
list_request_into r = record {
  page = r.page;
  page_size = r.page_size;
  filters = to_option filters_into r.filters;
  sort = to_option sort_into r.sort;
}

unfoldable pub list_request_from : V3ListRequest → ListRequest
list_request_from w = record {
  page = w.page;
  page_size = w.page_size;
  filters = from_option filters_from no_filters w.filters;
  sort = from_option sort_from default_sort w.sort;
}

pub list_request_back : (r : ListRequest) → list_request_from (list_request_into r) ≡ r
unfolding list_request_from list_request_into
list_request_back r = λ i. record {
  page = r.page;
  page_size = r.page_size;
  filters = filters_back r.filters i;
  sort = sort_back r.sort i;
}

pub record ListResponse : Type 0 where
  pub partitions : List Raw
  pub page : ℤ
  pub page_size : ℤ
  pub total : ℤ

pub record V3ListResponse : Type 0 where
  pub partitions : List V3Raw
  pub page : ℤ
  pub page_size : ℤ
  pub total : ℤ

abbrev pub default_list_response : ListResponse
default_list_response = record { partitions = []; page = pos 0; page_size = pos 100; total = pos 0 }

unfoldable pub list_response_into : ListResponse → V3ListResponse
list_response_into r = record {
  partitions = into_collect raw_into r.partitions;
  page = r.page;
  page_size = r.page_size;
  total = r.total;
}

unfoldable pub list_response_from : V3ListResponse → ListResponse
list_response_from w = record {
  partitions = into_collect raw_from w.partitions;
  page = w.page;
  page_size = w.page_size;
  total = w.total;
}

pub list_response_back : (r : ListResponse) → list_response_from (list_response_into r) ≡ r
unfolding list_response_from list_response_into
list_response_back r = λ i. record {
  partitions = list-retract raw_into raw_from raw_back r.partitions i;
  page = r.page;
  page_size = r.page_size;
  total = r.total;
}

pub record GetRequest : Type 0 where
  pub partition_id : String

pub record V3GetRequest : Type 0 where
  pub id : String

abbrev pub default_get_request : GetRequest
default_get_request = record { partition_id = "" }

unfoldable pub get_request_into : GetRequest → V3GetRequest
get_request_into r = record { id = r.partition_id }

unfoldable pub get_request_from : V3GetRequest → GetRequest
get_request_from w = record { partition_id = w.id }

pub get_request_back : (r : GetRequest) → get_request_from (get_request_into r) ≡ r
unfolding get_request_from get_request_into
get_request_back r = refl

pub record GetReply : Type 0 where
  pub partition : Raw

pub record V3GetReply : Type 0 where
  pub partition : Option V3Raw

abbrev pub default_get_reply : GetReply
default_get_reply = record { partition = default_raw }

unfoldable pub get_reply_into : GetReply → V3GetReply
get_reply_into r = record { partition = to_option raw_into r.partition }

unfoldable pub get_reply_from : V3GetReply → GetReply
get_reply_from w = record { partition = from_option raw_from default_raw w.partition }

pub get_reply_back : (r : GetReply) → get_reply_from (get_reply_into r) ≡ r
unfolding get_reply_from get_reply_into
get_reply_back r = λ i. record { partition = raw_back r.partition i }
