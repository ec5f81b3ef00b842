-- ===== src/Objects/Results/ListResults.antt =====
-- packages/rust/armonik/src/objects/results/list.rs and mod.rs, sort.rs: the list of results.
use armoni_k_api.Common.{ℤ, pos, ◌≡◌, Option, List, []}
use armoni_k_api.Objects.Convert.{to_option, from_option, into_collect, list-retract}
use armoni_k_api.Objects.Enums.SortDirection as Direction
use armoni_k_api.Objects.Results.Field.{
  Field, V3Field, default_field, result_field_into, result_field_from, result_field_back,
}
use armoni_k_api.Objects.Results.Filter.{
  ResultFilter, V3ResultFilter, filters_into, filters_from, filters_back,
}
use armoni_k_api.Objects.Results.Raw.{Raw, V3Raw, raw_into, raw_from, raw_from-raw_into}

pub record Sort : Type 0 where
  pub field : Field
  pub direction : Direction.SortDirection

pub record V3Sort : Type 0 where
  pub field : Option V3Field
  pub direction : ℤ

unfoldable pub sort_into : Sort → V3Sort
sort_into s = record {
  field = to_option result_field_into s.field;
  direction = Direction.as_i32 s.direction;
}

unfoldable pub sort_from : V3Sort → Sort
sort_from w = record {
  field = from_option result_field_from default_field w.field;
  direction = Direction.from_i32 w.direction;
}

sort_back : (s : Sort) → sort_from (sort_into s) ≡ s
unfolding sort_into sort_from
sort_back s = λ i. record {
  field = result_field_back s.field i;
  direction = Direction.coded.known s.direction i;
}

pub record ListRequest : Type 0 where
  pub page : ℤ
  pub page_size : ℤ
  pub filters : ResultFilter
  pub sort : Sort

pub record V3ListRequest : Type 0 where
  pub page : ℤ
  pub page_size : ℤ
  pub filters : Option V3ResultFilter
  pub sort : Option V3Sort

abbrev default_filters : ResultFilter
default_filters = record { disjuncts = [] }

abbrev default_sort : Sort
default_sort = record { field = default_field; direction = Direction.default }

abbrev pub default_request : ListRequest
default_request = record {
  page = pos 0;
  page_size = pos 100;
  filters = default_filters;
  sort = default_sort;
}

unfoldable pub list_request_into : ListRequest → V3ListRequest
list_request_into r = record {
  page = r.page;
  page_size = r.page_size;
  filters = to_option filters_into r.filters;
  sort = to_option sort_into r.sort;
}

unfoldable pub list_request_from : V3ListRequest → ListRequest
list_request_from w = record {
  page = w.page;
  page_size = w.page_size;
  filters = from_option filters_from default_filters w.filters;
  sort = from_option sort_from default_sort w.sort;
}

-- A request for a page of results is read back from its message, with its page, its sort and every
-- condition of its filters in the same place.
pub list_request_back : (r : ListRequest) → list_request_from (list_request_into r) ≡ r
unfolding list_request_from list_request_into
list_request_back r = λ i. record {
  page = r.page;
  page_size = r.page_size;
  filters = filters_back r.filters i;
  sort = sort_back r.sort i;
}

pub record ListResponse : Type 0 where
  pub results : List Raw
  pub page : ℤ
  pub page_size : ℤ
  pub total : ℤ

pub record V3ListResponse : Type 0 where
  pub results : List V3Raw
  pub page : ℤ
  pub page_size : ℤ
  pub total : ℤ

unfoldable pub list_response_into : ListResponse → V3ListResponse
list_response_into r = record {
  results = into_collect raw_into r.results;
  page = r.page;
  page_size = r.page_size;
  total = r.total;
}

unfoldable pub list_response_from : V3ListResponse → ListResponse
list_response_from w = record {
  results = into_collect raw_from w.results;
  page = w.page;
  page_size = w.page_size;
  total = w.total;
}

pub list_response_back : (r : ListResponse) → list_response_from (list_response_into r) ≡ r
unfolding list_response_from list_response_into
list_response_back r = λ i. record {
  results = list-retract raw_into raw_from raw_from-raw_into r.results i;
  page = r.page;
  page_size = r.page_size;
  total = r.total;
}
