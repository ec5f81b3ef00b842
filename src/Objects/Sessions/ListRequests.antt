-- ===== src/Objects/Sessions/ListRequests.antt =====
-- packages/rust/armonik/src/objects/sessions/mod.rs and list.rs: the list of sessions.
use armoni_k_api.Common.{ℤ, pos, ◌≡◌, Bool, false, Option, List, []}
use armoni_k_api.Objects.Convert.{to_option, from_option, into_collect, list-retract}
use armoni_k_api.Objects.Enums.SortDirection as Direction
use armoni_k_api.Objects.Sessions.Field.{
  Field, V3Field, default_field, session_field_into, session_field_from, session_field_back,
}
use armoni_k_api.Objects.Sessions.Filter.{
  SessionFilter, V3SessionFilter, no_filters, filters_into, filters_from, filters_back,
}
use armoni_k_api.Objects.Sessions.Raw.{Raw, V3Raw, raw_into, raw_from, raw_back}

pub record Sort : Type 0 where
  pub field : Field
  pub direction : Direction.SortDirection

pub record V3Sort : Type 0 where
  pub field : Option V3Field
  pub direction : ℤ

abbrev pub default_sort : Sort
default_sort = record { field = default_field; direction = Direction.default }

unfoldable pub sort_into : Sort → V3Sort
sort_into r = record {
  field = to_option session_field_into r.field;
  direction = Direction.as_i32 r.direction;
}

unfoldable pub sort_from : V3Sort → Sort
sort_from w = record {
  field = from_option session_field_from default_field w.field;
  direction = Direction.from_i32 w.direction;
}

pub sort_back : (r : Sort) → sort_from (sort_into r) ≡ r
unfolding sort_from sort_into
sort_back r = λ i. record {
  field = session_field_back r.field i;
  direction = Direction.coded.known r.direction i;
}

pub record ListRequest : Type 0 where
  pub page : ℤ
  pub page_size : ℤ
  pub filters : SessionFilter
  pub sort : Sort
  pub with_task_options : Bool

pub record V3ListRequest : Type 0 where
  pub page : ℤ
  pub page_size : ℤ
  pub filters : Option V3SessionFilter
  pub sort : Option V3Sort
  pub with_task_options : Bool

abbrev pub default_list_request : ListRequest
default_list_request = record {
  page = pos 0;
  page_size = pos 100;
  filters = no_filters;
  sort = default_sort;
  with_task_options = false;
}

unfoldable pub list_request_into : ListRequest → V3ListRequest
list_request_into r = record {
  page = r.page;
  page_size = r.page_size;
  filters = to_option filters_into r.filters;
  sort = to_option sort_into r.sort;
  with_task_options = r.with_task_options;
}

unfoldable pub list_request_from : V3ListRequest → ListRequest
list_request_from w = record {
  page = w.page;
  page_size = w.page_size;
  filters = from_option filters_from no_filters w.filters;
  sort = from_option sort_from default_sort w.sort;
  with_task_options = w.with_task_options;
}

pub list_request_back : (r : ListRequest) → list_request_from (list_request_into r) ≡ r
unfolding list_request_from list_request_into
list_request_back r = λ i. record {
  page = r.page;
  page_size = r.page_size;
  filters = filters_back r.filters i;
  sort = sort_back r.sort i;
  with_task_options = r.with_task_options;
}

pub record ListResponse : Type 0 where
  pub sessions : List Raw
  pub page : ℤ
  pub page_size : ℤ
  pub total : ℤ

pub record V3ListResponse : Type 0 where
  pub sessions : List V3Raw
  pub page : ℤ
  pub page_size : ℤ
  pub total : ℤ

abbrev pub default_list_response : ListResponse
default_list_response = record { sessions = []; page = pos 0; page_size = pos 100; total = pos 0 }

unfoldable pub list_response_into : ListResponse → V3ListResponse
list_response_into r = record {
  sessions = into_collect raw_into r.sessions;
  page = r.page;
  page_size = r.page_size;
  total = r.total;
}

unfoldable pub list_response_from : V3ListResponse → ListResponse
list_response_from w = record {
  sessions = into_collect raw_from w.sessions;
  page = w.page;
  page_size = w.page_size;
  total = w.total;
}

pub list_response_back : (r : ListResponse) → list_response_from (list_response_into r) ≡ r
unfolding list_response_from list_response_into
list_response_back r = λ i. record {
  sessions = list-retract raw_into raw_from raw_back r.sessions i;
  page = r.page;
  page_size = r.page_size;
  total = r.total;
}
