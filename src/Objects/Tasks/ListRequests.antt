-- ===== src/Objects/Tasks/ListRequests.antt =====
-- packages/rust/armonik/src/objects/tasks/mod.rs and list.rs: the requests for lists of tasks.
use armoni_k_api.Common.{ℤ, pos, ◌≡◌, Bool, false, Option}
use armoni_k_api.Objects.Convert.{to_option, from_option}
use armoni_k_api.Objects.Enums.SortDirection as Direction
use armoni_k_api.Objects.Tasks.Field.{
  Field, V3Field, default_field, task_field_into, task_field_from, task_field_back,
}
use armoni_k_api.Objects.Tasks.Filter.{
  TaskFilter, V3TaskFilter, no_filters, filters_into, filters_from, filters_back,
}

pub record Sort : Type 0 where
  pub field : Field
  pub direction : Direction.SortDirection

pub record V3Sort : Type 0 where
  pub field : Option V3Field
  pub direction : ℤ

abbrev pub default_sort : Sort
default_sort = record { field = default_field; direction = Direction.default }

unfoldable pub sort_into : Sort → V3Sort
sort_into r = record {
  field = to_option task_field_into r.field;
  direction = Direction.as_i32 r.direction;
}

unfoldable pub sort_from : V3Sort → Sort
sort_from w = record {
  field = from_option task_field_from default_field w.field;
  direction = Direction.from_i32 w.direction;
}

pub sort_back : (r : Sort) → sort_from (sort_into r) ≡ r
unfolding sort_from sort_into
sort_back r = λ i. record {
  field = task_field_back r.field i;
  direction = Direction.coded.known r.direction i;
}

-- `list::Request`, and the request of `list_detailed` of the same shape.
pub record ListRequest : Type 0 where
  pub page : ℤ
  pub page_size : ℤ
  pub filters : TaskFilter
  pub sort : Sort
  pub with_errors : Bool

pub record V3ListRequest : Type 0 where
  pub page : ℤ
  pub page_size : ℤ
  pub filters : Option V3TaskFilter
  pub sort : Option V3Sort
  pub with_errors : Bool

abbrev pub default_list_request : ListRequest
default_list_request = record {
  page = pos 0;
  page_size = pos 100;
  filters = no_filters;
  sort = default_sort;
  with_errors = false;
}

unfoldable pub list_request_into : ListRequest → V3ListRequest
list_request_into r = record {
  page = r.page;
  page_size = r.page_size;
  filters = to_option filters_into r.filters;
  sort = to_option sort_into r.sort;
  with_errors = r.with_errors;
}

unfoldable pub list_request_from : V3ListRequest → ListRequest
list_request_from w = record {
  page = w.page;
  page_size = w.page_size;
  filters = from_option filters_from no_filters w.filters;
  sort = from_option sort_from default_sort w.sort;
  with_errors = w.with_errors;
}

pub list_request_back : (r : ListRequest) → list_request_from (list_request_into r) ≡ r
unfolding list_request_from list_request_into
list_request_back r = λ i. record {
  page = r.page;
  page_size = r.page_size;
  filters = filters_back r.filters i;
  sort = sort_back r.sort i;
  with_errors = r.with_errors;
}
