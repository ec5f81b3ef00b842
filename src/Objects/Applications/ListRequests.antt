-- ===== src/Objects/Applications/ListRequests.antt =====
-- packages/rust/armonik/src/objects/applications: an application, and the list of applications.
use armoni_k_api.Common.{ℤ, pos, String, ◌≡◌, refl, Option, List, []}
use armoni_k_api.Objects.Convert.{to_option, from_option, into_collect, list-retract}
use armoni_k_api.Objects.Enums.SortDirection as Direction
use armoni_k_api.Objects.Applications.Field.{
  Field, V3Field, application_field_into, application_field_from, application_field_back,
}
use armoni_k_api.Objects.Applications.Filter.{
  ApplicationFilter, V3ApplicationFilter, no_filters, filters_into, filters_from, filters_back,
}

pub record Raw : Type 0 where
  pub name : String
  pub version : String
  pub namespace : String
  pub service : String

pub record V3Raw : Type 0 where
  pub name : String
  pub version : String
  pub namespace : String
  pub service : String

abbrev pub default_raw : Raw
default_raw = record { name = ""; version = ""; namespace = ""; service = "" }

unfoldable pub raw_into : Raw → V3Raw
raw_into r = record {
  name = r.name;
  version = r.version;
  namespace = r.namespace;
  service = r.service;
}

unfoldable pub raw_from : V3Raw → Raw
raw_from w = record {
  name = w.name;
  version = w.version;
  namespace = w.namespace;
  service = w.service;
}

pub raw_back : (r : Raw) → raw_from (raw_into r) ≡ r
unfolding raw_from raw_into
raw_back r = refl

pub record Sort : Type 0 where
  pub fields : List Field
  pub direction : Direction.SortDirection

pub record V3Sort : Type 0 where
  pub fields : List V3Field
  pub direction : ℤ

abbrev pub default_sort : Sort
default_sort = record { fields = []; direction = Direction.default }

unfoldable pub sort_into : Sort → V3Sort
sort_into r = record {
  fields = into_collect application_field_into r.fields;
  direction = Direction.as_i32 r.direction;
}

unfoldable pub sort_from : V3Sort → Sort
sort_from w = record {
  fields = into_collect application_field_from w.fields;
  direction = Direction.from_i32 w.direction;
}

pub sort_back : (r : Sort) → sort_from (sort_into r) ≡ r
unfolding sort_from sort_into
sort_back r = λ i. record {
  fields =
      list-retract application_field_into application_field_from application_field_back r.fields i;
  direction = Direction.coded.known r.direction i;
}

pub record ListRequest : Type 0 where
  pub page : ℤ
  pub page_size : ℤ
  pub filters : ApplicationFilter
  pub sort : Sort

pub record V3ListRequest : Type 0 where
  pub page : ℤ
  pub page_size : ℤ
  pub filters : Option V3ApplicationFilter
  pub sort : Option V3Sort

abbrev pub default_list_request : ListRequest
default_list_request = record {
  page = pos 0;
  page_size = pos 100;
  filters = no_filters;
  sort = default_sort;
}

unfoldable pub list_request_into : ListRequest → V3ListRequest
list_request_into r = record {
  page = r.page;
  page_size = r.page_size;
  filters = to_option filters_into r.filters;
  sort = to_option sort_into r.sort;
}

unfoldable pub list_request_from : V3ListRequest → ListRequest
list_request_from w = record {
  page = w.page;
  page_size = w.page_size;
  filters = from_option filters_from no_filters w.filters;
  sort = from_option sort_from default_sort w.sort;
}

pub list_request_back : (r : ListRequest) → list_request_from (list_request_into r) ≡ r
unfolding list_request_from list_request_into
list_request_back r = λ i. record {
  page = r.page;
  page_size = r.page_size;
  filters = filters_back r.filters i;
  sort = sort_back r.sort i;
}

pub record ListResponse : Type 0 where
  pub applications : List Raw
  pub page : ℤ
  pub page_size : ℤ
  pub total : ℤ

pub record V3ListResponse : Type 0 where
  pub applications : List V3Raw
  pub page : ℤ
  pub page_size : ℤ
  pub total : ℤ

abbrev pub default_list_response : ListResponse
default_list_response = record {
  applications = [];
  page = pos 0;
  page_size = pos 100;
  total = pos 0;
}

unfoldable pub list_response_into : ListResponse → V3ListResponse
list_response_into r = record {
  applications = into_collect raw_into r.applications;
  page = r.page;
  page_size = r.page_size;
  total = r.total;
}

unfoldable pub list_response_from : V3ListResponse → ListResponse
list_response_from w = record {
  applications = into_collect raw_from w.applications;
  page = w.page;
  page_size = w.page_size;
  total = w.total;
}

pub list_response_back : (r : ListResponse) → list_response_from (list_response_into r) ≡ r
unfolding list_response_from list_response_into
list_response_back r = λ i. record {
  applications = list-retract raw_into raw_from raw_back r.applications i;
  page = r.page;
  page_size = r.page_size;
  total = r.total;
}
