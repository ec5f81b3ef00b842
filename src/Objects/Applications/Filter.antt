-- ===== src/Objects/Applications/Filter.antt =====
-- packages/rust/armonik/src/objects/applications/filter.rs: the conditions on applications, and their filters.
use armoni_k_api.Common.{◌≡◌, ap, List, [], map}
use armoni_k_api.Objects.Enums.FilterStringOperator as StringOp
use armoni_k_api.Objects.Filters.Kinds.{
  FilterString, V3FilterString, string_into, string_from, string_back,
}
use armoni_k_api.Objects.Filters.Formula.{
  FieldFilter, V3FieldFilter, Or, or_convert, or_back, field_into, field_from, field_back,
}
use armoni_k_api.Objects.Applications.Field.{
  Field, V3Field, default_field, application_field_into, application_field_from,
  application_field_back,
}

pub data ApplicationCondition : Type 0 where
  text : FilterString → ApplicationCondition

pub data V3ApplicationCondition : Type 0 where
  filter_string : V3FilterString → V3ApplicationCondition

abbrev pub default_condition : ApplicationCondition
default_condition = text (record { value = ""; operator = StringOp.default })

unfoldable pub application_condition_into : ApplicationCondition → V3ApplicationCondition
application_condition_into (text c) = filter_string (string_into c)

unfoldable pub application_condition_from : V3ApplicationCondition → ApplicationCondition
application_condition_from (filter_string w) = text (string_from w)

application_condition_back :
    (c : ApplicationCondition) → application_condition_from (application_condition_into c) ≡ c
unfolding application_condition_from application_condition_into
application_condition_back (text c) = ap text (string_back c)

abbrev pub ApplicationFilter : Type 0
ApplicationFilter = Or (FieldFilter Field ApplicationCondition)

abbrev pub V3ApplicationFilter : Type 0
V3ApplicationFilter = Or (V3FieldFilter V3Field V3ApplicationCondition)

abbrev pub no_filters : ApplicationFilter
no_filters = record { disjuncts = [] }

unfoldable pub filters_into : ApplicationFilter → V3ApplicationFilter
filters_into = or_convert (field_into application_field_into application_condition_into)

unfoldable pub filters_from : V3ApplicationFilter → ApplicationFilter
filters_from =
    or_convert
      (field_from application_field_from application_condition_from default_field default_condition)

pub filters_back : (f : ApplicationFilter) → filters_from (filters_into f) ≡ f
unfolding filters_into filters_from
filters_back =
    or_back (field_into application_field_into application_condition_into)
      (field_from application_field_from application_condition_from default_field default_condition)
      (field_back application_field_into application_field_from application_condition_into
        application_condition_from default_field default_condition application_field_back
        application_condition_back)

-- The filters of a client's list call: an alternative for each list of conditions.
abbrev pub alternatives : List (List (FieldFilter Field ApplicationCondition)) → ApplicationFilter
alternatives filters = record { disjuncts = map (λ and. record { conjuncts = and }) filters }
