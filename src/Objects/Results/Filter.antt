-- ===== src/Objects/Results/Filter.antt =====
-- packages/rust/armonik/src/objects/results/filter.rs: the conditions on results, and their filters.
use armoni_k_api.Common.{◌≡◌, ap}
use armoni_k_api.Objects.Enums.FilterStringOperator as StringOp
use armoni_k_api.Objects.Enums.ResultStatus as StatusCodes
use armoni_k_api.Objects.Filters.Kinds.{
  FilterString, V3FilterString, string_into, string_from, string_back, FilterDate, V3FilterDate,
  date_into, date_from, date_back, FilterArray, V3FilterArray, array_into, array_from, array_back,
  FilterNumber, V3FilterNumber, number_into, number_from, number_back, FilterStatus, V3FilterStatus,
  status_into, status_from, status_back,
}
use armoni_k_api.Objects.Filters.Formula.{
  FieldFilter, V3FieldFilter, Or, or_convert, or_back, field_into, field_from, field_back,
}
use armoni_k_api.Objects.Results.Field.{
  Field, V3Field, default_field, result_field_into, result_field_from, result_field_back,
}

pub data ResultCondition : Type 0 where
  text : FilterString → ResultCondition
  date : FilterDate → ResultCondition
  array : FilterArray → ResultCondition
  status : FilterStatus StatusCodes.ResultStatus → ResultCondition
  number : FilterNumber → ResultCondition

pub data V3ResultCondition : Type 0 where
  filter_string : V3FilterString → V3ResultCondition
  filter_date : V3FilterDate → V3ResultCondition
  filter_array : V3FilterArray → V3ResultCondition
  filter_status : V3FilterStatus → V3ResultCondition
  filter_number : V3FilterNumber → V3ResultCondition

abbrev pub default_condition : ResultCondition
default_condition = text (record { value = ""; operator = StringOp.default })

unfoldable pub result_condition_into : ResultCondition → V3ResultCondition
result_condition_into (text c) = filter_string (string_into c)
result_condition_into (date c) = filter_date (date_into c)
result_condition_into (array c) = filter_array (array_into c)
result_condition_into (status c) =
    filter_status (status_into StatusCodes.as_i32 StatusCodes.from_i32 c)
result_condition_into (number c) = filter_number (number_into c)

unfoldable pub result_condition_from : V3ResultCondition → ResultCondition
result_condition_from (filter_string w) = text (string_from w)
result_condition_from (filter_date w) = date (date_from w)
result_condition_from (filter_array w) = array (array_from w)
result_condition_from (filter_status w) =
    status (status_from StatusCodes.as_i32 StatusCodes.from_i32 w)
result_condition_from (filter_number w) = number (number_from w)

-- Every condition is read back from its message, with its kind, its value and its operator.
result_condition_back : (c : ResultCondition) → result_condition_from (result_condition_into c) ≡ c
unfolding result_condition_from result_condition_into
result_condition_back (text c) = ap text (string_back c)
result_condition_back (date c) = ap date (date_back c)
result_condition_back (array c) = ap array (array_back c)
result_condition_back (status c) =
    ap status (status_back StatusCodes.as_i32 StatusCodes.from_i32 StatusCodes.coded.known c)
result_condition_back (number c) = ap number (number_back c)

abbrev pub ResultFilter : Type 0
ResultFilter = Or (FieldFilter Field ResultCondition)

abbrev pub V3ResultFilter : Type 0
V3ResultFilter = Or (V3FieldFilter V3Field V3ResultCondition)

unfoldable pub filters_into : ResultFilter → V3ResultFilter
filters_into = or_convert (field_into result_field_into result_condition_into)

unfoldable pub filters_from : V3ResultFilter → ResultFilter
filters_from =
    or_convert (field_from result_field_from result_condition_from default_field default_condition)

pub filters_back : (f : ResultFilter) → filters_from (filters_into f) ≡ f
unfolding filters_into filters_from
filters_back =
    or_back (field_into result_field_into result_condition_into)
      (field_from result_field_from result_condition_from default_field default_condition)
      (field_back result_field_into result_field_from result_condition_into result_condition_from
        default_field default_condition result_field_back result_condition_back)
