-- ===== src/Objects/Sessions/Filter.antt =====
-- packages/rust/armonik/src/objects/sessions/filter.rs: the conditions on sessions, and their filters.
use armoni_k_api.Common.{◌≡◌, ap, List, [], map}
use armoni_k_api.Objects.Enums.SessionStatus as StatusCodes
use armoni_k_api.Objects.Enums.FilterStringOperator as StringOp
use armoni_k_api.Objects.Filters.Kinds.{
  FilterString, V3FilterString, string_into, string_from, string_back, FilterNumber, V3FilterNumber,
  number_into, number_from, number_back, FilterBoolean, V3FilterBoolean, boolean_into, boolean_from,
  boolean_back, FilterStatus, V3FilterStatus, status_into, status_from, status_back, FilterDate,
  V3FilterDate, date_into, date_from, date_back, FilterDuration, V3FilterDuration, duration_into,
  duration_from, duration_back, FilterArray, V3FilterArray, array_into, array_from, array_back,
}
use armoni_k_api.Objects.Filters.Formula.{
  FieldFilter, V3FieldFilter, Or, or_convert, or_back, field_into, field_from, field_back,
}
use armoni_k_api.Objects.Sessions.Field.{
  Field, V3Field, default_field, session_field_into, session_field_from, session_field_back,
}

pub data SessionCondition : Type 0 where
  text : FilterString → SessionCondition
  number : FilterNumber → SessionCondition
  boolean : FilterBoolean → SessionCondition
  status : FilterStatus StatusCodes.SessionStatus → SessionCondition
  date : FilterDate → SessionCondition
  duration : FilterDuration → SessionCondition
  array : FilterArray → SessionCondition

pub data V3SessionCondition : Type 0 where
  filter_string : V3FilterString → V3SessionCondition
  filter_number : V3FilterNumber → V3SessionCondition
  filter_boolean : V3FilterBoolean → V3SessionCondition
  filter_status : V3FilterStatus → V3SessionCondition
  filter_date : V3FilterDate → V3SessionCondition
  filter_duration : V3FilterDuration → V3SessionCondition
  filter_array : V3FilterArray → V3SessionCondition

abbrev pub default_condition : SessionCondition
default_condition = text (record { value = ""; operator = StringOp.default })

unfoldable pub session_condition_into : SessionCondition → V3SessionCondition
session_condition_into (text c) = filter_string (string_into c)
session_condition_into (number c) = filter_number (number_into c)
session_condition_into (boolean c) = filter_boolean (boolean_into c)
session_condition_into (status c) =
    filter_status (status_into StatusCodes.as_i32 StatusCodes.from_i32 c)
session_condition_into (date c) = filter_date (date_into c)
session_condition_into (duration c) = filter_duration (duration_into c)
session_condition_into (array c) = filter_array (array_into c)

unfoldable pub session_condition_from : V3SessionCondition → SessionCondition
session_condition_from (filter_string w) = text (string_from w)
session_condition_from (filter_number w) = number (number_from w)
session_condition_from (filter_boolean w) = boolean (boolean_from w)
session_condition_from (filter_status w) =
    status (status_from StatusCodes.as_i32 StatusCodes.from_i32 w)
session_condition_from (filter_date w) = date (date_from w)
session_condition_from (filter_duration w) = duration (duration_from w)
session_condition_from (filter_array w) = array (array_from w)

session_condition_back :
    (c : SessionCondition) → session_condition_from (session_condition_into c) ≡ c
unfolding session_condition_from session_condition_into
session_condition_back (text c) = ap text (string_back c)
session_condition_back (number c) = ap number (number_back c)
session_condition_back (boolean c) = ap boolean (boolean_back c)
session_condition_back (status c) =
    ap status (status_back StatusCodes.as_i32 StatusCodes.from_i32 StatusCodes.coded.known c)
session_condition_back (date c) = ap date (date_back c)
session_condition_back (duration c) = ap duration (duration_back c)
session_condition_back (array c) = ap array (array_back c)

abbrev pub SessionFilter : Type 0
SessionFilter = Or (FieldFilter Field SessionCondition)

abbrev pub V3SessionFilter : Type 0
V3SessionFilter = Or (V3FieldFilter V3Field V3SessionCondition)

abbrev pub no_filters : SessionFilter
no_filters = record { disjuncts = [] }

unfoldable pub filters_into : SessionFilter → V3SessionFilter
filters_into = or_convert (field_into session_field_into session_condition_into)

unfoldable pub filters_from : V3SessionFilter → SessionFilter
filters_from =
    or_convert
      (field_from session_field_from session_condition_from default_field default_condition)

pub filters_back : (f : SessionFilter) → filters_from (filters_into f) ≡ f
unfolding filters_into filters_from
filters_back =
    or_back (field_into session_field_into session_condition_into)
      (field_from session_field_from session_condition_from default_field default_condition)
      (field_back session_field_into session_field_from session_condition_into
        session_condition_from default_field default_condition session_field_back
        session_condition_back)

-- The filters of a client's list call: an alternative for each list of conditions.
abbrev pub alternatives : List (List (FieldFilter Field SessionCondition)) → SessionFilter
alternatives filters = record { disjuncts = map (λ and. record { conjuncts = and }) filters }
