-- ===== src/Objects/Tasks/Filter.antt =====
-- packages/rust/armonik/src/objects/tasks/filter.rs: the conditions on tasks, and their filters.
use armoni_k_api.Common.{◌≡◌, ap, List, [], map}
use armoni_k_api.Objects.Enums.TaskStatus as StatusCodes
use armoni_k_api.Objects.Enums.FilterStringOperator as StringOp
use armoni_k_api.Objects.Filters.Kinds.{
  FilterString, V3FilterString, string_into, string_from, string_back, FilterNumber, V3FilterNumber,
  number_into, number_from, number_back, FilterBoolean, V3FilterBoolean, boolean_into, boolean_from,
  boolean_back, FilterStatus, V3FilterStatus, status_into, status_from, status_back, FilterDate,
  V3FilterDate, date_into, date_from, date_back, FilterDuration, V3FilterDuration, duration_into,
  duration_from, duration_back, FilterArray, V3FilterArray, array_into, array_from, array_back,
}
use armoni_k_api.Objects.Filters.Formula.{
  FieldFilter, V3FieldFilter, Or, or_convert, or_back, field_into, field_from, field_back,
}
use armoni_k_api.Objects.Tasks.Field.{
  Field, V3Field, default_field, task_field_into, task_field_from, task_field_back,
}

pub data TaskCondition : Type 0 where
  text : FilterString → TaskCondition
  number : FilterNumber → TaskCondition
  boolean : FilterBoolean → TaskCondition
  status : FilterStatus StatusCodes.TaskStatus → TaskCondition
  date : FilterDate → TaskCondition
  duration : FilterDuration → TaskCondition
  array : FilterArray → TaskCondition

pub data V3TaskCondition : Type 0 where
  filter_string : V3FilterString → V3TaskCondition
  filter_number : V3FilterNumber → V3TaskCondition
  filter_boolean : V3FilterBoolean → V3TaskCondition
  filter_status : V3FilterStatus → V3TaskCondition
  filter_date : V3FilterDate → V3TaskCondition
  filter_duration : V3FilterDuration → V3TaskCondition
  filter_array : V3FilterArray → V3TaskCondition

abbrev pub default_condition : TaskCondition
default_condition = text (record { value = ""; operator = StringOp.default })

unfoldable pub task_condition_into : TaskCondition → V3TaskCondition
task_condition_into (text c) = filter_string (string_into c)
task_condition_into (number c) = filter_number (number_into c)
task_condition_into (boolean c) = filter_boolean (boolean_into c)
task_condition_into (status c) =
    filter_status (status_into StatusCodes.as_i32 StatusCodes.from_i32 c)
task_condition_into (date c) = filter_date (date_into c)
task_condition_into (duration c) = filter_duration (duration_into c)
task_condition_into (array c) = filter_array (array_into c)

unfoldable pub task_condition_from : V3TaskCondition → TaskCondition
task_condition_from (filter_string w) = text (string_from w)
task_condition_from (filter_number w) = number (number_from w)
task_condition_from (filter_boolean w) = boolean (boolean_from w)
task_condition_from (filter_status w) =
    status (status_from StatusCodes.as_i32 StatusCodes.from_i32 w)
task_condition_from (filter_date w) = date (date_from w)
task_condition_from (filter_duration w) = duration (duration_from w)
task_condition_from (filter_array w) = array (array_from w)

task_condition_back : (c : TaskCondition) → task_condition_from (task_condition_into c) ≡ c
unfolding task_condition_from task_condition_into
task_condition_back (text c) = ap text (string_back c)
task_condition_back (number c) = ap number (number_back c)
task_condition_back (boolean c) = ap boolean (boolean_back c)
task_condition_back (status c) =
    ap status (status_back StatusCodes.as_i32 StatusCodes.from_i32 StatusCodes.coded.known c)
task_condition_back (date c) = ap date (date_back c)
task_condition_back (duration c) = ap duration (duration_back c)
task_condition_back (array c) = ap array (array_back c)

abbrev pub TaskFilter : Type 0
TaskFilter = Or (FieldFilter Field TaskCondition)

abbrev pub V3TaskFilter : Type 0
V3TaskFilter = Or (V3FieldFilter V3Field V3TaskCondition)

abbrev pub no_filters : TaskFilter
no_filters = record { disjuncts = [] }

unfoldable pub filters_into : TaskFilter → V3TaskFilter
filters_into = or_convert (field_into task_field_into task_condition_into)

unfoldable pub filters_from : V3TaskFilter → TaskFilter
filters_from =
    or_convert (field_from task_field_from task_condition_from default_field default_condition)

pub filters_back : (f : TaskFilter) → filters_from (filters_into f) ≡ f
unfolding filters_into filters_from
filters_back =
    or_back (field_into task_field_into task_condition_into)
      (field_from task_field_from task_condition_from default_field default_condition)
      (field_back task_field_into task_field_from task_condition_into task_condition_from
        default_field default_condition task_field_back task_condition_back)

-- The filters of a client's list call: an alternative for each list of conditions.
abbrev pub alternatives : List (List (FieldFilter Field TaskCondition)) → TaskFilter
alternatives filters = record { disjuncts = map (λ and. record { conjuncts = and }) filters }
