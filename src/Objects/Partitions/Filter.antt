-- ===== src/Objects/Partitions/Filter.antt =====
-- packages/rust/armonik/src/objects/partitions/filter.rs: the conditions on partitions, and their filters.
use armoni_k_api.Common.{◌≡◌, ap, List, [], map}
use armoni_k_api.Objects.Enums.FilterStringOperator as StringOp
use armoni_k_api.Objects.Filters.Kinds.{
  FilterString, V3FilterString, string_into, string_from, string_back, FilterNumber, V3FilterNumber,
  number_into, number_from, number_back, FilterBoolean, V3FilterBoolean, boolean_into, boolean_from,
  boolean_back, FilterArray, V3FilterArray, array_into, array_from, array_back,
}
use armoni_k_api.Objects.Filters.Formula.{
  FieldFilter, V3FieldFilter, Or, or_convert, or_back, field_into, field_from, field_back,
}
use armoni_k_api.Objects.Partitions.Field.{
  Field, V3Field, default_field, partition_field_into, partition_field_from, partition_field_back,
}

pub data PartitionCondition : Type 0 where
  text : FilterString → PartitionCondition
  number : FilterNumber → PartitionCondition
  boolean : FilterBoolean → PartitionCondition
  array : FilterArray → PartitionCondition

pub data V3PartitionCondition : Type 0 where
  filter_string : V3FilterString → V3PartitionCondition
  filter_number : V3FilterNumber → V3PartitionCondition
  filter_boolean : V3FilterBoolean → V3PartitionCondition
  filter_array : V3FilterArray → V3PartitionCondition

abbrev pub default_condition : PartitionCondition
default_condition = text (record { value = ""; operator = StringOp.default })

unfoldable pub partition_condition_into : PartitionCondition → V3PartitionCondition
partition_condition_into (text c) = filter_string (string_into c)
partition_condition_into (number c) = filter_number (number_into c)
partition_condition_into (boolean c) = filter_boolean (boolean_into c)
partition_condition_into (array c) = filter_array (array_into c)

unfoldable pub partition_condition_from : V3PartitionCondition → PartitionCondition
partition_condition_from (filter_string w) = text (string_from w)
partition_condition_from (filter_number w) = number (number_from w)
partition_condition_from (filter_boolean w) = boolean (boolean_from w)
partition_condition_from (filter_array w) = array (array_from w)

partition_condition_back :
    (c : PartitionCondition) → partition_condition_from (partition_condition_into c) ≡ c
unfolding partition_condition_from partition_condition_into
partition_condition_back (text c) = ap text (string_back c)
partition_condition_back (number c) = ap number (number_back c)
partition_condition_back (boolean c) = ap boolean (boolean_back c)
partition_condition_back (array c) = ap array (array_back c)

abbrev pub PartitionFilter : Type 0
PartitionFilter = Or (FieldFilter Field PartitionCondition)

abbrev pub V3PartitionFilter : Type 0
V3PartitionFilter = Or (V3FieldFilter V3Field V3PartitionCondition)

abbrev pub no_filters : PartitionFilter
no_filters = record { disjuncts = [] }

unfoldable pub filters_into : PartitionFilter → V3PartitionFilter
filters_into = or_convert (field_into partition_field_into partition_condition_into)

unfoldable pub filters_from : V3PartitionFilter → PartitionFilter
filters_from =
    or_convert
      (field_from partition_field_from partition_condition_from default_field default_condition)

pub filters_back : (f : PartitionFilter) → filters_from (filters_into f) ≡ f
unfolding filters_into filters_from
filters_back =
    or_back (field_into partition_field_into partition_condition_into)
      (field_from partition_field_from partition_condition_from default_field default_condition)
      (field_back partition_field_into partition_field_from partition_condition_into
        partition_condition_from default_field default_condition partition_field_back
        partition_condition_back)

-- The filters of a client's list call: an alternative for each list of conditions.
abbrev pub alternatives : List (List (FieldFilter Field PartitionCondition)) → PartitionFilter
alternatives filters = record { disjuncts = map (λ and. record { conjuncts = and }) filters }
