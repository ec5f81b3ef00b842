-- ===== src/Objects/Filters/Kinds.antt =====
-- packages/rust/armonik/src/objects/filters/filter.rs: the conditions on a text, a number, a Boolean, a
-- status, a date, a duration and an array, each over the operators of its kind.
use armoni_k_api.Common.{ℤ, pos, String, ◌≡◌, Bool, Option}
use armoni_k_api.Objects.Codes.{sent_back}
use armoni_k_api.Objects.TaskOptions.{ProtoDuration}
use armoni_k_api.Objects.Tasks.Summary.{Timestamp}
use armoni_k_api.Objects.Filters.Condition.{
  Condition, V3Condition, condition_into, condition_from, condition_back, dated_into, dated_from,
  dated_back,
}
use armoni_k_api.Objects.Enums.FilterStatusOperator as StatusOp
use armoni_k_api.Objects.Enums.FilterStringOperator as StringOp
use armoni_k_api.Objects.Enums.FilterNumberOperator as NumberOp
use armoni_k_api.Objects.Enums.FilterBooleanOperator as BooleanOp
use armoni_k_api.Objects.Enums.FilterDateOperator as DateOp
use armoni_k_api.Objects.Enums.FilterDurationOperator as DurationOp
use armoni_k_api.Objects.Enums.FilterArrayOperator as ArrayOp

abbrev no_time : Timestamp
no_time = record { seconds = pos 0; nanos = pos 0 }

abbrev no_duration : ProtoDuration
no_duration = record { seconds = pos 0; nanos = pos 0 }

-- The numbers of the operators, by way of the generated enums.
abbrev string_code : StringOp.FilterStringOperator → ℤ
string_code o = StringOp.v3_as_i32 (StringOp.into_v3 o)

abbrev number_code : NumberOp.FilterNumberOperator → ℤ
number_code o = NumberOp.v3_as_i32 (NumberOp.into_v3 o)

abbrev boolean_code : BooleanOp.FilterBooleanOperator → ℤ
boolean_code o = BooleanOp.v3_as_i32 (BooleanOp.into_v3 o)

abbrev date_code : DateOp.FilterDateOperator → ℤ
date_code o = DateOp.v3_as_i32 (DateOp.into_v3 o)

abbrev duration_code : DurationOp.FilterDurationOperator → ℤ
duration_code o = DurationOp.v3_as_i32 (DurationOp.into_v3 o)

abbrev array_code : ArrayOp.FilterArrayOperator → ℤ
array_code o = ArrayOp.v3_as_i32 (ArrayOp.into_v3 o)

abbrev pub FilterString : Type 0
FilterString = Condition StringOp.FilterStringOperator String

abbrev pub V3FilterString : Type 0
V3FilterString = V3Condition String

unfoldable pub string_into : FilterString → V3FilterString
string_into = condition_into string_code StringOp.from_i32

unfoldable pub string_from : V3FilterString → FilterString
string_from = condition_from string_code StringOp.from_i32

pub string_back : (c : FilterString) → string_from (string_into c) ≡ c
unfolding string_from string_into
string_back =
    condition_back string_code StringOp.from_i32 (sent_back StringOp.mirrored StringOp.coded)

abbrev pub FilterNumber : Type 0
FilterNumber = Condition NumberOp.FilterNumberOperator ℤ

abbrev pub V3FilterNumber : Type 0
V3FilterNumber = V3Condition ℤ

unfoldable pub number_into : FilterNumber → V3FilterNumber
number_into = condition_into number_code NumberOp.from_i32

unfoldable pub number_from : V3FilterNumber → FilterNumber
number_from = condition_from number_code NumberOp.from_i32

pub number_back : (c : FilterNumber) → number_from (number_into c) ≡ c
unfolding number_from number_into
number_back =
    condition_back number_code NumberOp.from_i32 (sent_back NumberOp.mirrored NumberOp.coded)

abbrev pub FilterBoolean : Type 0
FilterBoolean = Condition BooleanOp.FilterBooleanOperator Bool

abbrev pub V3FilterBoolean : Type 0
V3FilterBoolean = V3Condition Bool

unfoldable pub boolean_into : FilterBoolean → V3FilterBoolean
boolean_into = condition_into boolean_code BooleanOp.from_i32

unfoldable pub boolean_from : V3FilterBoolean → FilterBoolean
boolean_from = condition_from boolean_code BooleanOp.from_i32

pub boolean_back : (c : FilterBoolean) → boolean_from (boolean_into c) ≡ c
unfolding boolean_from boolean_into
boolean_back =
    condition_back boolean_code BooleanOp.from_i32 (sent_back BooleanOp.mirrored BooleanOp.coded)

abbrev pub FilterDate : Type 0
FilterDate = Condition DateOp.FilterDateOperator Timestamp

abbrev pub V3FilterDate : Type 0
V3FilterDate = V3Condition (Option Timestamp)

unfoldable pub date_into : FilterDate → V3FilterDate
date_into = dated_into date_code DateOp.from_i32

unfoldable pub date_from : V3FilterDate → FilterDate
date_from = dated_from date_code DateOp.from_i32 no_time

pub date_back : (c : FilterDate) → date_from (date_into c) ≡ c
unfolding date_from date_into
date_back = dated_back date_code DateOp.from_i32 (sent_back DateOp.mirrored DateOp.coded) no_time

abbrev pub FilterDuration : Type 0
FilterDuration = Condition DurationOp.FilterDurationOperator ProtoDuration

abbrev pub V3FilterDuration : Type 0
V3FilterDuration = V3Condition (Option ProtoDuration)

unfoldable pub duration_into : FilterDuration → V3FilterDuration
duration_into = dated_into duration_code DurationOp.from_i32

unfoldable pub duration_from : V3FilterDuration → FilterDuration
duration_from = dated_from duration_code DurationOp.from_i32 no_duration

pub duration_back : (c : FilterDuration) → duration_from (duration_into c) ≡ c
unfolding duration_from duration_into
duration_back =
    dated_back duration_code DurationOp.from_i32 (sent_back DurationOp.mirrored DurationOp.coded)
      no_duration

abbrev pub FilterArray : Type 0
FilterArray = Condition ArrayOp.FilterArrayOperator String

abbrev pub V3FilterArray : Type 0
V3FilterArray = V3Condition String

unfoldable pub array_into : FilterArray → V3FilterArray
array_into = condition_into array_code ArrayOp.from_i32

unfoldable pub array_from : V3FilterArray → FilterArray
array_from = condition_from array_code ArrayOp.from_i32

pub array_back : (c : FilterArray) → array_from (array_into c) ≡ c
unfolding array_from array_into
array_back = condition_back array_code ArrayOp.from_i32 (sent_back ArrayOp.mirrored ArrayOp.coded)

-- `FilterStatus<T>`, both of whose fields are sent as numbers.
pub record FilterStatus (T : Type 0) : Type 0 where
  pub value : T
  pub operator : StatusOp.FilterStatusOperator

pub record V3FilterStatus : Type 0 where
  pub value : ℤ
  pub operator : ℤ

module _ {T : Type 0} (as_i32 : T → ℤ) (from_i32 : ℤ → T) where
  unfoldable pub status_into : FilterStatus T → V3FilterStatus
  status_into c = record { value = as_i32 c.value; operator = StatusOp.as_i32 c.operator }

  unfoldable pub status_from : V3FilterStatus → FilterStatus T
  status_from w = record { value = from_i32 w.value; operator = StatusOp.from_i32 w.operator }

  pub status_back :
      ((a : T) → from_i32 (as_i32 a) ≡ a) → (c : FilterStatus T) → status_from (status_into c) ≡ c
  unfolding status_into status_from
  status_back known c =
      λ i. record { value = known c.value i; operator = StatusOp.coded.known c.operator i }
