-- ===== src/Objects/Tasks/Field.antt =====
-- packages/rust/armonik/src/objects/tasks/field.rs: the field that a filter or a sort is about.
use armoni_k_api.Common.{ℤ, String, ◌≡◌, refl, ap, Option, some, none}
use armoni_k_api.Objects.Enums.SummaryField as RawCodes
use armoni_k_api.Objects.Enums.TaskOptionField as OptionCodes

pub data Field : Type 0 where
  summary : RawCodes.SummaryField → Field
  option : OptionCodes.TaskOptionField → Field
  option_generic : String → Field

abbrev pub default_field : Field
default_field = Field.summary RawCodes.default

-- The kinds of field of the message, the first two of which wrap a number.
pub data V3FieldKind : Type 0 where
  task_summary_field : ℤ → V3FieldKind
  task_option_field : ℤ → V3FieldKind
  task_option_generic_field : String → V3FieldKind

abbrev pub V3Field : Type 0
V3Field = Option V3FieldKind

unfoldable pub task_field_into : Field → V3Field
task_field_into (Field.summary field) = some (task_summary_field (RawCodes.as_i32 field))
task_field_into (Field.option field) = some (task_option_field (OptionCodes.as_i32 field))
task_field_into (Field.option_generic field) = some (task_option_generic_field field)

unfoldable pub task_field_from : V3Field → Field
task_field_from (some (task_summary_field code)) = Field.summary (RawCodes.from_i32 code)
task_field_from (some (task_option_field code)) = Field.option (OptionCodes.from_i32 code)
task_field_from (some (task_option_generic_field field)) = Field.option_generic field
task_field_from none = default_field

pub task_field_back : (f : Field) → task_field_from (task_field_into f) ≡ f
unfolding task_field_into task_field_from
task_field_back (Field.summary field) = ap Field.summary (RawCodes.coded.known field)
task_field_back (Field.option field) = ap Field.option (OptionCodes.coded.known field)
task_field_back (Field.option_generic field) = refl
