-- ===== src/Objects/Sessions/Field.antt =====
-- packages/rust/armonik/src/objects/sessions/field.rs: the field that a filter or a sort is about.
use armoni_k_api.Common.{ℤ, String, ◌≡◌, refl, ap, Option, some, none}
use armoni_k_api.Objects.Enums.RawField as RawCodes
use armoni_k_api.Objects.Enums.TaskOptionField as OptionCodes

pub data Field : Type 0 where
  raw : RawCodes.RawField → Field
  task_option : OptionCodes.TaskOptionField → Field
  task_option_generic : String → Field

abbrev pub default_field : Field
default_field = Field.raw RawCodes.default

-- The kinds of field of the message, the first two of which wrap a number.
pub data V3FieldKind : Type 0 where
  session_raw_field : ℤ → V3FieldKind
  task_option_field : ℤ → V3FieldKind
  task_option_generic_field : String → V3FieldKind

abbrev pub V3Field : Type 0
V3Field = Option V3FieldKind

unfoldable pub session_field_into : Field → V3Field
session_field_into (Field.raw field) = some (session_raw_field (RawCodes.as_i32 field))
session_field_into (Field.task_option field) = some (task_option_field (OptionCodes.as_i32 field))
session_field_into (Field.task_option_generic field) = some (task_option_generic_field field)

unfoldable pub session_field_from : V3Field → Field
session_field_from (some (session_raw_field code)) = Field.raw (RawCodes.from_i32 code)
session_field_from (some (task_option_field code)) = Field.task_option (OptionCodes.from_i32 code)
session_field_from (some (task_option_generic_field field)) = Field.task_option_generic field
session_field_from none = default_field

pub session_field_back : (f : Field) → session_field_from (session_field_into f) ≡ f
unfolding session_field_into session_field_from
session_field_back (Field.raw field) = ap Field.raw (RawCodes.coded.known field)
session_field_back (Field.task_option field) = ap Field.task_option (OptionCodes.coded.known field)
session_field_back (Field.task_option_generic field) = refl
