-- ===== src/Objects/Results/Field.antt =====
-- packages/rust/armonik/src/objects/results/field.rs: the field of a result that a filter or a sort is
-- about. Its message is an optional wrapper of the number.
use armoni_k_api.Common.{ℤ, pos, is_pos, ◌≡◌, refl, Option, some, none, if◌then◌else◌}

pub data Field : Type 0 where
  unspecified session_id name owner_task_id status created_at completed_at result_id size created_by
        opaque_id manual_deletion :
      Field

abbrev pub default_field : Field
default_field = Field.result_id

unfoldable pub field_code : Field → ℤ
field_code Field.unspecified = pos 0
field_code Field.session_id = pos 1
field_code Field.name = pos 2
field_code Field.owner_task_id = pos 3
field_code Field.status = pos 4
field_code Field.created_at = pos 5
field_code Field.completed_at = pos 6
field_code Field.result_id = pos 7
field_code Field.size = pos 8
field_code Field.created_by = pos 9
field_code Field.opaque_id = pos 10
field_code Field.manual_deletion = pos 11

unfoldable pub field_decode : ℤ → Field
field_decode value =
    if is_pos value 0
    then Field.unspecified
    else if is_pos value 1
    then Field.session_id
    else if is_pos value 2
    then Field.name
    else if is_pos value 3
    then Field.owner_task_id
    else if is_pos value 4
    then Field.status
    else if is_pos value 5
    then Field.created_at
    else if is_pos value 6
    then Field.completed_at
    else if is_pos value 7
    then Field.result_id
    else if is_pos value 8
    then Field.size
    else if is_pos value 9
    then Field.created_by
    else if is_pos value 10
    then Field.opaque_id
    else if is_pos value 11
    then Field.manual_deletion
    else Field.unspecified

decoded : (f : Field) → field_decode (field_code f) ≡ f
unfolding field_decode field_code
decoded Field.unspecified = refl
decoded _ = refl

-- `v3::results::ResultField`, of which the raw field is the only kind.
abbrev pub V3Field : Type 0
V3Field = Option ℤ

unfoldable pub result_field_into : Field → V3Field
result_field_into f = some (field_code f)

unfoldable pub result_field_from : V3Field → Field
result_field_from (some code) = field_decode code
result_field_from none = Field.unspecified

pub result_field_back : (f : Field) → result_field_from (result_field_into f) ≡ f
unfolding result_field_into result_field_from
result_field_back f = decoded f
