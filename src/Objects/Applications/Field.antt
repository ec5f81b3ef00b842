-- ===== src/Objects/Applications/Field.antt =====
-- packages/rust/armonik/src/objects/applications/field.rs: the field that a filter or a sort is about.
use armoni_k_api.Common.{ℤ, pos, is_pos, ◌≡◌, refl, Option, some, none, if◌then◌else◌}

pub data Field : Type 0 where
  unspecified name version namespace service : Field

abbrev pub default_field : Field
default_field = Field.name

-- `value as i32`.
unfoldable pub field_code : Field → ℤ
field_code Field.unspecified = pos 0
field_code Field.name = pos 1
field_code Field.version = pos 2
field_code Field.namespace = pos 3
field_code Field.service = pos 4

unfoldable pub field_decode : ℤ → Field
field_decode value =
    if is_pos value 0
    then Field.unspecified
    else if is_pos value 1
    then Field.name
    else if is_pos value 2
    then Field.version
    else if is_pos value 3
    then Field.namespace
    else if is_pos value 4
    then Field.service
    else Field.unspecified

decoded : (f : Field) → field_decode (field_code f) ≡ f
unfolding field_decode field_code
decoded Field.unspecified = refl
decoded _ = refl

-- The message, of which the raw field is the only kind.
abbrev pub V3Field : Type 0
V3Field = Option ℤ

unfoldable pub application_field_into : Field → V3Field
application_field_into f = some (field_code f)

unfoldable pub application_field_from : V3Field → Field
application_field_from (some code) = field_decode code
application_field_from none = Field.unspecified

pub application_field_back : (f : Field) → application_field_from (application_field_into f) ≡ f
unfolding application_field_into application_field_from
application_field_back f = decoded f
