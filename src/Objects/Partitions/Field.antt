-- ===== src/Objects/Partitions/Field.antt =====
-- packages/rust/armonik/src/objects/partitions/field.rs: the field that a filter or a sort is about.
use armoni_k_api.Common.{ℤ, pos, is_pos, ◌≡◌, refl, Option, some, none, if◌then◌else◌}

pub data Field : Type 0 where
  unspecified id parent_partition_ids pod_reserved pod_max preemption_percentage priority : Field

abbrev pub default_field : Field
default_field = Field.id

-- `value as i32`.
unfoldable pub field_code : Field → ℤ
field_code Field.unspecified = pos 0
field_code Field.id = pos 1
field_code Field.parent_partition_ids = pos 2
field_code Field.pod_reserved = pos 3
field_code Field.pod_max = pos 4
field_code Field.preemption_percentage = pos 5
field_code Field.priority = pos 6

unfoldable pub field_decode : ℤ → Field
field_decode value =
    if is_pos value 0
    then Field.unspecified
    else if is_pos value 1
    then Field.id
    else if is_pos value 2
    then Field.parent_partition_ids
    else if is_pos value 3
    then Field.pod_reserved
    else if is_pos value 4
    then Field.pod_max
    else if is_pos value 5
    then Field.preemption_percentage
    else if is_pos value 6
    then Field.priority
    else Field.unspecified

decoded : (f : Field) → field_decode (field_code f) ≡ f
unfolding field_decode field_code
decoded Field.unspecified = refl
decoded _ = refl

-- The message, of which the raw field is the only kind.
abbrev pub V3Field : Type 0
V3Field = Option ℤ

unfoldable pub partition_field_into : Field → V3Field
partition_field_into f = some (field_code f)

unfoldable pub partition_field_from : V3Field → Field
partition_field_from (some code) = field_decode code
partition_field_from none = Field.unspecified

pub partition_field_back : (f : Field) → partition_field_from (partition_field_into f) ≡ f
unfolding partition_field_into partition_field_from
partition_field_back f = decoded f
