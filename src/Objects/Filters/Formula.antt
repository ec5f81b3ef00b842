-- ===== src/Objects/Filters/Formula.antt =====
-- packages/rust/armonik/src/objects/filters/mod.rs: `impl_filter!`, a disjunction of conjunctions of
-- conditions on fields, over the types and the conversions of a field and of a condition.
use armoni_k_api.Common.{◌≡◌, Option, List}
use armoni_k_api.Objects.Convert.{to_option, from_option, into_collect, list-retract}

pub record FieldFilter (F C : Type 0) : Type 0 where
  pub field : F
  pub condition : C

pub record V3FieldFilter (F C : Type 0) : Type 0 where
  pub field : Option F
  pub value_condition : Option C

-- `And` and `Or` of the source, and the messages of the same shape.
pub record And (T : Type 0) : Type 0 where
  pub conjuncts : List T

pub record Or (T : Type 0) : Type 0 where
  pub disjuncts : List (And T)

-- `list and` and `list or`, for the conversion `convert` of what they hold.
module _ {T W : Type 0} (convert : T → W) where
  abbrev pub and_convert : And T → And W
  and_convert a = record { conjuncts = into_collect convert a.conjuncts }

  unfoldable pub or_convert : Or T → Or W
  or_convert o = record { disjuncts = into_collect and_convert o.disjuncts }

module _ {T W : Type 0} (into : T → W) (from : W → T) (back : (t : T) → from (into t) ≡ t) where
  and_back : (a : And T) → and_convert from (and_convert into a) ≡ a
  and_back a = λ i. record { conjuncts = list-retract into from back a.conjuncts i }

  pub or_back : (o : Or T) → or_convert from (or_convert into o) ≡ o
  unfolding or_convert
  or_back o = λ i. record {
    disjuncts = list-retract (and_convert into) (and_convert from) and_back o.disjuncts i;
  }

module _ {F C V3F V3C : Type 0} where
  unfoldable pub field_into : (F → V3F) → (C → V3C) → FieldFilter F C → V3FieldFilter V3F V3C
  field_into f c t = record {
    field = to_option f t.field;
    value_condition = to_option c t.condition;
  }

  unfoldable pub field_from :
      (V3F → F) → (V3C → C) → F → C → V3FieldFilter V3F V3C → FieldFilter F C
  field_from f c no_field no_condition w = record {
    field = from_option f no_field w.field;
    condition = from_option c no_condition w.value_condition;
  }

  pub field_back :
      (f_into : F → V3F) (f_from : V3F → F) (c_into : C → V3C) (c_from : V3C → C) (no_field : F)
      (no_condition : C)
      → ((a : F) → f_from (f_into a) ≡ a)
      → ((c : C) → c_from (c_into c) ≡ c)
      → (t : FieldFilter F C)
      → field_from f_from c_from no_field no_condition (field_into f_into c_into t) ≡ t
  unfolding field_into field_from
  field_back f_into f_from c_into c_from no_field no_condition f_back c_back t =
      λ i. record { field = f_back t.field i; condition = c_back t.condition i }
