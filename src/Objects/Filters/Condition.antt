-- ===== src/Objects/Filters/Condition.antt =====
-- packages/rust/armonik/src/objects/filters/filter.rs: a condition is a value and an operator. The
-- macro `impl_filter_condition!` writes the conversions for each operator; here the operator's own
-- conversions are parameters, `code` for the way to its number and `decode` for the way back.
use armoni_k_api.Common.{ℤ, ◌≡◌, Option, some, unwrap_or}

pub record Condition (Op A : Type 0) : Type 0 where
  pub value : A
  pub operator : Op

pub record V3Condition (A : Type 0) : Type 0 where
  pub value : A
  pub operator : ℤ

module _ {Op A : Type 0} (code : Op → ℤ) (decode : ℤ → Op) where
  unfoldable pub condition_into : Condition Op A → V3Condition A
  condition_into c = record { value = c.value; operator = code c.operator }

  unfoldable pub condition_from : V3Condition A → Condition Op A
  condition_from w = record { value = w.value; operator = decode w.operator }

  -- Dates and durations are optional in the message.
  unfoldable pub dated_into : Condition Op A → V3Condition (Option A)
  dated_into c = record { value = some c.value; operator = code c.operator }

  unfoldable pub dated_from : A → V3Condition (Option A) → Condition Op A
  dated_from default w = record { value = unwrap_or default w.value; operator = decode w.operator }

module _ {Op A : Type 0} (code : Op → ℤ) (decode : ℤ → Op)
    (back : (o : Op) → decode (code o) ≡ o) where
  pub condition_back :
      (c : Condition Op A) → condition_from code decode (condition_into code decode c) ≡ c
  unfolding condition_from condition_into
  condition_back c = λ i. record { value = c.value; operator = back c.operator i }

  pub dated_back :
      (default : A) (c : Condition Op A)
      → dated_from code decode default (dated_into code decode c) ≡ c
  unfolding dated_from dated_into
  dated_back default c = λ i. record { value = c.value; operator = back c.operator i }
