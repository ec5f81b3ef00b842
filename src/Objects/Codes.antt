-- ===== src/Objects/Codes.antt =====
-- What every enum of packages/rust/armonik/src/objects owes to the protocol.
use armoni_k_api.Common.{ℤ, ◌≡◌, ◌≢◌, sym, ap, ◌∙◌}

-- Every value survives its code, and a code of no value is read as the fallback.
pub record IsCoded {A : Type 0} (from_i32 : ℤ → A) (as_i32 : A → ℤ) (fallback : A) : Type 0 where
  pub known : (a : A) → from_i32 (as_i32 a) ≡ a
  pub unknown : (v : ℤ) → ((a : A) → as_i32 a ≢ v) → from_i32 v ≡ fallback

-- The conversions to and from the generated enum undo one another and keep the number.
pub record IsMirrored {A B : Type 0} (into : A → B) (from : B → A) (as_i32 : A → ℤ)
    (v3_as_i32 : B → ℤ) : Type 0 where
  pub back : (a : A) → from (into a) ≡ a
  pub forth : (b : B) → into (from b) ≡ b
  pub numbers : (a : A) → as_i32 a ≡ v3_as_i32 (into a)

-- A value that is sent by way of the generated enum is read back from its number.
pub sent_back :
    {A B : Type 0} {into : A → B} {from : B → A} {as_i32 : A → ℤ} {v3_as_i32 : B → ℤ}
    {from_i32 : ℤ → A} {fallback : A}
    → IsMirrored into from as_i32 v3_as_i32
    → IsCoded from_i32 as_i32 fallback
    → (a : A) → from_i32 (v3_as_i32 (into a)) ≡ a
sent_back {from_i32} mirrored coded a = ap from_i32 (sym (mirrored.numbers a)) ∙ coded.known a
