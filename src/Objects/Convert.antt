-- ===== src/Objects/Convert.antt =====
-- packages/rust/armonik/src/objects/mod.rs and utils.rs: the arms of `impl_convert!`, which writes
-- the two conversions of a struct field by field, and `into_collect`.
use armoni_k_api.Common.{◌≡◌, refl, Option, none, some, List, map, map_or, opt_map, map-map_retract}

module _ {A B : Type 0} (into : A → B) where
  -- `* -> Option *`
  abbrev pub to_option : A → Option B
  to_option a = some (into a)

  -- `Option * -> *`, with `Default::default` for a field that is absent.
  abbrev pub from_option : B → Option A → B
  from_option default = map_or default into

  -- `Option * -> Option *`
  abbrev pub option_to_option : Option A → Option B
  option_to_option = opt_map into

  -- `List * -> List *`, by `into_collect`.
  abbrev pub into_collect : List A → List B
  into_collect = map into

module _ {A B : Type 0} (into : A → B) (from : B → A) (retract : (a : A) → from (into a) ≡ a) where
  pub option-retract : (o : Option A) → option_to_option from (option_to_option into o) ≡ o
  option-retract none = refl
  option-retract (some a) = λ i. some (retract a i)

  pub list-retract : (l : List A) → into_collect from (into_collect into l) ≡ l
  list-retract = map-map_retract into from retract
