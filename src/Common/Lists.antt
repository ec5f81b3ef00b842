-- ===== src/Common/Lists.antt =====
-- Lists and options over the native numbers.
use Prim.Native.Nat.{ℕ, suc}
use mathlib.Core.Path.{◌≡◌, refl, ap₂, subst}
use mathlib.Core.Option.{Option, none, some}
use mathlib.Core.List.{List, [], ◌∷◌, map}
use native.Mathlib.Omega.{arith}

-- `unwrap_or`, and `map_or_else(Default::default, f)`.
abbrev pub unwrap_or {ℓ} : {A : Type ℓ} → A → Option A → A
unwrap_or d none = d
unwrap_or d (some a) = a

abbrev pub map_or {ℓ κ} : {A : Type ℓ} {B : Type κ} → B → (A → B) → Option A → B
map_or d f none = d
map_or d f (some a) = f a

abbrev pub opt_map {ℓ κ} : {A : Type ℓ} {B : Type κ} → (A → B) → Option A → Option B
opt_map f none = none
opt_map f (some a) = some (f a)

module _ {ℓ κ} {A : Type ℓ} (P : A → Type κ) where
  -- What holds of the value of an option, if it has one.
  abbrev pub Holds : Option A → Type κ
  Holds none = Unit {κ}
  Holds (some a) = P a

  pub Holds-intro : (o : Option A) → ((a : A) → o ≡ some a → P a) → Holds o
  Holds-intro none h = tt
  Holds-intro (some a) h = h a refl

  pub Holds-some : (o : Option A) {a : A} → Holds o → o ≡ some a → P a
  Holds-some o h e = subst Holds e h

module _ {ℓ} {A : Type ℓ} where
  abbrev pub length : List A → ℕ
  length [] = 0
  length (x ∷ xs) = suc (length xs)

module _ {ℓ κ} {A : Type ℓ} {B : Type κ} where
  -- A conversion of every element that can be undone.
  pub map-map_retract :
      (f : A → B) (g : B → A) → ((a : A) → g (f a) ≡ a) → (xs : List A) → map g (map f xs) ≡ xs
  map-map_retract f g h [] = refl
  map-map_retract f g h (x ∷ xs) = ap₂ (λ a l. a ∷ l) (h x) (map-map_retract f g h xs)

  pub length-map : (f : A → B) (xs : List A) → length (map f xs) ≡ length xs
  length-map f [] = refl
  length-map f (x ∷ xs) = omega (arith, length-map f xs)
