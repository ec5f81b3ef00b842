-- ===== src/Common/HashMap.antt =====
-- `std::collections::HashMap`: the list of its entries, with no key twice. It iterates over them in an
-- order of its own, and collecting entries overwrites the value of a key that comes again.
use mathlib.Core.Path.{◌≡◌, refl, sym, ap, ◌∙◌, subst}
use mathlib.Core.Logic.{◌↔◌}
use mathlib.Core.Bool.{Bool, true}
use mathlib.Core.Option.{Option, none, some}
use mathlib.Core.List.{List, [], ◌∷◌, map, Permᴰ}
use native.Mathlib.Omega.{arith}
use armoni_k_api.Common.Lists.{map-map_retract}
use armoni_k_api.Common.Tests.{if◌then◌else◌}

abbrev pub HashMap : Type 0 → Type 0 → Type 0
HashMap K V = List (K × V)

abbrev pub or_first {ℓ} : {A : Type ℓ} → Option A → Option A → Option A
or_first (some a) b = some a
or_first none b = b

-- The order in which the maps iterate over their entries, which the library leaves open.
pub record Iteration : Type 1 where
  pub order : {K V : Type 0} → HashMap K V → List (K × V)
  pub permutes : {K V : Type 0} (m : HashMap K V) → Permᴰ m (order m)

-- The equality of the keys, which decides the equality of the type.
pub record IsKeyEq {K : Type 0} (eq : K → K → Bool) : Type 0 where
  pub same : (a b : K) → eq a b ≡ true ↔ a ≡ b

module _ {K V : Type 0} (eq : K → K → Bool) where
  unfoldable pub lookup : K → HashMap K V → Option V
  lookup k [] = none
  lookup k ((j, v) ∷ m) = if eq k j then some v else lookup k m

  unfoldable pub insert : K → V → HashMap K V → HashMap K V
  insert k v [] = (k, v) ∷ []
  insert k v ((j, w) ∷ m) = if eq k j then (j, v) ∷ m else (j, w) ∷ insert k v m

  -- `collect` onto the entries that are there already.
  unfoldable pub collect_onto : HashMap K V → List (K × V) → HashMap K V
  collect_onto m [] = m
  collect_onto m ((k, v) ∷ l) = collect_onto (insert k v m) l

  abbrev pub collect : List (K × V) → HashMap K V
  collect = collect_onto []

  -- The value of the last entry of a key.
  unfoldable pub last : K → List (K × V) → Option V
  last k [] = none
  last k ((j, v) ∷ l) = or_first (last k l) (if eq k j then some v else none)

  abbrev pub NodupKeys : List (K × V) → Type 0
  NodupKeys [] = Unit
  NodupKeys ((k, _) ∷ m) = (lookup k m ≡ none) × NodupKeys m

module _ {K V : Type 0} (eq : K → K → Bool) (key : IsKeyEq eq) where
  pub lookup-insert :
      (k j : K) (v : V) (m : HashMap K V)
      → lookup eq k (insert eq j v m) ≡ (if eq k j then some v else lookup eq k m)
  unfolding lookup insert
  lookup-insert k j v [] = refl
  lookup-insert k j v ((i, w) ∷ m) =
      ground (arith, lookup-insert k j v m, key.same k j, key.same k i, key.same j i)

  -- A map that is collected holds the last value of every key.
  pub lookup-collect :
      (k : K) (m : HashMap K V) (l : List (K × V))
      → lookup eq k (collect_onto eq m l) ≡ or_first (last eq k l) (lookup eq k m)
  unfolding collect_onto last
  lookup-collect k m [] = refl
  lookup-collect k m ((j, v) ∷ l) =
      ground (arith, lookup-collect k (insert eq j v m) l, lookup-insert k j v m)

  last-NodupKeys : (k : K) (l : List (K × V)) → NodupKeys eq l → last eq k l ≡ lookup eq k l
  unfolding last lookup
  last-NodupKeys k [] h = refl
  last-NodupKeys k ((j, v) ∷ l) h = ground (arith, last-NodupKeys k l h.1, h.0, key.same k j)

  -- A map in another order holds the same values.
  SameMap : List (K × V) → List (K × V) → Type 0
  SameMap l₁ l₂ = NodupKeys eq l₂ × ((k : K) → lookup eq k l₁ ≡ lookup eq k l₂)

  SameMap-cons :
      (e : K × V) (l₁ l₂ : List (K × V))
      → NodupKeys eq (e ∷ l₁)
      → SameMap l₁ l₂
      → SameMap (e ∷ l₁) (e ∷ l₂)
  unfolding SameMap lookup
  SameMap-cons (k, v) l₁ l₂ h (nodup, same) =
      ((sym (same k) ∙ h.0, nodup), λ j. ap (λ o. if eq j k then some v else o) (same j))

  SameMap-swap :
      (a b : K × V) (l : List (K × V)) → NodupKeys eq (a ∷ b ∷ l) → SameMap (a ∷ b ∷ l) (b ∷ a ∷ l)
  unfolding SameMap lookup
  SameMap-swap (i, v) (j, w) l h = (
    (ground (arith, h.0, h.1.0, key.same i j, key.same j i), (ground (arith, h.0), h.1.1)),
    λ k. ground (arith, h.0, key.same i j, key.same k i, key.same k j),
  )

  SameMap-Permᴰ : (l₁ l₂ : List (K × V)) → NodupKeys eq l₁ → Permᴰ l₁ l₂ → SameMap l₁ l₂
  unfolding SameMap lookup
  SameMap-Permᴰ _ _ h Permᴰ.nil = (tt, λ k. refl)
  SameMap-Permᴰ _ _ h (Permᴰ.cons {a = a} {b = b} {l₁ = l₁} {l₂ = l₂} e p) =
      subst (λ b. SameMap (a ∷ l₁) (b ∷ l₂)) e (SameMap-cons a l₁ l₂ h (SameMap-Permᴰ l₁ l₂ h.1 p))
  SameMap-Permᴰ _ _ h (Permᴰ.swap {a = a} {b = b} {a' = a'} {l = l} e e') =
      subst (λ y. SameMap (a ∷ b ∷ l) (a' ∷ y ∷ l)) e
        (subst (λ x. SameMap (a ∷ b ∷ l) (x ∷ a ∷ l)) e' (SameMap-swap a b l h))
  SameMap-Permᴰ _ _ h (Permᴰ.trans {l₁ = l₁} {l₂ = l₂} {l₃ = l₃} p q) =
      let (nodup, same) = SameMap-Permᴰ l₁ l₂ h p in
      let (nodup', same') = SameMap-Permᴰ l₂ l₃ nodup q in (nodup', λ k. same k ∙ same' k)

  last-or_first : (k : K) (l : List (K × V)) → or_first (last eq k l) (lookup eq k []) ≡ last eq k l
  unfolding lookup
  last-or_first k l = ground arith

  -- Of the entries that are collected, the last of a key counts.
  pub lookup-last : (k : K) (l : List (K × V)) → lookup eq k (collect eq l) ≡ last eq k l
  lookup-last k l = lookup-collect k [] l ∙ last-or_first k l

  -- Entries that are collected in the order in which a map iterates over them are that map again.
  pub lookup-iterated :
      (m l : List (K × V))
      → NodupKeys eq m
      → Permᴰ m l
      → (k : K) → lookup eq k (collect eq l) ≡ lookup eq k m
  unfolding SameMap
  lookup-iterated m l h p k =
      let (nodup, same) = SameMap-Permᴰ m l h p in
      lookup-last k l ∙ last-NodupKeys k l nodup ∙ sym (same k)

  insert-NodupKeys :
      (k : K) (v : V) (m : HashMap K V) → NodupKeys eq m → NodupKeys eq (insert eq k v m)
  unfolding lookup insert
  insert-NodupKeys k v [] h = (refl, tt)
  insert-NodupKeys k v ((j, w) ∷ m) h = ground (
    arith,
    h.0,
    h.1,
    insert-NodupKeys k v m h.1,
    lookup-insert j k v m,
    key.same j k,
    key.same k j,
  )

  -- A map that is collected has no key twice.
  pub collect_onto-NodupKeys :
      (m : HashMap K V) (l : List (K × V)) → NodupKeys eq m → NodupKeys eq (collect_onto eq m l)
  unfolding collect_onto
  collect_onto-NodupKeys m [] h = h
  collect_onto-NodupKeys m ((k, v) ∷ l) h =
      collect_onto-NodupKeys (insert eq k v m) l (insert-NodupKeys k v m h)

  -- What `into_iter`, a conversion of every entry, its inverse and `collect` make of a map has the same
  -- values.
  pub lookup-reread :
      {W : Type 0} (it : Iteration) (into : K × V → W) (from : W → K × V)
      → ((e : K × V) → from (into e) ≡ e)
      → (m : HashMap K V) → NodupKeys eq m
      → (k : K) → lookup eq k (collect eq (map from (map into (it.order m)))) ≡ lookup eq k m
  lookup-reread it into from back m h k =
      ap (λ l. lookup eq k (collect eq l)) (map-map_retract into from back (it.order m))
      ∙ lookup-iterated m (it.order m) h (it.permutes m) k
