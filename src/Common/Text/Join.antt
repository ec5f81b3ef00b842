-- ===== src/Common/Text/Join.antt =====
-- `split` is undone by putting the separator back between the parts.
use Prim.Native.Char.{Char, code}
use Prim.Native.String.{String, [], ◌∷◌, ◌++◌}
use mathlib.Core.Path.{◌≡◌, refl, sym, ap, ap₂, ◌∙◌, subst}
use mathlib.Core.Logic.{◌⊎◌, inl, inr}
use mathlib.Core.Bool.{true, false}
use mathlib.Core.List.{List}
use text.Mathlib.TextEquality.{Char-path}
use text.Mathlib.TextLemmas.{nil-append, cons-append}
use armoni_k_api.Common.Tests.{◌==◌, ==_iff, Bool-cases}
use armoni_k_api.Common.Text.{split, extend, Lacks}

module _ (sep : Char) where
  pub join : List String → String
  join List.[] = []
  join (List.◌∷◌ p List.[]) = p
  join (List.◌∷◌ p (List.◌∷◌ q ps)) = p ++ (sep ∷ join (List.◌∷◌ q ps))

  -- The list has a part, and no part holds the separator.
  abbrev AllLack : List String → Type 0
  AllLack List.[] = Unit {0}
  AllLack (List.◌∷◌ p ps) = Lacks (code sep) p × AllLack ps

  abbrev AreParts : List String → Type 0
  AreParts List.[] = ⊥
  AreParts (List.◌∷◌ p ps) = Lacks (code sep) p × AllLack ps

  AreParts-extend :
      (c : Char) (ps : List String)
      → (code c == code sep) ≡ false
      → AreParts ps
      → AreParts (extend c ps)
  AreParts-extend c List.[] e h = h
  AreParts-extend c (List.◌∷◌ p ps) e (hp, hps) = ((e, hp), hps)

  join-extend : (c : Char) (ps : List String) → AreParts ps → join (extend c ps) ≡ c ∷ join ps
  unfolding join
  join-extend c List.[] h = absurd h
  join-extend c (List.◌∷◌ p List.[]) h = refl
  join-extend c (List.◌∷◌ p (List.◌∷◌ q ps)) h = cons-append c p _

  join-nil_cons : (ps : List String) → AreParts ps → join (List.◌∷◌ [] ps) ≡ sep ∷ join ps
  unfolding join
  join-nil_cons List.[] h = absurd h
  join-nil_cons (List.◌∷◌ p ps) h = nil-append _

  AreParts-nil_cons : (ps : List String) → AreParts ps → AreParts (List.◌∷◌ [] ps)
  AreParts-nil_cons List.[] h = absurd h
  AreParts-nil_cons (List.◌∷◌ p ps) h = (tt, h)

  pub split-AreParts : (s : String) → AreParts (split s (code sep))
  unfolding split
  split-AreParts [] = (tt, tt)
  split-AreParts (c ∷ s) = split_step c s (split-AreParts s) (Bool-cases _)
    where
      split_step :
          (c : Char) (s : String)
          → AreParts (split s (code sep))
          → ((code c == code sep) ≡ true) ⊎ ((code c == code sep) ≡ false)
          → AreParts (split (c ∷ s) (code sep))
      split_step c s ih (inl e) = rw e (AreParts-nil_cons _ ih)
      split_step c s ih (inr e) = rw e (AreParts-extend c _ e ih)

  pub join-split : (s : String) → join (split s (code sep)) ≡ s
  unfolding split
  join-split [] = unfold join in refl
  join-split (c ∷ s) = join_step c s (join-split s) (Bool-cases _)
    where
      join_step :
          (c : Char) (s : String)
          → join (split s (code sep)) ≡ s
          → ((code c == code sep) ≡ true) ⊎ ((code c == code sep) ≡ false)
          → join (split (c ∷ s) (code sep)) ≡ c ∷ s
      join_step c s ih (inl e) = rw e (
          join-nil_cons _ (split-AreParts s)
          ∙ ap₂ (λ d t. d ∷ t) (sym (Char-path c sep ((==_iff _ _).0 e))) ih)
      join_step c s ih (inr e) = rw e (join-extend c _ (split-AreParts s) ∙ ap (λ t. c ∷ t) ih)

  -- A text with two parts is those parts around one separator.
  pub split_two :
      (s p q : String)
      → split s (code sep) ≡ List.◌∷◌ p (List.◌∷◌ q List.[])
      → (s ≡ p ++ (sep ∷ q)) × Lacks (code sep) p × Lacks (code sep) q
  split_two s p q h =
      let parts : AreParts (List.◌∷◌ p (List.◌∷◌ q List.[])) =
        subst AreParts h (split-AreParts s) in
      (sym (join-split s) ∙ ap join h ∙ (unfold join in refl), parts.0, parts.1.0)
