-- ===== src/Common/Text.antt =====
-- What the Rust standard library does with text, as far as the code uses it: `is_empty`,
-- `split(char)` and the decimal parsers of `u64` and `u32`.
pub mod Join
use Prim.Native.Nat.{ℕ, ◌+◌, ◌-◌, ◌*◌, ◌≤◌}
use Prim.Native.Char.{Char, code}
use Prim.Native.String.{String, [], ◌∷◌, ◌++◌}
use mathlib.Core.Path.{◌≡◌, refl}
use mathlib.Core.Logic.{◌≢◌}
use mathlib.Core.Bool.{Bool, true, false, ◌&&◌}
use mathlib.Core.List.{List}
use native.Mathlib.Omega.{arith}
use text.Mathlib.TextLemmas.{nil-append, cons-append}
use armoni_k_api.Common.Tests.{◌==◌, leb, ltb, if◌then◌else◌}
use armoni_k_api.Common.Outcome.{Result, ok, err}

abbrev pub is_empty : String → Bool
is_empty [] = true
is_empty (c ∷ s) = false

-- `s.is_empty()` holds of the empty text alone.
pub is_empty→eq : (s : String) → is_empty s ≡ true → s ≡ []
is_empty→eq [] h = refl
is_empty→eq (c ∷ s) h = cc

pub is_empty-ne : (s : String) → is_empty s ≡ false → s ≢ []
is_empty-ne [] h e = cc
is_empty-ne (c ∷ s) h e = cc

-- Puts a character in front of the first part.
abbrev pub extend : Char → List String → List String
extend c List.[] = List.[]
extend c (List.◌∷◌ p ps) = List.◌∷◌ (c ∷ p) ps

-- `s.split(sep)`: the parts between the separators, at least one.
unfoldable pub split : String → ℕ → List String
split [] sep = List.◌∷◌ [] List.[]
split (c ∷ s) sep =
    let rest = split s sep in if code c == sep then List.◌∷◌ [] rest else extend c rest

-- No character of the text is the separator.
abbrev pub Lacks : ℕ → String → Type 0
Lacks sep [] = Unit {0}
Lacks sep (c ∷ s) = ((code c == sep) ≡ false) × Lacks sep s

pub split_of_Lacks : (s : String) (sep : ℕ) → Lacks sep s → split s sep ≡ List.◌∷◌ s List.[]
unfolding split
split_of_Lacks [] sep h = refl
split_of_Lacks (c ∷ s) sep (hc, hs) = rw (hc, split_of_Lacks s sep hs)

split_at_sep :
    (c : Char) (s : String) (sep : ℕ)
    → (code c == sep) ≡ true
    → split (c ∷ s) sep ≡ List.◌∷◌ [] (split s sep)
unfolding split
split_at_sep c s sep e = rw e

split_past :
    (c : Char) (s : String) (sep : ℕ)
    → (code c == sep) ≡ false
    → split (c ∷ s) sep ≡ extend c (split s sep)
unfolding split
split_past c s sep e = rw e

-- Splitting at the first separator.
pub split-append :
    (p : String) (c : Char) (s : String) (sep : ℕ)
    → Lacks sep p
    → (code c == sep) ≡ true
    → split (p ++ (c ∷ s)) sep ≡ List.◌∷◌ p (split s sep)
split-append [] c s sep h e = rw nil-append (split_at_sep c s sep e)
split-append (d ∷ p) c s sep (hd, hp) e =
    rw (cons-append, split_past d _ sep hd, split-append p c s sep hp e)

pub data ParseIntError : Type 0 where
  empty invalid_digit pos_overflow : ParseIntError

abbrev is_digit : Char → Bool
is_digit c = leb b'0' (code c) && leb (code c) b'9'

-- The digits that are left, after the value `n` of those that are read.
scan : ℕ → String → ℕ → Result ℕ ParseIntError
scan max [] n = ok n
scan max (c ∷ s) n =
    let m = n * 10 + (code c - b'0') in
    let rest = scan max s m in
    if is_digit c then (if ltb max m then err pos_overflow else rest) else err invalid_digit

-- `T::from_str` for an unsigned type with the largest value `max`: one `+` may stand in front.
unfoldable pub parse_uint : ℕ → String → Result ℕ ParseIntError
unfolding scan
parse_uint max [] = err empty
parse_uint max (c ∷ []) = if code c == b'+' then err invalid_digit else scan max (c ∷ []) 0
parse_uint max (c ∷ d ∷ s) = if code c == b'+' then scan max (d ∷ s) 0 else scan max (c ∷ d ∷ s) 0

scan_bound : (max : ℕ) (s : String) (n r : ℕ) → n ≤ max → scan max s n ≡ ok r → r ≤ max
unfolding scan
scan_bound max [] n r b h = ground arith
scan_bound max (c ∷ s) n r b h = ground (arith, scan_bound max s (n * 10 + (code c - b'0')) r)

-- A number that is read fits the type: nothing wraps around.
pub parse_uint_bound : (max : ℕ) (s : String) (r : ℕ) → parse_uint max s ≡ ok r → r ≤ max
unfolding parse_uint
parse_uint_bound max [] r h = cc
parse_uint_bound max (c ∷ []) r h = ground (arith, scan_bound max (c ∷ []) 0 r)
parse_uint_bound max (c ∷ d ∷ s) r h =
    ground (arith, scan_bound max (d ∷ s) 0 r, scan_bound max (c ∷ d ∷ s) 0 r)

split_rate : split "100/1s" b'/' ≡ List.◌∷◌ "100" (List.◌∷◌ "1s" List.[])
unfolding split
split_rate = refl

parse_max : parse_uint 4294967295 "4294967296" ≡ err pos_overflow
unfolding parse_uint
parse_max = refl
