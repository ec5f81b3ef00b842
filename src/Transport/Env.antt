-- ===== src/Transport/Env.antt =====
-- packages/rust/armonik-transport/src/utils.rs: reading environment variables. The environment
-- is a function from names to what `std::env::var` returns.
use armoni_k_api.Common.{
  ℕ, String, ◌≡◌, refl, ◌⊎◌, inl, inr, ◌↔◌, Bool, true, false, ◌||◌, List, [], ◌∷◌, arith, eq_iff,
  ◌=s=◌, if◌then◌else◌,
}
use armoni_k_api.Common.Outcome.{Result, ok, err, ◌>>=◌, bind_ok}

-- `std::env::VarError`; an `OsString` is its bytes.
pub data VarError : Type 0 where
  not_present : VarError
  not_unicode : List ℕ → VarError

abbrev pub Env : Type 0
Env = String → Result String VarError

pub data ReadEnvError : Type 0 where
  not_unicode : String → List ℕ → ReadEnvError
  not_boolean : String → String → ReadEnvError

-- The `match` of `read_env` on the value of the variable.
read_var : String → Result String VarError → Result String ReadEnvError
read_var name (ok value) = ok value
read_var name (err not_present) = ok ""
read_var name (err (VarError.not_unicode value)) = err (ReadEnvError.not_unicode name value)

unfoldable pub read_env : Env → String → Result String ReadEnvError
unfolding read_var
read_env env name = read_var name (env name)

-- The spellings of `false` and of `true`.
is_false : String → Bool
is_false value =
    value =s= "0"
    || value =s= "false"
    || value =s= "no"
    || value =s= "disable"
    || value =s= "disallow"
    || value =s= "forbid"
    || value =s= ""

is_true : String → Bool
is_true value =
    value =s= "1"
    || value =s= "true"
    || value =s= "yes"
    || value =s= "enable"
    || value =s= "allow"
    || value =s= "authorize"

bool_of : String → String → Result Bool ReadEnvError
bool_of name value =
    if is_false value
    then ok false
    else if is_true value
    then ok true
    else err (not_boolean name value)

unfoldable pub read_env_bool : Env → String → Result Bool ReadEnvError
unfolding read_env bool_of is_false is_true
read_env_bool env name = do value ← read_env env name; bool_of name value

-- The vocabulary, as the documentation lists it.
abbrev pub spellings : Bool → List String
spellings false = "0" ∷ "false" ∷ "no" ∷ "disable" ∷ "disallow" ∷ "forbid" ∷ "" ∷ []
spellings true = "1" ∷ "true" ∷ "yes" ∷ "enable" ∷ "allow" ∷ "authorize" ∷ []

abbrev pub OneOf : String → List String → Type 0
OneOf s [] = ⊥
OneOf s (t ∷ ts) = (s ≡ t) ⊎ OneOf s ts

abbrev pub contains : String → List String → Bool
contains s [] = false
contains s (t ∷ ts) = s =s= t || contains s ts

pub contains_iff : (s : String) (ts : List String) → (contains s ts ≡ true) ↔ OneOf s ts
contains_iff s [] = (λ h. cc, λ h. absurd h)
contains_iff s (t ∷ ts) = ground (arith, eq_iff s t, contains_iff s ts)

is_false-contains : (s : String) → is_false s ≡ contains s (spellings false)
unfolding is_false
is_false-contains s = ground arith

is_true-contains : (s : String) → is_true s ≡ contains s (spellings true)
unfolding is_true
is_true-contains s = ground arith

-- No spelling of `true` is one of `false`.
is_false_of_true : (s : String) → OneOf s (spellings true) → is_false s ≡ false
unfolding is_false
is_false_of_true s (inl e) = rw e
is_false_of_true s (inr (inl e)) = rw e
is_false_of_true s (inr (inr (inl e))) = rw e
is_false_of_true s (inr (inr (inr (inl e)))) = rw e
is_false_of_true s (inr (inr (inr (inr (inl e))))) = rw e
is_false_of_true s (inr (inr (inr (inr (inr (inl e)))))) = rw e
is_false_of_true s (inr (inr (inr (inr (inr (inr e)))))) = absurd e

is_false_iff : (s : String) → (is_false s ≡ true) ↔ OneOf s (spellings false)
is_false_iff s = rw is_false-contains (contains_iff s (spellings false))

is_true_iff : (s : String) → (is_true s ≡ true) ↔ OneOf s (spellings true)
is_true_iff s = rw is_true-contains (contains_iff s (spellings true))

not_true→false : (b : Bool) → ¬ (b ≡ true) → b ≡ false
not_true→false true h = absurd (h refl)
not_true→false false h = refl

module _ (name value : String) where
  bool_of_cases :
      (f t : Bool)
      → is_false value ≡ f
      → is_true value ≡ t
      → bool_of name value
        ≡ (if f then ok false else if t then ok true else err (not_boolean name value))
  unfolding bool_of
  bool_of_cases f t hf ht = rw (hf, ht)

  bool_of_sound : (b : Bool) → bool_of name value ≡ ok b → OneOf value (spellings b)
  unfolding bool_of
  bool_of_sound false h = (is_false_iff value).0 (ground arith)
  bool_of_sound true h = (is_true_iff value).0 (ground arith)

  bool_of_complete : (b : Bool) → OneOf value (spellings b) → bool_of name value ≡ ok b
  bool_of_complete false h = bool_of_cases true _ ((is_false_iff value).1 h) refl
  bool_of_complete true h =
      bool_of_cases false true (is_false_of_true value h) ((is_true_iff value).1 h)

  bool_of_unknown :
      ¬ OneOf value (spellings false)
      → ¬ OneOf value (spellings true)
      → bool_of name value ≡ err (not_boolean name value)
  bool_of_unknown not_false not_true =
      bool_of_cases false false (not_true→false _ (λ e. not_false ((is_false_iff value).0 e)))
        (not_true→false _ (λ e. not_true ((is_true_iff value).0 e)))

read_env_bool_set :
    (env : Env) (name value : String)
    → env name ≡ ok value
    → read_env_bool env name ≡ bool_of name value
unfolding read_env_bool
read_env_bool_set env name value set = rw (set, read_env)

-- A boolean option reads as `b` exactly if its text, empty for an unset variable, is one of the
-- spellings of `b`.
pub read_env_bool-iff_spelling :
    (env : Env) (name : String) (b : Bool)
    → (read_env_bool env name ≡ ok b)
      ↔ ((value : String) × (read_env env name ≡ ok value) × OneOf value (spellings b))
unfolding read_env_bool
read_env_bool-iff_spelling env name b = (
  bind_ok _ (read_env env name) (bool_of name)
      (λ value found e. (value, found, bool_of_sound name value b e)),
  λ (value, found, e). rw found (bool_of_complete name value b e),
)

-- A variable that is set to a text with no such spelling is reported with its name and its text.
pub read_env_bool_unknown :
    (env : Env) (name value : String)
    → env name ≡ ok value
    → ¬ OneOf value (spellings false)
    → ¬ OneOf value (spellings true)
    → read_env_bool env name ≡ err (not_boolean name value)
read_env_bool_unknown env name value set not_false not_true =
    rw (read_env_bool_set env name value set) (bool_of_unknown name value not_false not_true)
