-- ===== src/Transport/RateLimit.antt =====
-- packages/rust/armonik-transport/src/config.rs: what the rate limit option accepts.
use text.Mathlib.TextLemmas.{nil-append, cons-append}
use armoni_k_api.Common.{
  ℕ, ◌≤◌, ◌<◌, String, ◌<>◌, ◌≡◌, ◌↔◌, refl, false, some, List, [], ◌∷◌, arith, ◌∙◌, ap, sym,
}
use armoni_k_api.Common.Text.{
  is_empty, split, split-append, split_of_Lacks, Lacks, parse_uint, parse_uint_bound,
}
use armoni_k_api.Common.Text.Join.{split_two}
use armoni_k_api.Common.Outcome.{ok, bind_ok, map_err, map_err-eq-ok}
use armoni_k_api.Transport.External.{External, Duration, is_zero}
use armoni_k_api.Transport.Options.{
  optional-some, read_rate_limit, rate_halves, rate_parts, u64_max,
}

module _ (x : External) where
  -- A text that stands for the rate limit of `n` requests each `d`.
  pub record IsRate (s : String) (n : ℕ) (d : Duration) : Type 0 where
    pub count : String
    pub period : String
    pub written : s ≡ count <> ("/" <> period)
    pub count_lacks : Lacks b'/' count
    pub period_lacks : Lacks b'/' period
    pub count_value : parse_uint u64_max count ≡ ok n
    pub period_value : x.parse_duration period ≡ ok d
    pub count_positive : 0 < n
    pub period_positive : is_zero d ≡ false

module _ (count period : String) where
  slash_cons : "/" <> period ≡ String.◌∷◌ "/" period
  slash_cons = rw (cons-append, nil-append)

  slash_split :
      Lacks b'/' count
      → Lacks b'/' period
      → split (count <> ("/" <> period)) b'/' ≡ count ∷ period ∷ []
  slash_split hc hp =
      rw (slash_cons, split-append count "/" period b'/' hc refl, split_of_Lacks period b'/' hp)

  is_empty-slash : (s : String) → s ≡ count <> ("/" <> period) → is_empty s ≡ false
  is_empty-slash s e = rw (e, slash_cons) (is_empty-append count)
    where
      is_empty-append : (p : String) → is_empty (p <> String.◌∷◌ "/" period) ≡ false
      is_empty-append String.[] = rw nil-append
      is_empty-append (String.◌∷◌ c p) = rw cons-append

module _ (x : External) where
  -- A rate that is written as the documentation says is accepted.
  rate_complete :
      (s : String) (n : ℕ) (d : Duration) → IsRate x s n d → read_rate_limit x s ≡ ok (some (n, d))
  unfolding read_rate_limit
  rate_complete s n d r =
      let parts : split s b'/' ≡ r.count ∷ r.period ∷ [] =
        ap (λ t. split t b'/') r.written
        ∙ slash_split r.count r.period r.count_lacks r.period_lacks in
      rw (is_empty-slash r.count r.period s r.written, parts, r.count_value, r.period_value)
        (ground arith)

  halves_sound :
      (s count period : String) (n : ℕ) (d : Duration)
      → rate_halves x s count period ≡ ok (n, d)
      → (parse_uint u64_max count ≡ ok n)
        × (x.parse_duration period ≡ ok d)
        × (0 < n)
        × (is_zero d ≡ false)
  unfolding rate_halves
  halves_sound s count period n d = bind_ok _ (map_err _ (parse_uint u64_max count)) _ λ n' e.
      bind_ok _ (map_err _ (x.parse_duration period)) _ λ d' e' h.
        let e1 = map_err-eq-ok _ _ e in
        let e2 = map_err-eq-ok _ _ e' in (ground arith, ground arith, ground arith, ground arith)

  parts_sound :
      (s : String) (n : ℕ) (d : Duration) (ps : List String)
      → split s b'/' ≡ ps
      → rate_parts x s ps ≡ ok (n, d)
      → IsRate x s n d
  unfolding rate_parts
  parts_sound s n d [] e h = cc
  parts_sound s n d (p ∷ []) e h = cc
  parts_sound s n d (p ∷ q ∷ r ∷ ps) e h = cc
  parts_sound s n d (p ∷ q ∷ []) e h =
      let (cv, pv, cp, pp) = halves_sound s p q n d h in
      let (w, lp, lq) = split_two "/" s p q e in
      record {
        count = p;
        period = q;
        written = w ∙ ap (λ t. p <> t) (sym (slash_cons p q));
        count_lacks = lp;
        period_lacks = lq;
        count_value = cv;
        period_value = pv;
        count_positive = cp;
        period_positive = pp;
      }

  IsRate-sound :
      (s : String) (n : ℕ) (d : Duration) → read_rate_limit x s ≡ ok (some (n, d)) → IsRate x s n d
  unfolding read_rate_limit
  IsRate-sound s n d h =
      let (_, e) = optional-some x (λ r. rate_parts x r (split r b'/')) s h in
      parts_sound s n d (split s b'/') refl e

  -- A rate limit is accepted exactly if it is written `count/period` with no other slash, the count
  -- is a decimal number of at most 64 bits, the period is a duration, and neither of the two is zero.
  pub read_rate_limit-iff-IsRate :
      (s : String) (n : ℕ) (d : Duration)
      → (read_rate_limit x s ≡ ok (some (n, d))) ↔ IsRate x s n d
  read_rate_limit-iff-IsRate s n d = (IsRate-sound s n d, rate_complete s n d)

  -- What the rate limiter asserts of its arguments holds of every rate limit that is accepted.
  pub read_rate_limit_bounds :
      (s : String) (n : ℕ) (d : Duration)
      → read_rate_limit x s ≡ ok (some (n, d))
      → (0 < n) × (n ≤ u64_max) × (is_zero d ≡ false)
  read_rate_limit_bounds s n d h =
      let r = IsRate-sound s n d h in
      (r.count_positive, parse_uint_bound u64_max r.count n r.count_value, r.period_positive)
