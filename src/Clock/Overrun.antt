-- ===== src/Clock/Overrun.antt =====
-- How long the text of a time is.
use rocketmq_proxy.Prelude.{
  ℕ, suc, ◌+◌, ◌-◌, ◌/◌, ◌%◌, ◌<◌, zero, ltb, [], ◌∷◌, refl, ap, ◌∙◌, Bool-cases, inl, inr, ◌≤◌,
  Bytes, digits, decimal, two_digits, length, length-append, arith, ◌≡◌,
}
use rocketmq_proxy.Clock.{Tm, time_text, time_array_size, get_time}

-- The fields are in the ranges that the C standard gives, and the year has four digits.
pub record IsTime (t : Tm) : Type 0 where
  pub year : t.tm_year < 8100
  pub month : t.tm_mon < 12
  pub day : t.tm_mday < 32
  pub hour : t.tm_hour < 24
  pub minute : t.tm_min < 60
  pub second : t.tm_sec < 61

digits_small : (f n : ℕ) (out : Bytes) → n < 10 → length (digits f n out) ≡ suc (length out)
unfolding digits
digits_small zero n out h = refl
digits_small (suc f) n out h = ground arith

digits_large :
    (f n : ℕ) (out : Bytes)
    → 10 ≤ n
    → 0 < f
    → length (digits f n out) ≡ length (digits (f - 1) (n / 10) ((48 + n % 10) ∷ out))
unfolding digits
digits_large zero n out h k = absurd (omega arith)
digits_large (suc f) n out h k = ground arith

length-two_digits : (n : ℕ) → n < 100 → length (two_digits n) ≡ 2
unfolding two_digits decimal
length-two_digits n h = elim (Bool-cases (ltb n 10)) [
  | inl small ↦ rw small (ap suc (digits_small n n [] (ground arith)))
  | inr large ↦ rw large (
      digits_large n n [] (ground arith) (ground arith)
      ∙ digits_small (n - 1) (n / 10) ((48 + n % 10) ∷ []) (omega arith))
]

length-year : (n : ℕ) → 1000 ≤ n → n < 10000 → length (decimal n) ≡ 4
unfolding decimal
length-year n h k =
    digits_large n n [] (omega arith) (omega arith)
    ∙ digits_large (n - 1) (n / 10) _ (omega arith) (omega arith)
    ∙ digits_large (n - 1 - 1) (n / 10 / 10) _ (omega arith) (omega arith)
    ∙ digits_small (n - 1 - 1 - 1) (n / 10 / 10 / 10) _ (omega arith)

length-time_text : (t : Tm) → IsTime t → length (time_text t) ≡ 28
unfolding time_text
length-time_text t valid = simp (
  length-append,
  length-year (1900 + t.tm_year) (omega arith) (omega arith),
  length-two_digits (1 + t.tm_mon) (omega arith),
  length-two_digits t.tm_mday (omega arith),
  length-two_digits t.tm_hour (omega arith),
  length-two_digits t.tm_min (omega arith),
  length-two_digits t.tm_sec (omega arith),
)

-- Where `localtime` answers with fields in the ranges of the C standard and a year of four digits:
-- the text of the time and its closing 0 are four bytes longer than the array they are printed into.
pub get_time_overruns :
    (localtime : ℕ → Tm) (now : ℕ)
    → IsTime (localtime (now + 28800))
    → suc (length (get_time localtime now [])) ≡ time_array_size + 4
unfolding get_time
get_time_overruns localtime now valid = ap suc (length-time_text (localtime (now + 28800)) valid)
