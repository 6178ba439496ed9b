-- ===== src/Validation/Patterns/Times.antt =====
-- What the time pattern of internal/db/validation.go accepts: a time of day.
use mathlib.Core.List.{append-nil, append_assoc}
use metio.Base.{
  beq, Bool-cases, length, All, ℕ, ◌+◌, ◌-◌, ◌*◌, ◌≤◌, ◌<◌, String, ◌≡◌, ◌↔◌, ◌⊎◌, inl, inr, true,
  List, [], ◌∷◌, ◌++◌, arith,
}
use metio.Validation.Patterns.{
  codes, in_range, hour_regex, minute_regex, time_codes_match, time_regex,
}

abbrev pub IsDigit : ℕ → Type 0
IsDigit c = (b'0' ≤ c) × (c ≤ b'9')

-- The number that one or two decimal digits denote; anything else is no such number.
abbrev pub denotes : List ℕ → ℕ
denotes (d ∷ []) = d - b'0'
denotes (t ∷ d ∷ []) = (t - b'0') * 10 + (d - b'0')
denotes _ = 0

-- `H:MM` or `HH:MM`, a time of the 24 hour clock.
pub record IsTimeOfDay (s : List ℕ) : Type 0 where
  pub hour : List ℕ
  pub minute : List ℕ
  pub split : s ≡ hour ++ b':' ∷ minute
  pub hour_digits : All IsDigit hour
  pub minute_digits : All IsDigit minute
  pub hour_length : (length hour ≡ 1) ⊎ (length hour ≡ 2)
  pub minute_length : length minute ≡ 2
  pub hour_range : denotes hour < 24
  pub minute_range : denotes minute < 60

record Parts (s : List ℕ) : Type 0 where
  hour : List ℕ
  minute : List ℕ
  split : s ≡ hour ++ b':' ∷ minute
  hour_ok : hour_regex hour ≡ true
  minute_ok : minute_regex minute ≡ true

time_codes_match_sound : (acc s : List ℕ) → time_codes_match acc s ≡ true → Parts (acc ++ s)
unfolding time_codes_match
time_codes_match_sound acc [] h = cc
time_codes_match_sound acc (c ∷ s) h = elim (Bool-cases (beq c b':')) [
  | inl colon ↦ record {
    hour = acc;
    minute = s;
    split = ground arith;
    hour_ok = ground arith;
    minute_ok = ground arith;
  }
  | inr other ↦ rw append_assoc at (time_codes_match_sound (acc ++ c ∷ []) s (ground arith))
]

hour_regex_sound :
    (s : List ℕ)
    → hour_regex s ≡ true
    → All IsDigit s × ((length s ≡ 1) ⊎ (length s ≡ 2)) × (denotes s < 24)
unfolding hour_regex in_range
hour_regex_sound [] h = cc
hour_regex_sound (d ∷ []) h = ground arith
hour_regex_sound (t ∷ d ∷ []) h = ground arith
hour_regex_sound (t ∷ d ∷ e ∷ s) h = cc

minute_regex_sound :
    (s : List ℕ) → minute_regex s ≡ true → All IsDigit s × (length s ≡ 2) × (denotes s < 60)
unfolding minute_regex in_range
minute_regex_sound [] h = cc
minute_regex_sound (d ∷ []) h = cc
minute_regex_sound (t ∷ d ∷ []) h = ground arith
minute_regex_sound (t ∷ d ∷ e ∷ s) h = cc

hour_regex_complete :
    (s : List ℕ)
    → All IsDigit s
    → (length s ≡ 1) ⊎ (length s ≡ 2)
    → denotes s < 24
    → hour_regex s ≡ true
unfolding hour_regex in_range
hour_regex_complete [] d l r = ground arith
hour_regex_complete (a ∷ []) d l r = ground arith
hour_regex_complete (t ∷ a ∷ []) d l r = ground arith
hour_regex_complete (t ∷ a ∷ e ∷ s) d l r = ground arith

minute_regex_complete :
    (s : List ℕ) → All IsDigit s → length s ≡ 2 → denotes s < 60 → minute_regex s ≡ true
unfolding minute_regex in_range
minute_regex_complete [] d l r = ground arith
minute_regex_complete (a ∷ []) d l r = ground arith
minute_regex_complete (t ∷ a ∷ []) d l r = ground arith
minute_regex_complete (t ∷ a ∷ e ∷ s) d l r = ground arith

time_codes_match_complete :
    (acc hour minute : List ℕ)
    → All IsDigit hour
    → hour_regex (acc ++ hour) ≡ true
    → minute_regex minute ≡ true
    → time_codes_match acc (hour ++ b':' ∷ minute) ≡ true
unfolding time_codes_match
time_codes_match_complete acc [] minute d h m = ground (arith, append-nil acc)
time_codes_match_complete acc (c ∷ hour) minute d h m = ground (
  arith,
  append_assoc acc (c ∷ []) hour,
  time_codes_match_complete (acc ++ c ∷ []) hour minute d.1,
)

-- The time pattern accepts exactly the times of day `H:MM` and `HH:MM`, hour below 24 and minute
-- below 60.
pub time_regex_iff : (s : String) → (time_regex s ≡ true) ↔ IsTimeOfDay (codes s)
unfolding time_regex
time_regex_iff s = (
  λ h.
      let p = time_codes_match_sound [] (codes s) h in
      let (hd, hl, hr) = hour_regex_sound p.hour p.hour_ok in
      let (md, ml, mr) = minute_regex_sound p.minute p.minute_ok in
      record {
        hour = p.hour;
        minute = p.minute;
        split = p.split;
        hour_digits = hd;
        minute_digits = md;
        hour_length = hl;
        minute_length = ml;
        hour_range = hr;
        minute_range = mr;
      },
  λ t. rw t.split (
      time_codes_match_complete [] t.hour t.minute t.hour_digits
        (hour_regex_complete t.hour t.hour_digits t.hour_length t.hour_range)
        (minute_regex_complete t.minute t.minute_digits t.minute_length t.minute_range)),
)
