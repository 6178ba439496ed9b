-- ===== src/Validation/Patterns/Names.antt =====
-- What the patterns of internal/db/validation.go accept, said without them.
use metio.Base.{Char, String, ◌≡◌, refl, ◌↔◌, Bool, true, arith}
use metio.Validation.Patterns.{
  is_lower, is_lower_or_digit, is_name_char, all_chars, name_tail, name_regex, one_char,
}

-- Every character satisfies `P`.
abbrev pub AllChars : (Char → Type 0) → String → Type 0
AllChars P String.[] = Unit
AllChars P (String.◌∷◌ c s) = P c × AllChars P s

-- The text is not empty and its last character satisfies `P`.
abbrev pub EndsIn : (Char → Type 0) → String → Type 0
EndsIn P String.[] = ⊥
EndsIn P (String.◌∷◌ c String.[]) = P c
EndsIn P (String.◌∷◌ c (String.◌∷◌ d s)) = EndsIn P (String.◌∷◌ d s)

-- The text is not empty and its first character satisfies `P`.
abbrev pub StartsIn : (Char → Type 0) → String → Type 0
StartsIn P String.[] = ⊥
StartsIn P (String.◌∷◌ c s) = P c

abbrev pub Holds : (Char → Bool) → Char → Type 0
Holds p c = p c ≡ true

-- Lowercase letters, digits and hyphens, starting with a letter and not ending in a hyphen.
pub record IsHostName (s : String) : Type 0 where
  pub starts : StartsIn (Holds is_lower) s
  pub inside : AllChars (Holds is_name_char) s
  pub ends : EndsIn (Holds is_lower_or_digit) s

all_chars_iff : (p : Char → Bool) (s : String) → (all_chars p s ≡ true) ↔ AllChars (Holds p) s
unfolding all_chars
all_chars_iff p String.[] = (λ _. tt, λ _. refl)
all_chars_iff p (String.◌∷◌ c s) =
    (λ h. ground (arith, (all_chars_iff p s).0), λ h. ground (arith, (all_chars_iff p s).1))

is_name_char_of_lower_or_digit : (c : Char) → is_lower_or_digit c ≡ true → is_name_char c ≡ true
unfolding is_name_char
is_name_char_of_lower_or_digit c h = ground arith

is_lower_or_digit_of_lower : (c : Char) → is_lower c ≡ true → is_lower_or_digit c ≡ true
unfolding is_lower_or_digit
is_lower_or_digit_of_lower c h = ground arith

name_tail_iff :
    (s : String)
    → (name_tail s ≡ true) ↔ (AllChars (Holds is_name_char) s × EndsIn (Holds is_lower_or_digit) s)
unfolding name_tail one_char
name_tail_iff String.[] = (λ h. cc, λ h. elim h.1 [ ])
name_tail_iff (String.◌∷◌ c String.[]) =
    (λ h. ground (arith, is_name_char_of_lower_or_digit c), λ h. ground (arith, h.1))
name_tail_iff (String.◌∷◌ c (String.◌∷◌ d s)) =
    let ih = name_tail_iff (String.◌∷◌ d s) in
    (λ h. ground (arith, ih.0), λ h. ground (arith, ih.1))

name_tail_of_one_char : (s : String) → one_char is_lower_or_digit s ≡ true → name_tail s ≡ true
unfolding name_tail one_char
name_tail_of_one_char String.[] h = cc
name_tail_of_one_char (String.◌∷◌ c String.[]) h = ground arith
name_tail_of_one_char (String.◌∷◌ c (String.◌∷◌ d s)) h = cc

-- The three alternatives of the pattern describe one language: a name starts with a letter, holds
-- letters, digits and hyphens, and ends in a letter or a digit.
pub name_regex_iff : (s : String) → (name_regex s ≡ true) ↔ IsHostName s
unfolding name_regex
name_regex_iff String.[] = (λ h. cc, λ h. elim h.starts [ ])
name_regex_iff (String.◌∷◌ c String.[]) = (
  λ h.
      unfold one_char name_tail in
      ground (arith, is_lower_or_digit_of_lower c, is_name_char_of_lower_or_digit c),
  λ h. unfold one_char name_tail in ground (arith, h.starts),
)
name_regex_iff (String.◌∷◌ c (String.◌∷◌ d s)) =
    let tail = String.◌∷◌ d s in
    let iff = name_tail_iff tail in
    (
      λ h.
          unfold one_char in
          ground (
            arith,
            iff.0,
            name_tail_of_one_char tail,
            is_lower_or_digit_of_lower c,
            is_name_char_of_lower_or_digit c,
          ),
      λ h. ground (arith, iff.1, h.starts),
    )
