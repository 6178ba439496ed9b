-- ===== src/Validation/Patterns.antt =====
-- The regular expressions of internal/db/validation.go, each as the function that matches it. The
-- expressions are anchored at both ends; a text is walked by code point.
pub mod Names
pub mod Zones
pub mod Times
use Prim.Native.String
use metio.Base.{
  leb, beq, if◌then◌else◌, ℕ, Char, code, String, Bool, true, false, ◌&&◌, ◌||◌, List, [], ◌∷◌,
  ◌++◌,
}

-- `[a-z]`, `[0-9]` and `[A-Z]`.
unfoldable pub is_lower : Char → Bool
is_lower c = leb b'a' (code c) && leb (code c) b'z'

unfoldable pub is_digit : Char → Bool
is_digit c = leb b'0' (code c) && leb (code c) b'9'

unfoldable pub is_upper : Char → Bool
is_upper c = leb b'A' (code c) && leb (code c) b'Z'

unfoldable pub is_hyphen : Char → Bool
is_hyphen c = beq (code c) b'-'

-- `[a-z0-9]`
unfoldable pub is_lower_or_digit : Char → Bool
is_lower_or_digit c = is_lower c || is_digit c

-- `[a-z0-9-]`
unfoldable pub is_name_char : Char → Bool
is_name_char c = is_lower_or_digit c || is_hyphen c

-- `[A-Za-z0-9]`
unfoldable pub is_id_char : Char → Bool
is_id_char c = is_upper c || is_lower_or_digit c

-- `p*`
unfoldable pub all_chars : (Char → Bool) → String → Bool
all_chars p String.[] = true
all_chars p (String.◌∷◌ c s) = p c && all_chars p s

-- `p`, one character and no more.
unfoldable pub one_char : (Char → Bool) → String → Bool
one_char p String.[] = false
one_char p (String.◌∷◌ c String.[]) = p c
one_char p (String.◌∷◌ c (String.◌∷◌ d s)) = false

-- `[a-z0-9-]*[a-z0-9]`: either the rest is the last character, or one more is taken by the star.
unfoldable pub name_tail : String → Bool
name_tail String.[] = false
name_tail (String.◌∷◌ c s) =
    one_char is_lower_or_digit (String.◌∷◌ c s) || is_name_char c && name_tail s

-- `^[a-z][a-z0-9-]*[a-z0-9]$|^[a-z][a-z0-9]$|^[a-z]$`
unfoldable pub name_regex : String → Bool
name_regex String.[] = false
name_regex (String.◌∷◌ c s) =
    is_lower c && name_tail s
    || (is_lower c && one_char is_lower_or_digit s || one_char is_lower (String.◌∷◌ c s))

-- `^[a-z][a-z0-9-]*$`, the pattern of a region and of a machine type.
unfoldable pub region_regex : String → Bool
region_regex String.[] = false
region_regex (String.◌∷◌ c s) = is_lower c && all_chars is_name_char s

-- `[a-z0-9-]*?-[a-z]`
unfoldable pub zone_tail : String → Bool
zone_tail String.[] = false
zone_tail (String.◌∷◌ c s) = is_hyphen c && one_char is_lower s || is_name_char c && zone_tail s

-- `^[a-z][a-z0-9-]*?-[a-z]$`
unfoldable pub zone_regex : String → Bool
zone_regex String.[] = false
zone_regex (String.◌∷◌ c s) = is_lower c && zone_tail s

-- `^[A-Za-z0-9]+$`
unfoldable pub modpack_id_regex : String → Bool
modpack_id_regex String.[] = false
modpack_id_regex (String.◌∷◌ c s) = is_id_char c && all_chars is_id_char s

abbrev pub codes : String → List ℕ
codes String.[] = []
codes (String.◌∷◌ c s) = code c ∷ codes s

unfoldable pub in_range : ℕ → ℕ → ℕ → Bool
in_range lo hi n = leb lo n && leb n hi

-- `[01]?[0-9]|2[0-3]`
unfoldable pub hour_regex : List ℕ → Bool
hour_regex (h ∷ []) = in_range b'0' b'9' h
hour_regex (t ∷ h ∷ []) =
    in_range b'0' b'1' t && in_range b'0' b'9' h || beq t b'2' && in_range b'0' b'3' h
hour_regex _ = false

-- `[0-5][0-9]`
unfoldable pub minute_regex : List ℕ → Bool
minute_regex (t ∷ m ∷ []) = in_range b'0' b'5' t && in_range b'0' b'9' m
minute_regex _ = false

-- The hour stands before the first colon; an hour holds no colon.
unfoldable pub time_codes_match : List ℕ → List ℕ → Bool
time_codes_match hour [] = false
time_codes_match hour (c ∷ rest) =
    let later = time_codes_match (hour ++ c ∷ []) rest in
    if beq c b':' then hour_regex hour && minute_regex rest else later

-- `^([01]?[0-9]|2[0-3]):[0-5][0-9]$`
unfoldable pub time_regex : String → Bool
unfolding time_codes_match
time_regex s = time_codes_match [] (codes s)
