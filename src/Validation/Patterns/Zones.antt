-- ===== src/Validation/Patterns/Zones.antt =====
-- What the zone pattern of internal/db/validation.go accepts, said by the region pattern.
use text.Mathlib.TextLemmas.{nil-append, cons-append}
use metio.Base.{
  ◌+++◌, Char, String, ◌≡◌, refl, ap, ◌↔◌, ◌⊎◌, inl, inr, Bool, true, ◌&&◌, ◌||◌, arith,
}
use metio.Validation.Patterns.{
  is_lower, is_hyphen, is_name_char, all_chars, one_char, region_regex, zone_tail, zone_regex,
}

-- The two characters `-x` that end a zone.
abbrev pub suffix : Char → Char → String
suffix hyphen letter = String.◌∷◌ hyphen (String.◌∷◌ letter String.[])

-- A text whose end is a hyphen and one lowercase letter, with `P` of what stands before them.
pub record IsSuffixed (P : String → Type 0) (z : String) : Type 0 where
  pub region : String
  pub hyphen : Char
  pub letter : Char
  pub region_ok : P region
  pub hyphen_ok : is_hyphen hyphen ≡ true
  pub letter_ok : is_lower letter ≡ true
  pub split : z ≡ region +++ suffix hyphen letter

abbrev NameChars : String → Type 0
NameChars s = all_chars is_name_char s ≡ true

abbrev MatchesRegion : String → Type 0
MatchesRegion s = region_regex s ≡ true

module _ {s : String} where
  extend :
      {P : String → Type 0} (c : Char)
      → ((m : String) → NameChars m → P (String.◌∷◌ c m))
      → IsSuffixed NameChars s
      → IsSuffixed P (String.◌∷◌ c s)
  extend c grow m = record {
    region = String.◌∷◌ c m.region;
    hyphen = m.hyphen;
    letter = m.letter;
    region_ok = grow m.region m.region_ok;
    hyphen_ok = m.hyphen_ok;
    letter_ok = m.letter_ok;
    split = rw cons-append (ap (λ t. String.◌∷◌ c t) m.split);
  }

zone_end :
    (c : Char) (s : String)
    → is_hyphen c ≡ true
    → one_char is_lower s ≡ true
    → IsSuffixed NameChars (String.◌∷◌ c s)
unfolding one_char all_chars
zone_end c String.[] h k = cc
zone_end c (String.◌∷◌ d String.[]) h k = record {
  region = String.[];
  hyphen = c;
  letter = d;
  region_ok = refl;
  hyphen_ok = h;
  letter_ok = k;
  split = rw nil-append;
}
zone_end c (String.◌∷◌ d (String.◌∷◌ e s)) h k = cc

or_cases :
    (a b c d : Bool)
    → (a && b || c && d) ≡ true
    → ((a ≡ true) × (b ≡ true)) ⊎ ((c ≡ true) × (d ≡ true))
or_cases a b c d h = ground arith

zone_tail_sound : (s : String) → zone_tail s ≡ true → IsSuffixed NameChars s
unfolding zone_tail
zone_tail_sound String.[] h = cc
zone_tail_sound (String.◌∷◌ c s) h =
    let found = zone_tail_sound s in
    elim (or_cases (is_hyphen c) (one_char is_lower s) (is_name_char c) (zone_tail s) h) [
      | inl (p, q) ↦ zone_end c s p q
      | inr (p, q) ↦ extend c (λ m k. unfold all_chars in ground (arith, p, k)) (found q)
    ]

zone_tail_complete :
    (m : String) (h l : Char)
    → NameChars m
    → is_hyphen h ≡ true
    → is_lower l ≡ true
    → zone_tail (m +++ suffix h l) ≡ true
unfolding zone_tail all_chars one_char
zone_tail_complete String.[] h l k p q = rw nil-append (ground arith)
zone_tail_complete (String.◌∷◌ c m) h l k p q =
    rw cons-append (ground (arith, zone_tail_complete m h l))

zone_regex_sound : (z : String) → zone_regex z ≡ true → IsSuffixed MatchesRegion z
unfolding zone_regex region_regex
zone_regex_sound String.[] h = cc
zone_regex_sound (String.◌∷◌ c s) h =
    extend c (λ m k. ground arith) (zone_tail_sound s (ground arith))

zone_regex_complete :
    (r : String) (h l : Char)
    → MatchesRegion r
    → is_hyphen h ≡ true
    → is_lower l ≡ true
    → zone_regex (r +++ suffix h l) ≡ true
unfolding zone_regex region_regex
zone_regex_complete String.[] h l k p q = cc
zone_regex_complete (String.◌∷◌ c m) h l k p q =
    rw cons-append (ground (arith, zone_tail_complete m h l))

-- The zone pattern accepts exactly the names that the region pattern accepts, followed by a hyphen
-- and one lowercase letter.
pub zone_regex_iff : (z : String) → (zone_regex z ≡ true) ↔ IsSuffixed MatchesRegion z
zone_regex_iff z = (
  zone_regex_sound z,
  λ m.
      rw m.split
        (zone_regex_complete m.region m.hyphen m.letter m.region_ok m.hyphen_ok m.letter_ok),
)
