-- ===== src/Base/Text.antt =====
-- Facts about native text that the key and pattern lemmas share.
use Prim.Native.String.{String, ◌++◌, count}
use Prim.Native.Char.{Char}
use mathlib.Core.Bool.{false}
use mathlib.Core.Logic.{inl, inr, ◌≢◌}
use text.Mathlib.Text.{◌==◌}
use text.Mathlib.TextEquality.{eq_iff}
use text.Mathlib.TextLemmas.{cons-ne-nil}
use metio.Base.Tests.{Bool-cases}
use mathlib.Core.Path.{◌≡◌, sym, ◌∙◌}
use text.Mathlib.TextLemmas.{append_cancel_left, append_inj, append_assoc}

infixr 66 ◌+++◌
-- Concatenation of texts, as Go's `+` and the `%s` verbs of a format string.
abbrev pub ◌+++◌ : String → String → String
s +++ t = s ++ t

-- A common prefix can be dropped.
pub +++_cancel : (p s t : String) → p +++ s ≡ p +++ t → s ≡ t
+++_cancel p s t h = append_cancel_left p s t h

-- A text with a first character is not the empty text.
pub cons-ne-empty : (c : Char) (s : String) → (String.◌∷◌ c s == "") ≡ false
cons-ne-empty c s = elim (Bool-cases (String.◌∷◌ c s == "")) [
  | inl h ↦ absurd (cons-ne-nil c s ((eq_iff (String.◌∷◌ c s) "").0 h))
  | inr h ↦ h
]

-- Texts that start with different texts of one length, `p` and `q`, differ.
pub heads_differ :
    (p p' t q q' u : String)
    → count p ≡ count q
    → (p == q) ≡ false
    → (p +++ p') +++ t ≢ (q +++ q') +++ u
heads_differ p p' t q q' u n h e =
    let e' = sym (append_assoc p p' t) ∙ e ∙ append_assoc q q' u in
    let (pq, tu) = append_inj {s₁ = p} {s₂ = q} {t₁ = p' +++ t} {t₂ = q' +++ u} e' n in
    let r = (eq_iff p q).1 pq in absurd (cc)
