-- ===== src/Agent/Blank.antt =====
-- Trimming twice: what is left of a text is blank only if the text was.
use acp_orchestrator.Common.{
  ◌≡◌, refl, sym, ◌∙◌, Bool, ◌&&◌, Text, [], ◌∷◌, trim, trim_start, is_whitespace, is_empty, arith,
  Bool-cases, inl, inr,
}
use mathlib.Core.List.{reverse, reverse_aux}
use acp_orchestrator.Agent.Config.{all}

abbrev pub blank : Text → Bool
blank s = all is_whitespace s

is_empty-trim_start : (s : Text) → is_empty (trim_start s) ≡ blank s
unfolding trim_start
is_empty-trim_start [] = refl
is_empty-trim_start (c ∷ s) = ground (arith, is_empty-trim_start s)

blank-trim_start : (s : Text) → blank (trim_start s) ≡ blank s
unfolding trim_start
blank-trim_start [] = refl
blank-trim_start (c ∷ s) = elim (Bool-cases (is_whitespace c)) [
  | inl space ↦ rw space (blank-trim_start s)
  | inr other ↦ rw other (rw other refl)
]

blank-reverse_aux : (s t : Text) → blank (reverse_aux s t) ≡ (blank s && blank t)
blank-reverse_aux [] t = refl
blank-reverse_aux (c ∷ s) t = ground (arith, blank-reverse_aux s (c ∷ t))

blank-reverse : (s : Text) → blank (reverse s) ≡ blank s
blank-reverse s = ground (arith, blank-reverse_aux s [])

blank-trim : (s : Text) → blank (trim s) ≡ blank s
unfolding trim
blank-trim s =
    blank-reverse (trim_start (reverse (trim_start s)))
    ∙ blank-trim_start (reverse (trim_start s))
    ∙ blank-reverse (trim_start s)
    ∙ blank-trim_start s

is_empty-reverse_aux : (s t : Text) → is_empty (reverse_aux s t) ≡ (is_empty s && is_empty t)
is_empty-reverse_aux [] t = refl
is_empty-reverse_aux (c ∷ s) t = ground (arith, is_empty-reverse_aux s (c ∷ t))

is_empty-reverse : (s : Text) → is_empty (reverse s) ≡ is_empty s
is_empty-reverse s = ground (arith, is_empty-reverse_aux s [])

is_empty-trim : (s : Text) → is_empty (trim s) ≡ blank s
unfolding trim
is_empty-trim s =
    is_empty-reverse (trim_start (reverse (trim_start s)))
    ∙ is_empty-trim_start (reverse (trim_start s))
    ∙ blank-reverse (trim_start s)
    ∙ blank-trim_start s

pub is_empty-trim-trim : (s : Text) → is_empty (trim (trim s)) ≡ is_empty (trim s)
is_empty-trim-trim s = is_empty-trim (trim s) ∙ blank-trim s ∙ sym (is_empty-trim s)
