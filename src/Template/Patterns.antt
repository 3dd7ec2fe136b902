-- ===== src/Template/Patterns.antt =====
-- template_patterns.cc: `find_pattern`, and the assignment to a pattern in emit.h. The map is an association list, a key once.
use sqlite3gen.Base.{
  ◌≡◌, refl, sym, ◌∙◌, subst, true, false, List, [], ◌∷◌, if◌then◌else◌, Bool-cases, inl, inr,
}
use mathlib.Core.Bool.{false≢true}
use sqlite3gen.Base.Text.{Text, text_eq, text_eq_sound, text_eq_refl}
use sqlite3gen.Base.Result.{Result, ok, err}

pub data PatternError : Type 0 where
  pattern_undefined : (template_name pattern : Text) → PatternError

unfoldable pub find_pattern : List (Text × Text) → Text → Text → Result PatternError Text
find_pattern [] pattern template_name = err (pattern_undefined template_name pattern)
find_pattern ((key, value) ∷ values) pattern template_name =
    let rest = find_pattern values pattern template_name in
    if text_eq key pattern then ok value else rest

-- `patterns[key] = value`, as SET_PATTERN does it.
unfoldable pub set_pattern : Text → Text → List (Text × Text) → List (Text × Text)
set_pattern key value [] = (key, value) ∷ []
set_pattern key value ((key', value') ∷ values) =
    let rest = set_pattern key value values in
    if text_eq key' key then (key', value) ∷ values else (key', value') ∷ rest

same_key : (a b p : Text) → text_eq a p ≡ true → text_eq b p ≡ true → text_eq a b ≡ true
same_key a b p e f =
    subst (λ (t : Text). text_eq a t ≡ true) (text_eq_sound a p e ∙ sym (text_eq_sound b p f))
      (text_eq_refl a)

-- A look-up after an assignment gives the value assigned where the pattern is the key, and what it
-- gave before, or its error, where it is not.
pub find_pattern-set_pattern :
    (values : List (Text × Text)) (key value pattern template_name : Text)
    → find_pattern (set_pattern key value values) pattern template_name
      ≡ (if text_eq key pattern then ok value else find_pattern values pattern template_name)
unfolding find_pattern set_pattern
find_pattern-set_pattern [] key value pattern template_name = refl
find_pattern-set_pattern ((key', value') ∷ values) key value pattern template_name =
    elim (Bool-cases (text_eq key' key)) [
      | inl same ↦ rw same (elim (Bool-cases (text_eq key' pattern)) [
        | inl hit ↦
            rw
              (
                hit,
                subst (λ (t : Text). text_eq t pattern ≡ true) (text_eq_sound key' key same) hit,
              )
              refl
        | inr miss ↦
            rw
              (
                miss,
                subst (λ (t : Text). text_eq t pattern ≡ false) (text_eq_sound key' key same) miss,
              )
              refl
      ])
      | inr other ↦ rw other (elim (Bool-cases (text_eq key' pattern)) [
        | inl hit ↦ elim (Bool-cases (text_eq key pattern)) [
          | inl both ↦ absurd (false≢true (sym other ∙ same_key key' key pattern hit both))
          | inr first ↦ rw (hit, first) refl
        ]
        | inr miss ↦ rw miss (find_pattern-set_pattern values key value pattern template_name)
      ])
    ]
