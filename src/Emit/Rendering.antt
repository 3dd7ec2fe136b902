-- ===== src/Emit/Rendering.antt =====
-- template_patterns.cc, and the functions that template_to_c.cc generates: when a template is written.
use sqlite3gen.Base.{◌≡◌, refl, ◌∙◌, Bool, true, ◌&&◌, List, [], ◌∷◌, ◌++◌, Bool-cases, inl, inr}
use sqlite3gen.Base.Text.{Text, text_eq}
use sqlite3gen.Base.Result.{Result, ok, err, is_ok, and_then, any}
use sqlite3gen.Template.Patterns.{PatternError, find_pattern}
use sqlite3gen.Emit.Types.{EmitError, pattern_error}
use sqlite3gen.Emit.Machine.{Piece, literal, pattern_of, render}

-- Whether a pattern has a value.
abbrev pub has_key : List (Text × Text) → Text → Bool
has_key values p = any (λ (entry : Text × Text). text_eq entry.0 p) values

abbrev pub all_defined : List (Text × Text) → List Piece → Bool
all_defined values [] = true
all_defined values (literal words ∷ pieces) = all_defined values pieces
all_defined values (pattern_of p ∷ pieces) = has_key values p && all_defined values pieces

is_ok-find_pattern :
    (values : List (Text × Text)) (p template : Text)
    → is_ok (find_pattern values p template) ≡ has_key values p
unfolding find_pattern
is_ok-find_pattern [] p template = refl
is_ok-find_pattern ((key, value) ∷ values) p template = elim (Bool-cases (text_eq key p)) [
  | inl e ↦ rw e refl
  | inr e ↦ rw e (is_ok-find_pattern values p template)
]

written :
    (r : Result EmitError Text) (f : Text → Text)
    → is_ok (and_then r (λ rest. ok (f rest))) ≡ is_ok r
written (ok rest) f = refl
written (err e) f = refl

found :
    (v : Result PatternError Text) (r : Result EmitError Text)
    → is_ok (elim v [
      | err e ↦ err (pattern_error e)
      | ok value ↦ and_then r (λ rest. ok (value ++ rest))
    ])
      ≡ (is_ok v && is_ok r)
found (err e) r = refl
found (ok value) r = written r (λ rest. value ++ rest)

-- A template is written without an error exactly where each of its patterns has a value.
pub is_ok-render :
    (template : Text) (pieces : List Piece) (values : List (Text × Text))
    → is_ok (render template pieces values) ≡ all_defined values pieces
unfolding render
is_ok-render template [] values = refl
is_ok-render template (literal words ∷ pieces) values =
    written (render template pieces values) (λ rest. words ++ rest)
    ∙ is_ok-render template pieces values
is_ok-render template (pattern_of p ∷ pieces) values =
    found (find_pattern values p template) (render template pieces values)
    ∙ rw (is_ok-find_pattern values p template, is_ok-render template pieces values) refl
