-- ===== src/Template/Escape.antt =====
-- template_to_c.cc: `escape`, which makes the text of a template that of C++ string literals, a
-- new literal for each line. TRUE_LINE_NUMBERS is not defined, so line numbers do not show.
use sqlite3gen.Base.{
  ℕ, ◌≡◌, refl, sym, ◌∙◌, ap, false, [], ◌∷◌, ◌++◌, ◌==◌, if◌then◌else◌, Bool-cases, inl, inr,
  ==_iff,
}
use sqlite3gen.Base.Text.{Text, codes}

abbrev pub quote : ℕ
quote = 34

abbrev pub backslash : ℕ
backslash = 92

abbrev pub newline : ℕ
newline = 10

unfoldable pub escape_char : ℕ → Text
escape_char c =
    if c == quote
    then backslash ∷ quote ∷ []
    else if c == newline
    then codes "\\n\"\n        << \""
    else if c == backslash
    then backslash ∷ backslash ∷ []
    else c ∷ []

unfoldable pub escape : Text → Text
unfolding escape_char
escape [] = []
escape (c ∷ cs) = escape_char c ++ escape cs

-- How a C++ compiler reads string literals with other text between them.
pub data Mode : Type 0 where
  in_literal : Mode
  escaped : Mode
  between : Mode

abbrev pub next_mode : Mode → ℕ → Mode
next_mode in_literal c =
    if c == backslash then escaped else if c == quote then between else in_literal
next_mode escaped c = in_literal
next_mode between c = if c == quote then in_literal else between

abbrev pub char_of : Mode → ℕ → Text
char_of in_literal c = if c == backslash then [] else if c == quote then [] else c ∷ []
char_of escaped c = if c == 110 then newline ∷ [] else c ∷ []
char_of between c = []

abbrev pub literals : Mode → Text → Text
literals mode [] = []
literals mode (c ∷ cs) = char_of mode c ++ literals (next_mode mode c) cs

cons_eq : (a b : ℕ) (s t : Text) → a ≡ b → s ≡ t → a ∷ s ≡ b ∷ t
cons_eq a b s t e f = ap (λ (k : ℕ). k ∷ s) e ∙ ap (λ (u : Text). b ∷ u) f

literal_plain :
    (c : ℕ) (t : Text)
    → (c == backslash) ≡ false
    → (c == quote) ≡ false
    → literals in_literal (c ∷ t) ≡ c ∷ literals in_literal t
literal_plain c t h k = rw (h, k) refl

-- The text of a template, escaped, reads back as itself where a C++ compiler reads it as string
-- literals with other text between them.
pub literals-escape : (s : Text) → literals in_literal (escape s) ≡ s
unfolding escape escape_char
literals-escape [] = refl
literals-escape (c ∷ cs) =
    let ih = literals-escape cs in
    elim (Bool-cases (c == quote)) [
      | inl q ↦ rw q (cons_eq quote c _ cs (sym ((==_iff c quote).0 q)) ih)
      | inr not_quote ↦ elim (Bool-cases (c == newline)) [
        | inl n ↦ rw (not_quote, n) (cons_eq newline c _ cs (sym ((==_iff c newline).0 n)) ih)
        | inr not_newline ↦ elim (Bool-cases (c == backslash)) [
          | inl b ↦
              rw (not_quote, not_newline, b)
                (cons_eq backslash c _ cs (sym ((==_iff c backslash).0 b)) ih)
          | inr plain ↦
              rw (not_quote, not_newline, plain)
                (literal_plain c (escape cs) plain not_quote ∙ ap (λ (t : Text). c ∷ t) ih)
        ]
      ]
    ]
