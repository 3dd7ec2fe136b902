-- ===== src/Template/Compile/RoundTrip.antt =====
-- template_to_c.cc: a template's body, from the pieces and back.
use sqlite3gen.Base.{
  ℕ, zero, suc, ◌+◌, ◌-◌, ◌≡◌, refl, sym, ◌∙◌, ap, Bool, true, false, not, ◌&&◌, Option, none, some,
  List, [], ◌∷◌, ◌++◌, arith, ◌==◌, take, drop, drop-append, take-append, length,
}
use sqlite3gen.Base.Text.{Text}
use sqlite3gen.Base.Result.{all}
use sqlite3gen.Emit.Machine.{Piece, literal, pattern_of}
use sqlite3gen.Template.Compile.{at_sign, is_mark, find_ats, substr, pieces_of, add_template}

-- Each pattern stands between two marks, behind a literal; a literal ends the body.
abbrev pub body_of : List (Text × Text) → (tail : Text) → Text
body_of [] tail = tail
body_of ((words, p) ∷ ps) tail =
    words ++ (at_sign ∷ at_sign ∷ (p ++ (at_sign ∷ at_sign ∷ body_of ps tail)))

abbrev pub pieces : List (Text × Text) → (tail : Text) → List Piece
pieces [] tail = literal tail ∷ []
pieces ((words, p) ∷ ps) tail = literal words ∷ pattern_of p ∷ pieces ps tail

abbrev pub no_at : Text → Bool
no_at w = all (λ c. not (c == at_sign)) w

abbrev pub no_ats : List (Text × Text) → Bool
no_ats ps = all (λ (p : Text × Text). no_at p.0 && no_at p.1) ps

abbrev pub nonempty : Text → Bool
nonempty [] = false
nonempty (c ∷ cs) = true

is_mark-other : (a : ℕ) (xs : Text) → (a == at_sign) ≡ false → is_mark a xs ≡ false
is_mark-other a [] h = refl
is_mark-other a (b ∷ []) h = refl
is_mark-other a (b ∷ c ∷ cs) h = rw h refl

find_ats-skip :
    (i a : ℕ) (xs : Text)
    → (a == at_sign) ≡ false
    → find_ats false i (a ∷ xs) ≡ find_ats false (suc i) xs
unfolding find_ats
find_ats-skip i a xs h = rw (is_mark-other a xs h) refl

find_ats-no_at :
    (i : ℕ) (w xs : Text)
    → no_at w ≡ true
    → find_ats false i (w ++ xs) ≡ find_ats false (i + length w) xs
find_ats-no_at i [] xs h = ap (λ (k : ℕ). find_ats false k xs) (omega arith)
find_ats-no_at i (c ∷ cs) xs h =
    find_ats-skip i c (cs ++ xs) (ground (arith, h))
    ∙ find_ats-no_at (suc i) cs xs (ground (arith, h))
    ∙ ap (λ (k : ℕ). find_ats false k xs) (omega arith)

find_ats-mark :
    (i : ℕ) (xs : Text)
    → nonempty xs ≡ true
    → find_ats false i (at_sign ∷ at_sign ∷ xs) ≡ i ∷ find_ats false (i + 2) xs
unfolding find_ats
find_ats-mark i [] h = cc
find_ats-mark i (c ∷ cs) h = ap (λ (k : ℕ). i ∷ find_ats false k (c ∷ cs)) (omega arith)

find_ats-tail : (i : ℕ) (w : Text) → no_at w ≡ true → find_ats false i w ≡ []
unfolding find_ats
find_ats-tail i [] h = refl
find_ats-tail i (c ∷ cs) h =
    find_ats-skip i c cs (ground (arith, h)) ∙ find_ats-tail (suc i) cs (ground (arith, h))

abbrev no_text : Text
no_text = []

drop-nil : (n : ℕ) → drop n no_text ≡ []
drop-nil zero = refl
drop-nil (suc n) = refl

drop_add : (n k : ℕ) (xs : Text) → drop (n + k) xs ≡ drop k (drop n xs)
drop_add zero k xs = ap (λ (m : ℕ). drop m xs) (omega arith)
drop_add (suc n) k [] =
    let e : suc n + k ≡ suc (n + k) = omega arith in ap (λ (m : ℕ). drop m []) e ∙ sym (drop-nil k)
drop_add (suc n) k (x ∷ xs) =
    let e : suc n + k ≡ suc (n + k) = omega arith in
    ap (λ (m : ℕ). drop m (x ∷ xs)) e ∙ drop_add n k xs

-- A walk of a body goes on behind a word.
behind :
    (body : Text) (n k : ℕ) (w xs : Text)
    → drop n body ≡ w ++ xs
    → k ≡ n + length w
    → drop k body ≡ xs
behind body n k w xs h e =
    ap (λ (m : ℕ). drop m body) e
    ∙ drop_add n (length w) body
    ∙ ap (λ (t : Text). drop (length w) t) h
    ∙ drop-append w xs

cut :
    (body : Text) (n k : ℕ) (w xs : Text)
    → drop n body ≡ w ++ xs
    → k ≡ length w
    → substr body n k ≡ w
unfolding substr
cut body n k w xs h e =
    ap (λ (m : ℕ). take m (drop n body)) e
    ∙ ap (λ (t : Text). take (length w) t) h
    ∙ take-append w xs

nonempty-append : (w xs : Text) → nonempty xs ≡ true → nonempty (w ++ xs) ≡ true
nonempty-append [] xs h = h
nonempty-append (c ∷ w) xs h = refl

nonempty-body_of :
    (ps : List (Text × Text)) (tail : Text)
    → nonempty tail ≡ true
    → nonempty (body_of ps tail) ≡ true
nonempty-body_of [] tail h = h
nonempty-body_of ((words, p) ∷ ps) tail h = nonempty-append words _ refl

pieces_of-pieces :
    (ps : List (Text × Text)) (tail body : Text) (n : ℕ)
    → no_ats ps ≡ true
    → no_at tail ≡ true
    → nonempty tail ≡ true
    → drop n body ≡ body_of ps tail
    → pieces_of body n (find_ats false n (body_of ps tail)) ≡ some (pieces ps tail)
unfolding pieces_of
pieces_of-pieces [] tail body n h ht hn at =
    rw (find_ats-tail n tail ht) (ap (λ (t : Text). some (literal t ∷ [])) at)
pieces_of-pieces ((words, p) ∷ ps) tail body n h ht hn at =
    let rest = body_of ps tail in
    let closing = at_sign ∷ at_sign ∷ rest in
    let opening = at_sign ∷ at_sign ∷ (p ++ closing) in
    let start = n + length words in
    let end = start + 2 + length p in
    let marked : find_ats false n (words ++ opening) ≡ start ∷ end ∷ find_ats false (end + 2) rest =
      find_ats-no_at n words opening (ground (arith, h))
      ∙ find_ats-mark start (p ++ closing) (nonempty-append p closing refl)
      ∙ ap (λ (ats : List ℕ). start ∷ ats)
          (find_ats-no_at (start + 2) p closing (ground (arith, h))
            ∙ find_ats-mark end rest (nonempty-body_of ps tail hn)) in
    let at_opening = behind body n start words opening at refl in
    let at_pattern =
      behind body start (start + 2) (at_sign ∷ at_sign ∷ []) (p ++ closing) at_opening refl in
    let at_closing = behind body (start + 2) end p closing at_pattern refl in
    let at_rest = behind body end (end + 2) (at_sign ∷ at_sign ∷ []) rest at_closing refl in
    let ih = pieces_of-pieces ps tail body (end + 2) (ground (arith, h)) ht hn at_rest in
    let words_cut = cut body n (start - n) words opening at (omega arith) in
    let p_cut = cut body (start + 2) (end - start - 2) p closing at_pattern (omega arith) in
    ap (pieces_of body n) marked
    ∙ ap
        (λ (o : Option (List Piece)). elim o as (λ x. Option (List Piece)) [
          | none ↦ none
          | some more ↦ some (
              literal (substr body n (start - n))
              ∷ pattern_of (substr body (start + 2) (end - start - 2))
              ∷ more)
        ])
        ih
    ∙ (ap
          (λ (w : Text).
            some
              (literal w ∷ pattern_of (substr body (start + 2) (end - start - 2)) ∷ pieces ps tail))
          words_cut
        ∙ ap (λ (w : Text). some (literal words ∷ pattern_of w ∷ pieces ps tail)) p_cut)

-- A body that is written from literals and patterns, each pattern between two marks, is cut into
-- the same literals and patterns, where none of them has an at sign and the last literal is not
-- empty.
pub add_template-body_of :
    (ps : List (Text × Text)) (tail : Text)
    → no_ats ps ≡ true
    → no_at tail ≡ true
    → nonempty tail ≡ true
    → add_template (body_of ps tail) ≡ some (pieces ps tail)
unfolding add_template
add_template-body_of ps tail h ht hn = pieces_of-pieces ps tail (body_of ps tail) 0 h ht hn refl
