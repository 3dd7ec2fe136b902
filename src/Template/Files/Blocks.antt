-- ===== src/Template/Files/Blocks.antt =====
-- template_to_c.cc: what a whole file of templates becomes.
use sqlite3gen.Base.{
  append_assoc, ℕ, zero, suc, ◌≤◌, ◌<◌, ◌≡◌, refl, sym, ◌∙◌, ap, Bool, true, false, not, ◌&&◌,
  Option, some, List, [], ◌∷◌, ◌++◌, arith, leb, length, All, append_nil, ◌==◌,
}
use sqlite3gen.Base.Text.{Text, codes}
use sqlite3gen.Base.Result.{Result, ok, err, all, and_then}
use sqlite3gen.Emit.Machine.{Piece}
use sqlite3gen.Template.Compile.{add_template}
use sqlite3gen.Template.Lines.{
  LineError, Reader, Compiled, is_boundary, process_line, process_lines,
}
use sqlite3gen.Template.Lines.Blocks.{joined, opening, process_lines_lem}
use sqlite3gen.Template.Files.{
  newline, line_room, prepend, getline, after_process, after_line, process_file,
}

abbrev pub no_newline : Text → Bool
no_newline t = all (λ c. not (c == newline)) t

-- A line that `getline` reads whole.
abbrev pub fits_room : Text → Bool
fits_room line = no_newline line && leb (length line) line_room

getline-append :
    (room : ℕ) (line rest : Text)
    → no_newline line ≡ true
    → length line ≤ room
    → getline room (line ++ newline ∷ rest) ≡ some (line, rest)
unfolding getline
getline-append zero [] rest q h = refl
getline-append (suc room) [] rest q h = refl
getline-append zero (c ∷ line) rest q h = absurd (omega (arith, h))
getline-append (suc room) (c ∷ line) rest q h =
    ground (arith, q)
    ∙ ap (prepend c) (getline-append room line rest (ground (arith, q)) (omega (arith, h)))

getline-joined :
    (line : Text) (lines : List Text)
    → fits_room line ≡ true
    → getline line_room (joined (line ∷ lines)) ≡ some (line, joined lines)
getline-joined line lines h =
    ap (getline line_room) (append_assoc line (codes "\n") (joined lines))
    ∙ getline-append line_room line (joined lines) (ground (arith, h)) (ground (arith, h))

after_process_lem :
    (k : Reader → Option (Result LineError Reader)) (f : Reader → Result LineError Reader)
    (x : Result LineError Reader)
    → ((r : Reader) → k r ≡ some (f r))
    → after_process k x ≡ some (and_then x f)
after_process_lem k f (ok r) h = h r
after_process_lem k f (err e) h = refl

then_then :
    (f g h : Reader → Result LineError Reader) (x : Result LineError Reader)
    → ((r : Reader) → f r ≡ and_then (g r) h)
    → and_then x f ≡ and_then (and_then x g) h
then_then f g h (ok r) e = e r
then_then f g h (err e') e = refl

-- A file of lines that fit is processed line by line.
pub process_file-joined :
    (fuel : ℕ) (lines : List Text) (r : Reader)
    → all fits_room lines ≡ true
    → length lines < fuel
    → process_file fuel (joined lines) r ≡ some (process_lines lines r)
unfolding process_file process_lines
process_file-joined zero lines r h enough = absurd (omega (arith, enough))
process_file-joined (suc fuel) [] r h enough = refl
process_file-joined (suc fuel) (line ∷ lines) r h enough =
    ap (λ g. after_line (process_file fuel) g r) (getline-joined line lines (ground (arith, h)))
    ∙ after_process_lem (process_file fuel (joined lines)) (process_lines lines)
        (process_line line r)
        (λ r'. process_file-joined fuel lines r' (ground (arith, h)) (omega (arith, enough)))

process_lines-append :
    (lines rest : List Text) (r : Reader)
    → process_lines (lines ++ rest) r ≡ and_then (process_lines lines r) (process_lines rest)
unfolding process_lines
process_lines-append [] rest r = refl
process_lines-append (line ∷ lines) rest r =
    then_then (process_lines (lines ++ rest)) (process_lines lines) (process_lines rest)
      (process_line line r) (λ r'. process_lines-append lines rest r')

-- A template: its name, the lines of its body, and the pieces that the body is cut into.
pub record Block : Type 0 where
  pub name : Text
  pub lines : List Text
  pub pieces : List Piece

abbrev pub block_lines : Block → List Text
block_lines b = opening b.name ∷ (b.lines ++ (codes "________ END" ∷ []))

-- The lines of the file.
abbrev pub file_lines : List Block → List Text
file_lines [] = []
file_lines (b ∷ blocks) = block_lines b ++ file_lines blocks

-- What the file compiles to.
abbrev pub compiled : List Block → List Compiled
compiled [] = []
compiled (b ∷ blocks) = record { name = b.name; body = b.pieces } ∷ compiled blocks

-- No line of a body is a boundary, and the body can be cut into the pieces.
abbrev pub IsTemplate : Block → Type 0
IsTemplate b =
    (all (λ line. not (is_boundary line)) b.lines ≡ true)
    × (add_template (joined b.lines) ≡ some b.pieces)

-- A run that ends well, outside of a template, with the templates added to its output.
abbrev pub Adds : Reader → List Compiled → Result LineError Reader → Type 0
Adds r cs x =
    (r' : Reader) × ((x ≡ ok r') × ((r'.output ≡ r.output ++ cs) × (r'.in_template ≡ false)))

process_lines-Adds :
    (blocks : List Block) (r : Reader)
    → r.in_template ≡ false
    → All IsTemplate blocks
    → Adds r (compiled blocks) (process_lines (file_lines blocks) r)
unfolding process_lines
process_lines-Adds [] r outside h = (r, (refl, (sym (append_nil r.output), outside)))
process_lines-Adds (b ∷ blocks) r outside h =
    let c : Compiled = record { name = b.name; body = b.pieces } in
    let s : Reader = record {
      in_template = false;
      template_name = b.name;
      template_body = joined b.lines;
      output = r.output ++ c ∷ [];
    } in
    let one = process_lines_lem b.name b.lines b.pieces r outside h.0.0 h.0.1 in
    let (r', (ends, (adds, closed))) = process_lines-Adds blocks s refl h.1 in
    (
      r',
      (
        process_lines-append (block_lines b) (file_lines blocks) r
            ∙ ap (λ (x : Result LineError Reader). and_then x (process_lines (file_lines blocks)))
                one
            ∙ ends,
        (adds ∙ append_assoc r.output (c ∷ []) (compiled blocks), closed),
      ),
    )

-- A file of templates, each a line that opens it, the lines of its body and an END, is read to its
-- end with more fuel than lines, and every template is added to the output, in order, with the
-- pieces of its body, where no template is open before, no line of a body is a boundary, no line
-- holds a newline or more than 299 bytes, and each body can be cut into its pieces.
pub process_file-Adds :
    (fuel : ℕ) (blocks : List Block) (r : Reader)
    → r.in_template ≡ false
    → All IsTemplate blocks
    → all fits_room (file_lines blocks) ≡ true
    → length (file_lines blocks) < fuel
    → (x : Result LineError Reader) × ((process_file fuel (joined (file_lines blocks)) r ≡ some x)
        × Adds r (compiled blocks) x)
process_file-Adds fuel blocks r outside h fit enough = (
  process_lines (file_lines blocks) r,
  (
    process_file-joined fuel (file_lines blocks) r fit enough,
    process_lines-Adds blocks r outside h,
  ),
)
