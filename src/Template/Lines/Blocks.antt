-- ===== src/Template/Lines/Blocks.antt =====
-- template_to_c.cc: what a block of lines between two boundaries becomes.
use sqlite3gen.Base.{
  append_assoc, append_nil, ◌≡◌, refl, sym, ◌∙◌, ap, true, false, not, some, List, [], ◌∷◌, ◌++◌,
  arith, ltb, length,
}
use sqlite3gen.Base.Text.{Text, codes, text_eq}
use sqlite3gen.Base.Result.{Result, ok, err, all, and_then}
use sqlite3gen.Emit.Machine.{Piece}
use sqlite3gen.Template.Compile.{add_template}
use sqlite3gen.Template.Lines.{
  LineError, Reader, is_boundary, add_compiled, finish_template, end_template, process_line,
  process_lines,
}

-- The lines with a newline behind each.
abbrev pub joined : List Text → Text
joined [] = []
joined (line ∷ lines) = (line ++ codes "\n") ++ joined lines

body_line :
    (line : Text) (r : Reader)
    → r.in_template ≡ true
    → is_boundary line ≡ false
    → process_line line r
      ≡ ok (record r { template_body = r.template_body ++ (line ++ codes "\n") })
unfolding process_line
body_line line r inside plain = rw (inside, plain) refl

-- Lines that are no boundary go to the body of the template.
body_lines :
    (lines rest : List Text) (r : Reader)
    → r.in_template ≡ true
    → all (λ line. not (is_boundary line)) lines ≡ true
    → process_lines (lines ++ rest) r
      ≡ process_lines rest (record r { template_body = r.template_body ++ joined lines })
unfolding process_lines
body_lines [] rest r inside h =
    ap (λ (t : Text). process_lines rest (record r { template_body = t }))
      (sym (append_nil r.template_body))
body_lines (line ∷ lines) rest r inside h =
    let next = record r { template_body = r.template_body ++ (line ++ codes "\n") } in
    ap (λ (x : Result LineError Reader). and_then x (process_lines (lines ++ rest)))
      (body_line line r inside (ground (arith, h)))
    ∙ body_lines lines rest next inside (ground (arith, h))
    ∙ ap (λ (t : Text). process_lines rest (record r { template_body = t }))
        (append_assoc r.template_body (line ++ codes "\n") (joined lines))

-- The line that opens a template.
abbrev pub opening : (name : Text) → Text
opening name = codes "________ " ++ name

opening_line :
    (name : Text) (r : Reader)
    → r.in_template ≡ false
    → process_line (opening name) r
      ≡ ok (record r { in_template = true; template_body = []; template_name = name })
unfolding process_line text_eq
opening_line name r outside =
    let long : ltb (length (opening name)) 9 ≡ false = ground (arith) in rw (outside, long) refl

-- What remains of the reader where a template is open.
abbrev open_reader : Reader → (name body : Text) → Reader
open_reader r name body = record r {
  in_template = true;
  template_name = name;
  template_body = body;
}

then_ok : (x : Result LineError Reader) → and_then x (λ r. ok r) ≡ x
then_ok (ok r) = refl
then_ok (err e) = refl

closing_line :
    (r : Reader)
    → r.in_template ≡ true
    → process_lines (codes "________ END" ∷ []) r ≡ finish_template r r.template_body
unfolding process_lines process_line end_template text_eq
closing_line r inside =
    rw inside (then_ok (finish_template (record r { in_template = true }) r.template_body))

finished :
    (r : Reader) (body : Text) (pieces : List Piece)
    → add_template body ≡ some pieces
    → finish_template r body
      ≡ ok (record r {
        in_template = false;
        template_body = body;
        output = r.output ++ record { name = r.template_name; body = pieces } ∷ [];
      })
unfolding finish_template add_compiled
finished r body pieces cut = ap (add_compiled r body) cut

-- The lines of a template, between a line that opens it and an END, become the template of that
-- name whose body is the lines with a newline behind each, where no template is open before, none
-- of the lines is a boundary and the body can be cut into pieces.
pub process_lines_lem :
    (name : Text) (lines : List Text) (pieces : List Piece) (r : Reader)
    → r.in_template ≡ false
    → all (λ line. not (is_boundary line)) lines ≡ true
    → add_template (joined lines) ≡ some pieces
    → process_lines (opening name ∷ (lines ++ (codes "________ END" ∷ []))) r
      ≡ ok (record {
        in_template = false;
        template_name = name;
        template_body = joined lines;
        output = r.output ++ record { name = name; body = pieces } ∷ [];
      })
unfolding process_lines
process_lines_lem name lines pieces r outside h cut =
    ap
      (λ (x : Result LineError Reader).
        and_then x (process_lines (lines ++ (codes "________ END" ∷ []))))
      (opening_line name r outside)
    ∙ body_lines lines (codes "________ END" ∷ []) (open_reader r name []) refl h
    ∙ closing_line (open_reader r name (joined lines)) refl
    ∙ finished (open_reader r name (joined lines)) (joined lines) pieces cut
