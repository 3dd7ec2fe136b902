-- ===== src/Template/Lines.antt =====
-- template_to_c.cc: `process_line`, which reads a file of templates line by line. Behind the end of a
-- line that is shorter than a boundary `memcmp` finds a difference. The line numbers, which show in the
-- output only where TRUE_LINE_NUMBERS is defined, and the OPTION lines, which set them, are left out.
pub mod Blocks
use sqlite3gen.Base.{
  ℕ, ◌+◌, ◌-◌, Bool, true, false, Option, none, some, List, [], ◌∷◌, ◌++◌, ltb, length, take, drop,
  if◌then◌else◌,
}
use sqlite3gen.Base.Text.{Text, codes, text_eq}
use sqlite3gen.Base.Result.{Result, ok, err, and_then}
use sqlite3gen.Emit.Machine.{Piece}
use sqlite3gen.Template.Compile.{add_template}

-- `exit(1)`, the exceptions of `substr` and `resize`, and a read behind the end of the marks.
pub data LineError : Type 0 where
  not_end : (line : Text) → LineError
  out_of_range : LineError
  length_error : LineError
  odd_marks : (template : Text) → LineError

-- A template that was compiled: its name and its pieces.
pub record Compiled : Type 0 where
  pub name : Text
  pub body : List Piece

pub record Reader : Type 0 where
  pub in_template : Bool
  pub template_name : Text
  pub template_body : Text
  pub output : List Compiled

abbrev pub is_boundary : Text → Bool
is_boundary line = text_eq (take 8 line) (codes "________")

-- The output grows by the template, where its marks come in pairs.
unfoldable pub add_compiled : Reader → (body : Text) → Option (List Piece) → Result LineError Reader
add_compiled r body none = err (odd_marks r.template_name)
add_compiled r body (some pieces) = ok (record r {
  in_template = false;
  template_body = body;
  output = r.output ++ record { name = r.template_name; body = pieces } ∷ [];
})

-- The template that is open ends with a body.
unfoldable pub finish_template : Reader → (body : Text) → Result LineError Reader
unfolding add_template add_compiled
finish_template r body = add_compiled r body (add_template body)

-- The end of a template. ENDNL takes the last newline off the body.
unfoldable pub end_template : (line : Text) → Reader → Result LineError Reader
unfolding finish_template
end_template line r =
    if ltb (length line) 9
    then err out_of_range
    else if text_eq (take 3 (drop 9 line)) (codes "END")
    then (if text_eq (take 5 (drop 9 line)) (codes "ENDNL")
        then (if ltb 0 (length r.template_body)
            then finish_template r (take (length r.template_body - 1) r.template_body)
            else err length_error)
        else finish_template r r.template_body)
    else err (not_end line)

unfoldable pub process_line : (line : Text) → Reader → Result LineError Reader
unfolding end_template
process_line line r =
    if r.in_template
    then (if is_boundary line
        then end_template line r
        else ok (record r { template_body = r.template_body ++ (line ++ codes "\n") }))
    else if is_boundary line
    then (if ltb (length line) 9
        then err out_of_range
        else ok (record r { in_template = true; template_body = []; template_name = drop 9 line }))
    else ok r

unfoldable pub process_lines : List Text → Reader → Result LineError Reader
unfolding process_line
process_lines [] r = ok r
process_lines (line ∷ lines) r = and_then (process_line line r) λ r'. process_lines lines r'
