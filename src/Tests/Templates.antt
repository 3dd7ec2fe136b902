-- ===== src/Tests/Templates.antt =====
-- template_to_c.cc, run on a short file of templates.
use sqlite3gen.Base.{arith, true, ◌≡◌, refl, false, some, List, [], ◌∷◌}
use sqlite3gen.Base.Text.{Text, codes, text_eq}
use sqlite3gen.Base.Result.{Result, ok}
use sqlite3gen.Emit.Machine.{Piece, literal, pattern_of}
use sqlite3gen.Template.Compile.{add_template, find_ats, pieces_of}
use sqlite3gen.Template.Lines.{LineError, Reader, process_line}
use sqlite3gen.Template.Files.{getline, process_file}
use sqlite3gen.Template.Files.Blocks.{Block, file_lines, compiled, Adds, process_file-Adds}
use sqlite3gen.Template.Lines.Blocks.{joined}

abbrev fresh : Reader
fresh = record { in_template = false; template_name = []; template_body = []; output = [] }

abbrev lines : List Text
lines = codes "class @@tablename@@" ∷ codes "{};" ∷ []

abbrev class_pieces : List Piece
class_pieces =
    literal (codes "class ") ∷ pattern_of (codes "tablename") ∷ literal (codes "\n{};\n") ∷ []

lines_cut : add_template (joined lines) ≡ some class_pieces
unfolding add_template find_ats pieces_of
lines_cut = refl

abbrev two_templates : List Block
two_templates =
    record { name = codes "CLASS"; lines = lines; pieces = class_pieces }
    ∷ record { name = codes "OTHER"; lines = lines; pieces = class_pieces }
    ∷ []

process_file-Adds_example :
    (x : Result LineError Reader) × ((process_file 9 (joined (file_lines two_templates)) fresh
        ≡ some x)
      × Adds fresh (compiled two_templates) x)
unfolding text_eq
process_file-Adds_example =
    process_file-Adds 9 two_templates fresh refl ((refl, lines_cut), ((refl, lines_cut), tt)) refl
      (omega arith)

-- A line without a newline behind it is lost.
last_line :
    process_file 9 (codes "________ A\nx\n________ END") fresh
    ≡ some (
        ok (record {
          in_template = true;
          template_name = codes "A";
          template_body = codes "x\n";
          output = [];
        }))
unfolding process_file getline process_line text_eq
last_line = refl
