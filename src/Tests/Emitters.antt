-- ===== src/Tests/Emitters.antt =====
-- emit_source.cc, emit_header.cc, emit_proto.cc, run on a small table.
use sqlite3gen.Base.{◌≡◌, refl, true, false, List, [], ◌∷◌, map}
use sqlite3gen.Base.Text.{Text, codes}
use sqlite3gen.Base.Result.{ok, err}
use sqlite3gen.Template.Patterns.{find_pattern}
use sqlite3gen.Emit.Machine.{Cmd, Piece, Emitter, exec, exec_one, say}
use sqlite3gen.Emit.Source.Calm.{marks, marks_force}
use sqlite3gen.Emit.Source.QuestionMarks.{mark}
use sqlite3gen.Emit.Source.Columns.{no_column, not_inserted, reject, listed}
use sqlite3gen.Emit.Source.Fields.{field_loop}
use sqlite3gen.Emit.Source.Table.{table_names}
use sqlite3gen.Emit.Source.Insert.{field_loop_lem, table_names_lem}
use sqlite3gen.Schema.{TypeDefValue}
use sqlite3gen.Base.Result.{is_ok}
use sqlite3gen.Emit.Types.{typedef_to_sqlite_bind}
use sqlite3gen.Emit.Machine.{literal, pattern_of, render}
use sqlite3gen.Emit.Rendering.{all_defined, is_ok-render}
use sqlite3gen.Emit.Common.{arglist}
use sqlite3gen.Emit.Header.Selects.{header_arguments}
use sqlite3gen.Emit.Source.Selects.{select_arguments}
use sqlite3gen.Emit.Arguments.{args, header_arguments_lem}
use sqlite3gen.Base.{none, some}
use sqlite3gen.Template.Compile.{find_ats, pieces_of, add_template}
use sqlite3gen.Template.Compile.RoundTrip.{body_of, pieces, add_template-body_of}
use sqlite3gen.Tests.Tables.{int, user, shop}

-- Templates without a pattern.
abbrev blank : Text → List Piece
blank template = []

abbrev start : Emitter
start = record { patterns = []; streams = λ s. [] }

-- What a run leaves, where it does not stop.
abbrev after : List Cmd → Emitter
after cs = elim (exec blank cs start) [ ok e ↦ e | err x ↦ start ]

abbrev names : List Cmd
names = table_names user

abbrev loop : List Cmd
loop = field_loop shop [] 0 0 user.constraints false true true 1 1 user.fields

abbrev words : List Cmd
words = say "out" (codes "a") ∷ say "out" (codes "b") ∷ []

words_run : exec blank words start ≡ ok (after words)
unfolding exec exec_one
words_run = refl

names_run : exec blank names start ≡ ok (after names)
unfolding exec exec_one table_names
names_run = refl

table_names_lem_example :
    (find_pattern (after names).patterns (codes "update_fieldnames") []
      ≡ ok (listed true (codes ", ") (map (λ fd. fd.name) (reject not_inserted user.fields))))
    × (find_pattern (after names).patterns (codes "all_fieldnames") []
        ≡ ok (listed true (codes ", ") (map (λ fd. fd.name) (reject no_column user.fields))))
table_names_lem_example = table_names_lem blank user start (after names) [] names_run

loop_run : exec blank loop start ≡ ok (after loop)
unfolding exec exec_one field_loop
loop_run = refl

field_loop_lem_example :
    ((after loop).streams marks
      ≡ listed true (codes ",") (map mark (reject not_inserted user.fields)))
    × ((after loop).streams marks_force
        ≡ listed true (codes ",") (map mark (reject no_column user.fields)))
field_loop_lem_example =
    field_loop_lem blank shop [] 0 user false start (after loop) loop_run refl refl

abbrev one_int : List TypeDefValue
one_int = int ∷ []

header_run : exec blank (header_arguments 1 one_int) start ≡ ok (after (header_arguments 1 one_int))
unfolding exec exec_one header_arguments
header_run = refl

source_run : exec blank (select_arguments 1 one_int) start ≡ ok (after (select_arguments 1 one_int))
unfolding exec exec_one select_arguments typedef_to_sqlite_bind
source_run = refl

header_arguments_lem_example :
    ((after (header_arguments 1 one_int)).streams args ≡ arglist one_int 1)
    × ((after (select_arguments 1 one_int)).streams args ≡ arglist one_int 1)
header_arguments_lem_example =
    header_arguments_lem blank one_int start (after (header_arguments 1 one_int)) start
      (after (select_arguments 1 one_int)) header_run source_run refl refl

abbrev class_template : List Piece
class_template = literal (codes "class ") ∷ pattern_of (codes "tablename") ∷ []

is_ok-render_example :
    is_ok (render (codes "TABLE") class_template ((codes "tablename", codes "user") ∷ []))
    ≡ all_defined ((codes "tablename", codes "user") ∷ []) class_template
is_ok-render_example =
    is_ok-render (codes "TABLE") class_template ((codes "tablename", codes "user") ∷ [])

abbrev class_pieces : List (Text × Text)
class_pieces = (codes "class ", codes "tablename") ∷ (codes " : public ", codes "base") ∷ []

add_template-body_of_example :
    add_template (body_of class_pieces (codes ";")) ≡ some (pieces class_pieces (codes ";"))
add_template-body_of_example = add_template-body_of class_pieces (codes ";") refl refl refl

-- A mark that ends the body is not seen, and its partner is left alone.
last_mark_unseen : add_template (codes "a@@b@@") ≡ none
unfolding add_template find_ats pieces_of
last_mark_unseen = refl
