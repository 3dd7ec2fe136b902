-- ===== src/Emit/Source/Insert.antt =====
-- emit_source.cc: the INSERT statements that a table gets.
use sqlite3gen.Base.{ℕ, ◌≡◌, sym, ◌∙◌, ap, Bool, true, List, [], ◌∷◌, ◌++◌, map}
use sqlite3gen.Base.Text.{Text, codes, text_eq}
use sqlite3gen.Base.Numbers.{decimal}
use sqlite3gen.Base.Result.{ok}
use sqlite3gen.Schema.{FieldDef, TableDef, SchemaDef}
use sqlite3gen.Schema.Validate.{Marks}
use sqlite3gen.Template.Patterns.{find_pattern, set_pattern, find_pattern-set_pattern}
use sqlite3gen.Emit.Machine.{Cmd, Piece, Emitter, exec, exec_one, news, pats, puts, say}
use sqlite3gen.Emit.Words.{exec-split, sent, ok_inj}
use sqlite3gen.Emit.Source.Fields.{name_fields, field_loop}
use sqlite3gen.Emit.Source.Columns.{
  no_column, not_inserted, reject, listed, name_fields-all, name_fields-update,
}
use sqlite3gen.Emit.Source.Calm.{marks, marks_force}
use sqlite3gen.Emit.Source.QuestionMarks.{mark, field_loop-SendsBoth}
use sqlite3gen.Emit.Source.Table.{table_streams, table_names}

abbrev name_of : FieldDef → Text
name_of fd = fd.name

-- The statements between the declarations of the streams and SET_PATTERN.
abbrev names_of : TableDef → List Cmd
names_of td =
    puts "tablename" td.name
    ∷ say "tableversion" (decimal td.version)
    ∷ name_fields true true td.fields

module _ (templates : Text → List Piece) where
  -- The second walk of a table leaves a question mark in questionmarks for each field that an
  -- INSERT gives a value, and one in questionmarks_force for each column, with commas between
  -- them, where the two streams are empty before it and it does not stop with an error.
  pub field_loop_lem :
      (sd : SchemaDef) (links : Marks) (t : ℕ) (td : TableDef) (p : Bool) (e e' : Emitter)
      → exec templates (field_loop sd links t 0 td.constraints p true true 1 1 td.fields) e ≡ ok e'
      → e.streams marks ≡ []
      → e.streams marks_force ≡ []
      → (e'.streams marks ≡ listed true (codes ",") (map mark (reject not_inserted td.fields)))
        × (e'.streams marks_force ≡ listed true (codes ",") (map mark (reject no_column td.fields)))
  field_loop_lem sd links t td p e e' run h g =
      let (inserted, forced) =
        field_loop-SendsBoth sd links t 0 td.constraints p true true 1 1 td.fields in
      (
        sent templates _ e e' marks _ run h inserted,
        sent templates _ e e' marks_force _ run g forced,
      )

  -- A stream of the table is empty after the declarations.
  declared :
      (e e0 : Emitter)
      → exec templates (news table_streams) e ≡ ok e0
      → (e0.streams (codes "update_fieldnames") ≡ []) × (e0.streams (codes "all_fieldnames") ≡ [])
  unfolding exec exec_one text_eq
  declared e e0 run = (
    ap (λ (x : Emitter). x.streams (codes "update_fieldnames")) (sym (ok_inj run)),
    ap (λ (x : Emitter). x.streams (codes "all_fieldnames")) (sym (ok_inj run)),
  )

  -- What SET_PATTERN gives the two patterns.
  assigned :
      (e e' : Emitter) (template : Text)
      → exec templates (pats ("update_fieldnames" ∷ "all_fieldnames" ∷ [])) e ≡ ok e'
      → (find_pattern e'.patterns (codes "update_fieldnames") template
          ≡ ok (e.streams (codes "update_fieldnames")))
        × (find_pattern e'.patterns (codes "all_fieldnames") template
            ≡ ok (e.streams (codes "all_fieldnames")))
  unfolding exec exec_one text_eq
  assigned e e' template run =
      let first =
        set_pattern (codes "update_fieldnames") (e.streams (codes "update_fieldnames"))
          e.patterns in
      let value = e.streams (codes "all_fieldnames") in
      let after = ap (λ (x : Emitter). x.patterns) (sym (ok_inj run)) in
      (
        ap
              (λ (values : List (Text × Text)).
                find_pattern values (codes "update_fieldnames") template)
              after
            ∙ find_pattern-set_pattern first (codes "all_fieldnames") value
                (codes "update_fieldnames") template
            ∙ find_pattern-set_pattern e.patterns (codes "update_fieldnames")
                (e.streams (codes "update_fieldnames")) (codes "update_fieldnames") template,
        ap (λ (values : List (Text × Text)). find_pattern values (codes "all_fieldnames") template)
              after
            ∙ find_pattern-set_pattern first (codes "all_fieldnames") value (codes "all_fieldnames")
                template,
      )

  -- After the first walk of a table that does not stop with an error, the pattern
  -- update_fieldnames lists the names of the fields that an INSERT gives a value, and
  -- all_fieldnames those of the columns, with commas between them.
  pub table_names_lem :
      (td : TableDef) (e e' : Emitter) (template : Text)
      → exec templates (table_names td) e ≡ ok e'
      → (find_pattern e'.patterns (codes "update_fieldnames") template
          ≡ ok (listed true (codes ", ") (map name_of (reject not_inserted td.fields))))
        × (find_pattern e'.patterns (codes "all_fieldnames") template
            ≡ ok (listed true (codes ", ") (map name_of (reject no_column td.fields))))
  unfolding table_names text_eq
  table_names_lem td e e' template run =
      let streams = news table_streams in
      let set = pats ("update_fieldnames" ∷ "all_fieldnames" ∷ []) in
      let (e1, walked, run_set) = exec-split templates (streams ++ names_of td) set e e' run in
      let (e0, run_news, run_names) = exec-split templates streams (names_of td) e e1 walked in
      let (update_empty, all_empty) = declared e e0 run_news in
      let (update_set, all_set) = assigned e1 e' template run_set in
      (
        update_set
            ∙ ap (λ (w : Text). ok w)
                (sent templates (names_of td) e0 e1 (codes "update_fieldnames") _ run_names
                  update_empty (name_fields-update true true td.fields)),
        all_set
            ∙ ap (λ (w : Text). ok w)
                (sent templates (names_of td) e0 e1 (codes "all_fieldnames") _ run_names all_empty
                  (name_fields-all true true td.fields)),
      )
