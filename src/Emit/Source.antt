-- ===== src/Emit/Source.antt =====
-- emit_source.cc.
pub mod Field
pub mod Binders
pub mod Fields
pub mod Customs
pub mod Table
pub mod Calm
pub mod Columns
pub mod QuestionMarks
pub mod Insert
pub mod Selects
use sqlite3gen.Base.{ℕ, suc, Bool, List, [], ◌∷◌, ◌++◌}
use sqlite3gen.Base.Text.{Text}
use sqlite3gen.Schema.{TableDef, SchemaDef}
use sqlite3gen.Schema.Validate.{Marks, SelectLinks}
use sqlite3gen.Emit.Machine.{Cmd, puts, out, news, pats}
use sqlite3gen.Emit.Common.{open_file}
use sqlite3gen.Emit.Source.Table.{table_commands}
use sqlite3gen.Emit.Source.Selects.{selects_loop}

-- The tables from position `t` on.
unfoldable pub tables_loop : SchemaDef → Marks → (t : ℕ) → List TableDef → List Cmd
unfolding table_commands
tables_loop sd marks t [] = []
tables_loop sd marks t (td ∷ tds) = table_commands sd marks t td ++ tables_loop sd marks (suc t) tds

unfoldable pub emit_source :
    (opened : Bool) → (fname header_fname : Text) → SchemaDef → Marks → List SelectLinks → List Cmd
unfolding open_file tables_loop selects_loop
emit_source opened fname header_fname schema marks links =
    open_file opened fname
    ++ puts "package" schema.package_name
      ∷ puts "headerfile" header_fname
      ∷ puts "sourcetop_block" schema.sourcetop
      ∷ puts "sourcebottom_block" schema.sourcebottom
      ∷ out "SOURCE_TOP" "out"
      ∷ news
          ("create_all_tables" ∷ "drop_all_tables" ∷ "table_export_all" ∷ "table_import_all" ∷ [])
    ++ tables_loop schema marks 0 schema.tables
    ++ selects_loop schema schema.custom_selects links
    ++ pats ("create_all_tables" ∷ "drop_all_tables" ∷ "table_export_all" ∷ "table_import_all" ∷ [])
    ++ out "CLASS_ALL_TABELS_IMPL" "out" ∷ []
