-- ===== src/Emit/Header/Selects.antt =====
-- emit_header.cc: the CUSTOM-SELECTs.
use sqlite3gen.Base.{
  ℕ, suc, true, false, Option, none, some, List, [], ◌∷◌, ◌++◌, if◌then◌else◌, get_elem?,
}
use sqlite3gen.Base.Text.{codes}
use sqlite3gen.Base.Numbers.{decimal}
use sqlite3gen.Schema.{TypeDefValue, FieldDef, TableDef, CustomSelect, SchemaDef}
use sqlite3gen.Schema.Validate.{SelectLinks, is_empty}
use sqlite3gen.Emit.Types.{typedef_to_ctype, null_pointer}
use sqlite3gen.Emit.Machine.{Cmd, stop, puts, say, out, news, pats}
use sqlite3gen.Emit.Common.{field_at}

-- The arguments from the `argcount`-th on.
unfoldable pub header_arguments : (argcount : ℕ) → List TypeDefValue → List Cmd
unfolding typedef_to_ctype decimal
header_arguments argcount [] = []
header_arguments argcount (t ∷ ts) =
    say "queryargs" (typedef_to_ctype t true [] ++ codes " v" ++ decimal argcount)
      ∷ (elim ts [ [] ↦ [] | t' ∷ ts' ↦ say "queryargs" (codes ", ") ∷ [] ])
    ++ header_arguments (suc argcount) ts

-- A NULL field is the rowid.
unfoldable pub header_select_field : TableDef → Option FieldDef → List Cmd
unfolding typedef_to_ctype
header_select_field td fd =
    puts "fieldtype"
      (elim fd [ none ↦ codes "sqlite3_int64" | some f ↦ typedef_to_ctype f.type false f.name ])
    ∷ puts "tablename" td.name
    ∷ puts "fieldname" (elim fd [ none ↦ codes "rowid" | some f ↦ f.name ])
    ∷ out "QUERY_CLASS_query_field" "queryfields"
    ∷ out "QUERY_CLASS_table_field_type_name_tostring_decls" "queryfields_tostring"
    ∷ []

-- The two vectors of pointers, walked side by side.
unfoldable pub header_select_fields : SchemaDef → List ℕ → List (Option ℕ) → List Cmd
unfolding header_select_field
header_select_fields sd ts [] = []
header_select_fields sd [] (f ∷ fs) = stop (null_pointer (codes "field_table_ptrs")) ∷ []
header_select_fields sd (t ∷ ts) (f ∷ fs) =
    (elim (get_elem? sd.tables t) [
      | none ↦ stop (null_pointer (codes "field_table_ptrs")) ∷ []
      | some td ↦ header_select_field td (elim f [ none ↦ none | some i ↦ field_at sd t i ])
    ])
    ++ header_select_fields sd ts fs

unfoldable pub header_select : SchemaDef → CustomSelect → SelectLinks → List Cmd
unfolding header_arguments header_select_fields
header_select sd csel links =
    news ("queryargs" ∷ "queryfields" ∷ "queryfields_tostring" ∷ [])
    ++ puts "queryname" csel.name ∷ header_arguments 1 csel.types
    ++ header_select_fields sd links.field_table_ptrs links.field_ptrs
    ++ puts "querybody" (
        if is_empty csel.where_clause
        then csel.full_statement
        else codes "WHERE " ++ csel.where_clause)
      ∷ pats ("queryargs" ∷ "queryfields" ∷ "queryfields_tostring" ∷ [])
    ++ out "QUERY_CLASS_DEFN" "out" ∷ []

-- A select that was not validated has empty vectors.
unfoldable pub header_selects : SchemaDef → List CustomSelect → List SelectLinks → List Cmd
unfolding header_select
header_selects sd [] links = []
header_selects sd (csel ∷ csels) [] =
    header_select sd csel (record { field_table_ptrs = []; field_ptrs = []; table_ptrs = [] })
    ++ header_selects sd csels []
header_selects sd (csel ∷ csels) (l ∷ links) =
    header_select sd csel l ++ header_selects sd csels links
