-- ===== src/Emit/Source/Selects.antt =====
-- emit_source.cc: the CUSTOM-SELECTs.
use sqlite3gen.Base.{ℕ, suc, true, false, Option, none, some, List, [], ◌∷◌, ◌++◌, get_elem?}
use sqlite3gen.Base.Text.{Text, codes}
use sqlite3gen.Base.Numbers.{decimal}
use sqlite3gen.Schema.{
  TypeDef, type_int, type_int64, type_text, type_blob, type_double, type_bool, type_enum,
  type_subtable, TypeDefValue, FieldDef, TableDef, CustomSelect, SchemaDef,
}
use sqlite3gen.Schema.Validate.{SelectLinks}
use sqlite3gen.Emit.Types.{
  typedef_to_ctype, typedef_to_string, typedef_to_sqlite_bind, typedef_to_sqlite_column,
  typedef_to_sqlite_macro, dots_to_colons, null_pointer,
}
use sqlite3gen.Emit.Machine.{Cmd, stop, puts, puts_or, say, new, out, pat, news, pats}
use sqlite3gen.Emit.Common.{switch, no_subtable, list_words, field_at, get_initial_value}
use sqlite3gen.Emit.Source.Field.{set_index}

-- The binder of an argument.
unfoldable pub select_argument : (argcount : ℕ) → TypeDef → List Cmd
unfolding set_index typedef_to_sqlite_bind switch
select_argument argcount t =
    set_index "arg_index" argcount
    ++ puts_or "sqlite_bind_func" (typedef_to_sqlite_bind t)
    ++ puts "customname" (codes "query")
      ∷ switch t
          (record {
            pod = "TABLE_custom_get_binder_pod";
            string = "TABLE_custom_get_binder_string";
            bool = "TABLE_custom_get_binder_bool";
            enum = "TABLE_custom_get_binder_enum";
            subtable = no_subtable "query SUBTABLE";
          })
          "querybinders"

-- The arguments from the `argcount`-th on, and their binders.
unfoldable pub select_arguments : (argcount : ℕ) → List TypeDefValue → List Cmd
unfolding select_argument typedef_to_ctype decimal
select_arguments argcount [] = []
select_arguments argcount (t ∷ ts) =
    say "queryargs" (typedef_to_ctype t true [] ++ codes " v" ++ decimal argcount)
      ∷ (elim ts [ [] ↦ [] | t' ∷ ts' ↦ say "queryargs" (codes ", ") ∷ [] ])
    ++ select_argument argcount t.type
    ++ select_arguments (suc argcount) ts

unfoldable pub select_initial : TableDef → Option FieldDef → List Cmd
unfolding get_initial_value
select_initial td none =
    puts "null_sets_initial_value" (codes "false")
    ∷ puts "initial_value" (codes "/* not reached: not allowed to be null */")
    ∷ []
select_initial td (some fd) =
    puts "null_sets_initial_value" (codes "true")
    ∷ puts "initial_value"
        (codes "    " ++ td.name ++ codes "_" ++ fd.name ++ (get_initial_value fd).0 ++ codes ";\n")
    ∷ []

-- The type of a NULL field, the rowid, is INT64.
abbrev pub type_of : Option FieldDef → TypeDef
type_of none = type_int64
type_of (some fd) = fd.type.type

abbrev pub name_of : Option FieldDef → Text
name_of none = codes "rowid"
name_of (some fd) = fd.name

unfoldable pub select_enum : TableDef → Option FieldDef → List Cmd
unfolding dots_to_colons typedef_to_ctype
select_enum td none = stop (null_pointer (codes "fd")) ∷ []
select_enum td (some fd) =
    new "initial_value"
    ∷ say "initial_value" (
        codes "    "
        ++ td.name
        ++ codes "_"
        ++ fd.name
        ++ codes " = "
        ++ dots_to_colons fd.attrs.init_string
        ++ codes ";\n")
    ∷ pat "initial_value"
    ∷ puts "fieldtype" (typedef_to_ctype fd.type true fd.name)
    ∷ out "TABLE_get_column_enum" "get_columns"
    ∷ []

unfoldable pub select_column : TableDef → Option FieldDef → List Cmd
unfolding select_enum
select_column td fd = elim (type_of fd) [
  | type_int ↦ out "TABLE_get_column_pod" "get_columns" ∷ []
  | type_int64 ↦ out "TABLE_get_column_pod" "get_columns" ∷ []
  | type_double ↦ out "TABLE_get_column_pod" "get_columns" ∷ []
  | type_text ↦ out "TABLE_get_column_string" "get_columns" ∷ []
  | type_blob ↦ out "TABLE_get_column_string" "get_columns" ∷ []
  | type_bool ↦ out "TABLE_get_column_bool" "get_columns" ∷ []
  | type_enum ↦ select_enum td fd
  | type_subtable ↦ []
]

unfoldable pub select_tostring : TypeDef → List Cmd
select_tostring t = elim t [
  | type_int ↦ out "QUERY_field_pod_tostring_func" "field_tostring_funcs" ∷ []
  | type_int64 ↦ out "QUERY_field_pod_tostring_func" "field_tostring_funcs" ∷ []
  | type_double ↦ out "QUERY_field_pod_tostring_func" "field_tostring_funcs" ∷ []
  | type_text ↦ out "QUERY_field_text_tostring_func" "field_tostring_funcs" ∷ []
  | type_blob ↦ out "QUERY_field_blob_tostring_func" "field_tostring_funcs" ∷ []
  | type_bool ↦ out "QUERY_field_bool_tostring_func" "field_tostring_funcs" ∷ []
  | type_enum ↦ out "QUERY_field_enum_tostring_func" "field_tostring_funcs" ∷ []
  | type_subtable ↦ []
]

unfoldable pub select_field_commands : TableDef → Option FieldDef → (argcount : ℕ) → List Cmd
unfolding set_index typedef_to_sqlite_macro typedef_to_sqlite_column select_initial select_column
    typedef_to_ctype typedef_to_string select_tostring
select_field_commands td fd argcount =
    set_index "select_column_index" argcount
    ++ puts_or "sqlite_type" (typedef_to_sqlite_macro (type_of fd))
    ++ puts "fieldname" (td.name ++ codes "_" ++ name_of fd)
      ∷ puts_or "sqlite_column_func" (typedef_to_sqlite_column (type_of fd))
    ++ select_initial td fd
    ++ select_column td fd
    ++ puts "tablename" td.name
      ∷ puts "fieldname" (name_of fd)
      ∷ puts "fieldtype_mutable"
          (elim fd [ none ↦ codes "sqlite3_int64" | some f ↦ typedef_to_ctype f.type false f.name ])
      ∷ puts "sqlite3gen_type" (typedef_to_string (type_of fd))
      ∷ select_tostring (type_of fd)
    ++ out "TABLE_descriptor" "column_descriptors"
      ∷ out "QUERY_tostring_field" "tostring_fields"
      ∷ []

-- The two vectors of pointers, walked side by side.
unfoldable pub select_field_loop : SchemaDef → (argcount : ℕ) → List ℕ → List (Option ℕ) → List Cmd
unfolding select_field_commands
select_field_loop sd argcount ts [] = []
select_field_loop sd argcount [] (f ∷ fs) = stop (null_pointer (codes "field_table_ptrs")) ∷ []
select_field_loop sd argcount (t ∷ ts) (f ∷ fs) =
    (elim (get_elem? sd.tables t) [
      | none ↦ stop (null_pointer (codes "field_table_ptrs")) ∷ []
      | some td ↦
          select_field_commands td (elim f [ none ↦ none | some i ↦ field_at sd t i ]) argcount
    ])
    ++ select_field_loop sd (suc argcount) ts fs

unfoldable pub select_body : CustomSelect → List Cmd
unfolding list_words
select_body csel = elim csel.table_names [
  | [] ↦ say "querybody" csel.full_statement ∷ []
  | w ∷ ws ↦
      say "querybody" (codes "FROM ") ∷ list_words "querybody" (codes ", ") (w ∷ ws)
      ++ say "querybody" (codes " WHERE " ++ csel.where_clause) ∷ []
]

unfoldable pub select_commands : SchemaDef → CustomSelect → SelectLinks → List Cmd
unfolding select_arguments list_words select_field_loop select_body
select_commands sd csel links =
    news (
      "queryargs" ∷ "get_columns" ∷ "querybinders" ∷ "queryfields" ∷ "querybody"
      ∷ "column_descriptors" ∷ "field_tostring_funcs" ∷ "tostring_fields" ∷ [])
    ++ puts "queryname" csel.name ∷ select_arguments 1 csel.types
    ++ list_words "queryfields" (codes ", ") csel.field_names
    ++ select_field_loop sd 0 links.field_table_ptrs links.field_ptrs
    ++ select_body csel
    ++ pats (
        "queryfields" ∷ "querybody" ∷ "querybinders" ∷ "queryargs" ∷ "get_columns"
        ∷ "column_descriptors" ∷ "field_tostring_funcs" ∷ "tostring_fields" ∷ [])
    ++ out "QUERY_CLASS_IMPL" "out" ∷ []

-- A select that was not validated has empty vectors.
unfoldable pub selects_loop : SchemaDef → List CustomSelect → List SelectLinks → List Cmd
unfolding select_commands
selects_loop sd [] links = []
selects_loop sd (csel ∷ csels) [] =
    select_commands sd csel (record { field_table_ptrs = []; field_ptrs = []; table_ptrs = [] })
    ++ selects_loop sd csels []
selects_loop sd (csel ∷ csels) (l ∷ links) =
    select_commands sd csel l ++ selects_loop sd csels links
