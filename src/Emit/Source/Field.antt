-- ===== src/Emit/Source/Field.antt =====
-- emit_source.cc: what is written for one field of a table, up to the queries.
use Prim.Native.String.{String}
use sqlite3gen.Base.{
  ℕ, Bool, true, false, ◌&&◌, Option, none, some, List, [], ◌∷◌, ◌++◌, ◌+◌, leb, if◌then◌else◌,
}
use sqlite3gen.Base.Text.{Text, codes}
use sqlite3gen.Base.Numbers.{decimal}
use sqlite3gen.Schema.{
  TypeDef, type_int, type_int64, type_text, type_blob, type_double, type_bool, type_enum,
  type_subtable, FieldDef,
}
use sqlite3gen.Schema.Validate.{is_empty}
use sqlite3gen.Emit.Types.{
  typedef_to_ctype, typedef_to_sqlite_column, typedef_to_sqlite_bind, typedef_to_sqlite_macro,
  typedef_to_sqlite_create_type, null_pointer,
}
use sqlite3gen.Base.Result.{ok, err}
use sqlite3gen.Emit.Machine.{Cmd, stop, puts, puts_or, say, new, out, pat}
use sqlite3gen.Emit.Common.{get_initial_value}

-- In the C locale.
unfoldable pub to_lower : Text → Text
to_lower [] = []
to_lower (c ∷ cs) = (if leb 65 c && leb c 90 then c + 32 else c) ∷ to_lower cs

unfoldable pub copy_to_xml : TypeDef → List Cmd
copy_to_xml t = elim t [
  | type_int ↦ out "TABLE_copy_pod_to_xml" "xml_copy_to" ∷ []
  | type_int64 ↦ out "TABLE_copy_pod_to_xml" "xml_copy_to" ∷ []
  | type_double ↦ out "TABLE_copy_pod_to_xml" "xml_copy_to" ∷ []
  | type_text ↦ out "TABLE_copy_string_to_xml" "xml_copy_to" ∷ []
  | type_blob ↦ out "TABLE_copy_blob_to_xml" "xml_copy_to" ∷ []
  | type_bool ↦ out "TABLE_copy_bool_to_xml" "xml_copy_to" ∷ []
  | type_enum ↦ out "TABLE_copy_enum_to_xml" "xml_copy_to" ∷ []
  | type_subtable ↦
      out "TABLE_copy_subtable_to_xml" "xml_copy_to"
      ∷ out "TABLE_CLASS_get_all_subtables_one" "get_all_subtables"
      ∷ out "TABLE_CLASS_insert_all_subtables_one" "insert_all_subtables"
      ∷ out "TABLE_CLASS_insert_all_subtables_force_one" "insert_all_subtables_force"
      ∷ out "TABLE_set_subtable" "set_db_subtables"
      ∷ []
]

unfoldable pub copy_from_xml : TypeDef → List Cmd
copy_from_xml t = elim t [
  | type_int ↦ out "TABLE_copy_xml_to_pod" "xml_decoder_functions" ∷ []
  | type_int64 ↦ out "TABLE_copy_xml_to_pod" "xml_decoder_functions" ∷ []
  | type_double ↦ out "TABLE_copy_xml_to_pod" "xml_decoder_functions" ∷ []
  | type_text ↦ out "TABLE_copy_xml_to_string" "xml_decoder_functions" ∷ []
  | type_blob ↦ out "TABLE_copy_xml_to_blob" "xml_decoder_functions" ∷ []
  | type_bool ↦ out "TABLE_copy_xml_to_bool" "xml_decoder_functions" ∷ []
  | type_enum ↦ out "TABLE_copy_xml_to_enum" "xml_decoder_functions" ∷ []
  | type_subtable ↦ out "TABLE_copy_xml_to_subtable" "xml_decoder_functions" ∷ []
]

unfoldable pub initial_values : FieldDef → List Cmd
unfolding get_initial_value typedef_to_ctype
initial_values fd =
    let value = get_initial_value fd in
    let line = codes "    " ++ fd.name ++ value.0 ++ codes ";\n" in
    (if value.1
      then puts "fieldtypeconst" (typedef_to_ctype fd.type false fd.name)
        ∷ puts "initial_value" value.0
        ∷ out "TABLE_CLASS_const_field_default_decl" "const_field_default_decls"
        ∷ []
      else [])
    ++ say "initial_values" line
      ∷ puts "null_sets_initial_value" (codes "true")
      ∷ puts "initial_value" line
      ∷ []

-- The statements for every field.
unfoldable pub field_start : FieldDef → List Cmd
unfolding to_lower typedef_to_ctype copy_to_xml initial_values copy_from_xml
field_start fd =
    puts "fieldname" fd.name
      ∷ puts "fieldname_lower" (to_lower fd.name)
      ∷ puts "fieldtype" (typedef_to_ctype fd.type true fd.name)
      ∷ copy_to_xml fd.type.type
    ++ initial_values fd
    ++ copy_from_xml fd.type.type
    ++ out "TABLE_xml_decoder_initializer" "xml_decoder_initializers"
      ∷ say "field_copies" (codes "    " ++ fd.name ++ codes " = other." ++ fd.name ++ codes ";\n")
      ∷ []

-- The rest for a subtable; `link` is `subtable_field`.
unfoldable pub subtable_rest : (link : Option FieldDef) → List Cmd
subtable_rest none = stop (null_pointer (codes "subtable_field")) ∷ []
subtable_rest (some fd2) =
    puts "this_key" fd2.attrs.foreign_field
    ∷ puts "other_key" fd2.name
    ∷ out "TABLE_get_subtable_implementation" "get_subtable_implementations"
    ∷ out "TABLE_proto_copy_to_subtable" "proto_copy_to"
    ∷ out "TABLE_proto_copy_init_subtable" "proto_copy_init_subtables"
    ∷ out "TABLE_proto_copy_from_subtable" "proto_merge_from"
    ∷ out "TABLE_field_subtable_tostring_func" "field_tostring_funcs"
    ∷ out "TABLE_tostring_field" "tostring_fields"
    ∷ []

unfoldable pub sqlite_names : TypeDef → List Cmd
unfolding typedef_to_sqlite_column typedef_to_sqlite_bind typedef_to_sqlite_macro
sqlite_names t =
    puts_or "sqlite_column_func" (typedef_to_sqlite_column t)
    ++ puts_or "sqlite_bind_func" (typedef_to_sqlite_bind t)
    ++ puts_or "sqlite_type" (typedef_to_sqlite_macro t)

-- A stream that holds a number, and its pattern.
unfoldable pub set_index : String → ℕ → List Cmd
unfolding decimal
set_index stream n = new stream ∷ say stream (decimal n) ∷ pat stream ∷ []

unfoldable pub question_marks : FieldDef → (first_update : Bool) → (update_column : ℕ) → List Cmd
unfolding set_index
question_marks fd first_update update_column =
    if fd.attrs.auto_increment
    then []
    else (if first_update then [] else say "questionmarks" (codes ",") ∷ [])
      ++ say "questionmarks" (codes "?") ∷ set_index "update_column_index" update_column

unfoldable pub column_separator : (first_select : Bool) → List Cmd
column_separator first_select =
    if first_select
    then []
    else say "table_create_fields" (codes ", ") ∷ say "questionmarks_force" (codes ",") ∷ []

unfoldable pub column_type : FieldDef → List Cmd
unfolding typedef_to_sqlite_create_type
column_type fd =
    say "table_create_fields" (fd.name ++ codes " ")
    ∷ elim (typedef_to_sqlite_create_type fd.type.type) [
      | err e ↦ stop e ∷ []
      | ok name ↦ say "table_create_fields" name ∷ []
    ]

unfoldable pub column_attrs : FieldDef → List Cmd
column_attrs fd =
    (if is_empty fd.attrs.constraints
      then []
      else say "table_create_fields" (codes " " ++ fd.attrs.constraints) ∷ [])
    ++ (if fd.attrs.auto_increment
        then say "table_create_fields" (codes " AUTOINCREMENT")
          ∷ say "autoincr_rowid_fetch" (fd.name ++ codes " = rowid;\n")
          ∷ []
        else [])
    ++ (if fd.attrs.foreign
        then puts "foreign_table" fd.attrs.foreign_table
          ∷ puts "foreign_field" fd.attrs.foreign_field
          ∷ out "TABLE_foreign_create_constraints" "table_create_constraints"
          ∷ []
        else [])

unfoldable pub create_column : FieldDef → (first_select : Bool) → List Cmd
unfolding column_separator column_type column_attrs
create_column fd first_select =
    column_separator first_select
    ++ column_type fd
    ++ say "questionmarks_force" (codes "?") ∷ column_attrs fd
