-- ===== src/Emit/Header/Fields.antt =====
-- emit_header.cc: the fields of a table.
use sqlite3gen.Base.{ℕ, suc, true, false, Option, none, some, List, [], ◌∷◌, ◌++◌, if◌then◌else◌}
use sqlite3gen.Base.Text.{Text, codes}
use sqlite3gen.Schema.{
  type_int, type_int64, type_text, type_blob, type_double, type_bool, type_enum, type_subtable,
  FieldDef, SchemaDef,
}
use sqlite3gen.Schema.Validate.{Marks}
use sqlite3gen.Emit.Types.{typedef_to_ctype, dots_to_colons, null_pointer}
use sqlite3gen.Emit.Machine.{Cmd, stop, puts, say, new, out, pat}
use sqlite3gen.Emit.Common.{is_sub, init_or_int, init_or_bool, subtable_field}

unfoldable pub header_query : FieldDef → List Cmd
unfolding typedef_to_ctype
header_query fd =
    (if fd.attrs.query
      then puts "fieldtype" (typedef_to_ctype fd.type true fd.name)
        ∷ out "TABLE_CLASS_stmt_by_decl" "stmt_by_decls"
        ∷ out "TABLE_CLASS_table_query_method_protos" "table_query_method_protos"
        ∷ []
      else [])
    ++ (if fd.attrs.likequery
        then out "TABLE_CLASS_stmt_by_decl_like" "stmt_by_decls_like"
          ∷ out "TABLE_CLASS_table_query_method_protos_like" "table_query_like_method_protos"
          ∷ []
        else [])

-- `link` is `subtable_field`.
unfoldable pub header_subtable : FieldDef → (link : Option FieldDef) → List Cmd
header_subtable fd link =
    if is_sub fd.type.type
    then elim link [
      | none ↦ stop (null_pointer (codes "subtable_field")) ∷ []
      | some fd2 ↦
          puts "foreign_key" fd2.name
          ∷ out "TABLE_CLASS_table_get_subtable_proto" "table_query_method_protos"
          ∷ []
    ]
    else []

-- The text, where the header gives a value.
unfoldable pub header_initial_value : FieldDef → Option Text
unfolding init_or_int init_or_bool dots_to_colons
header_initial_value fd = elim fd.type.type [
  | type_int ↦ some (codes "= " ++ init_or_int fd)
  | type_int64 ↦ some (codes "= " ++ init_or_int fd)
  | type_double ↦ some (codes "/* value is in the cc file */")
  | type_text ↦ some (codes "/* value is in the cc file */")
  | type_bool ↦ some (codes "= " ++ init_or_bool fd)
  | type_enum ↦ some (codes "= " ++ dots_to_colons fd.attrs.init_string)
  | type_subtable ↦ none
  | type_blob ↦ none
]

unfoldable pub header_default : FieldDef → List Cmd
unfolding header_initial_value
header_default fd = new "initial_value" ∷ elim (header_initial_value fd) [
  | none ↦ []
  | some value ↦
      say "initial_value" value
      ∷ pat "initial_value"
      ∷ out "TABLE_CLASS_table_field_default_const_decls" "table_field_type_name_decls"
      ∷ []
]

unfoldable pub header_field : FieldDef → (link : Option FieldDef) → List Cmd
unfolding header_query header_subtable header_default typedef_to_ctype
header_field fd link =
    puts "fieldname" fd.name ∷ header_query fd
    ++ header_subtable fd link
    ++ puts "fieldtype" (typedef_to_ctype fd.type false fd.name)
      ∷ out "TABLE_CLASS_table_field_type_name_decls" "table_field_type_name_decls"
      ∷ header_default fd
    ++ out "TABLE_CLASS_table_field_type_name_tostring_decls" "table_field_type_name_tostring_decls"
      ∷ out "TABLE_CLASS_xml_decoder_proto" "xml_decoder_protos"
      ∷ []

-- The fields of table `t` from position `i` on.
unfoldable pub header_fields : SchemaDef → Marks → (t i : ℕ) → List FieldDef → List Cmd
unfolding header_field subtable_field
header_fields sd marks t i [] = []
header_fields sd marks t i (fd ∷ fds) =
    header_field fd (subtable_field sd marks t i) ++ header_fields sd marks t (suc i) fds
