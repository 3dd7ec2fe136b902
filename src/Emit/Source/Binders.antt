-- ===== src/Emit/Source/Binders.antt =====
-- emit_source.cc: the queries, the protobuf copies and the binders of a field.
use Prim.Native.String.{String}
use sqlite3gen.Base.{Bool, false, ◌&&◌, List, [], ◌∷◌, ◌++◌, if◌then◌else◌}
use sqlite3gen.Base.Text.{codes}
use sqlite3gen.Schema.{
  TypeDef, type_int, type_int64, type_text, type_blob, type_double, type_bool, type_enum,
  type_subtable, FieldDef,
}
use sqlite3gen.Emit.Types.{typedef_to_ctype, typedef_to_string}
use sqlite3gen.Emit.Machine.{Cmd, put_stream, puts, new, out, pat}
use sqlite3gen.Emit.Common.{has_protoid, Switch, switch, no_subtable}

abbrev pub query_binds : Switch
query_binds = record {
  pod = "TABLE_query_bind_pod";
  string = "TABLE_query_bind_string";
  bool = "TABLE_query_bind_bool";
  enum = "TABLE_query_bind_pod";
  subtable = no_subtable "query SUBTABLE";
}

unfoldable pub query_part : FieldDef → List Cmd
unfolding switch
query_part fd =
    if fd.attrs.query
    then out "TABLE_prepare_query" "prepare_queries"
        ∷ out "TABLE_finalize_query" "finalize_queries"
        ∷ new "query_bind"
        ∷ switch fd.type.type query_binds "query_bind"
      ++ pat "query_bind" ∷ out "TABLE_query_implementation" "query_implementations" ∷ []
    else []

unfoldable pub likequery_part : FieldDef → List Cmd
likequery_part fd =
    if fd.attrs.likequery
    then out "TABLE_prepare_like_query" "prepare_like_queries"
      ∷ out "TABLE_finalize_like_query" "finalize_like_queries"
      ∷ out "TABLE_query_like_implementation" "query_like_implementations"
      ∷ []
    else []

unfoldable pub index_part : FieldDef → List Cmd
index_part fd = if fd.attrs.index then out "TABLE_create_index" "index_creation" ∷ [] else []

unfoldable pub query_commands : FieldDef → List Cmd
unfolding query_part likequery_part index_part
query_commands fd = query_part fd ++ likequery_part fd ++ index_part fd

abbrev pub copies_to : Switch
copies_to = record {
  pod = "TABLE_proto_copy_to_field";
  string = "TABLE_proto_copy_to_field";
  bool = "TABLE_proto_copy_to_field_bool";
  enum = "TABLE_proto_copy_to_field_enum";
  subtable = [];
}

abbrev pub copies_from : Switch
copies_from = record {
  pod = "TABLE_proto_copy_from_field";
  string = "TABLE_proto_copy_from_field";
  bool = "TABLE_proto_copy_from_field_bool";
  enum = "TABLE_proto_copy_from_field";
  subtable = [];
}

unfoldable pub proto_commands : FieldDef → (do_protobuf : Bool) → List Cmd
unfolding switch
proto_commands fd do_protobuf =
    if do_protobuf && has_protoid fd
    then switch fd.type.type copies_to "proto_copy_to"
      ++ switch fd.type.type copies_from "proto_merge_from"
    else []

unfoldable pub tostring_commands : TypeDef → List Cmd
tostring_commands t = elim t [
  | type_int ↦ out "TABLE_field_pod_tostring_func" "field_tostring_funcs" ∷ []
  | type_int64 ↦ out "TABLE_field_pod_tostring_func" "field_tostring_funcs" ∷ []
  | type_double ↦ out "TABLE_field_pod_tostring_func" "field_tostring_funcs" ∷ []
  | type_text ↦ out "TABLE_field_text_tostring_func" "field_tostring_funcs" ∷ []
  | type_blob ↦ out "TABLE_field_blob_tostring_func" "field_tostring_funcs" ∷ []
  | type_bool ↦ out "TABLE_field_bool_tostring_func" "field_tostring_funcs" ∷ []
  | type_enum ↦ out "TABLE_field_enum_tostring_func" "field_tostring_funcs" ∷ []
  | type_subtable ↦ []
]

-- The binders of the three statements with the template of the type, then the column.
unfoldable pub bind_column : FieldDef → (binder column : String) → List Cmd
bind_column fd binder column =
    (if fd.attrs.auto_increment
      then []
      else puts "stmt" (codes "insert")
        ∷ out binder "insert_binders"
        ∷ puts "stmt" (codes "update")
        ∷ out binder "update_binders"
        ∷ [])
    ++ put_stream (codes "update_column_index") (codes "select_column_index")
      ∷ puts "stmt" (codes "insert_force")
      ∷ out binder "insert_force_binders"
      ∷ out column "get_columns"
      ∷ []

unfoldable pub binder_commands : FieldDef → List Cmd
unfolding bind_column
binder_commands fd = elim fd.type.type [
  | type_int ↦ bind_column fd "TABLE_insert_binder_pod" "TABLE_get_column_pod"
  | type_int64 ↦ bind_column fd "TABLE_insert_binder_pod" "TABLE_get_column_pod"
  | type_double ↦ bind_column fd "TABLE_insert_binder_pod" "TABLE_get_column_pod"
  | type_text ↦ bind_column fd "TABLE_insert_binder_string" "TABLE_get_column_string"
  | type_blob ↦ bind_column fd "TABLE_insert_binder_string" "TABLE_get_column_string"
  | type_bool ↦ bind_column fd "TABLE_insert_binder_bool" "TABLE_get_column_bool"
  | type_enum ↦ bind_column fd "TABLE_insert_binder_enum" "TABLE_get_column_enum"
  | type_subtable ↦ []
]

unfoldable pub descriptor_commands : FieldDef → List Cmd
unfolding typedef_to_ctype typedef_to_string
descriptor_commands fd =
    puts "fieldtype_mutable" (typedef_to_ctype fd.type false [])
    ∷ puts "sqlite3gen_type" (typedef_to_string fd.type.type)
    ∷ out "TABLE_descriptor" "column_descriptors"
    ∷ out "TABLE_tostring_field" "tostring_fields"
    ∷ []
