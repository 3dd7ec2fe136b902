-- ===== src/Emit/Source/Table.antt =====
-- emit_source.cc: a table.
use Prim.Native.String.{String}
use sqlite3gen.Base.{ℕ, true, not, ◌&&◌, List, [], ◌∷◌, ◌++◌, if◌then◌else◌}
use sqlite3gen.Base.Text.{codes}
use sqlite3gen.Base.Numbers.{decimal}
use sqlite3gen.Schema.{TableDef, SchemaDef}
use sqlite3gen.Schema.Validate.{Marks, is_subtable, is_empty}
use sqlite3gen.Emit.Machine.{Cmd, copy, puts, say, out, news, pats}
use sqlite3gen.Emit.Source.Fields.{name_fields, field_loop, table_protobuf}
use sqlite3gen.Emit.Source.Customs.{customs_loop}

-- The streams that a table declares.
abbrev pub table_streams : List String
table_streams =
    "tableversion" ∷ "prepare_queries" ∷ "prepare_like_queries" ∷ "all_fieldnames"
    ∷ "update_fieldnames" ∷ "questionmarks" ∷ "questionmarks_force" ∷ "initial_values"
    ∷ "prepare_custom_get_queries" ∷ "prepare_custom_upd" ∷ "prepare_custom_del"
    ∷ "finalize_queries" ∷ "finalize_like_queries" ∷ "finalize_custom_get_queries"
    ∷ "finalize_custom_upd" ∷ "finalize_custom_del" ∷ "get_columns" ∷ "query_implementations"
    ∷ "query_like_implementations" ∷ "insert_binders" ∷ "insert_force_binders" ∷ "update_binders"
    ∷ "custom_get_implementations" ∷ "custom_upd_implementations" ∷ "custom_del_implementations"
    ∷ "table_proto_copy_funcs" ∷ "proto_copy_to" ∷ "proto_copy_init_subtables" ∷ "proto_merge_from"
    ∷ "table_xml_copy_funcs" ∷ "xml_copy_to" ∷ "xml_decoder_functions" ∷ "xml_decoder_initializers"
    ∷ "table_create_fields" ∷ "table_create_constraints" ∷ "index_creation"
    ∷ "get_subtable_implementations" ∷ "field_copies" ∷ "get_all_subtables" ∷ "insert_all_subtables"
    ∷ "insert_all_subtables_force" ∷ "set_db_subtables" ∷ "autoincr_rowid_fetch"
    ∷ "column_descriptors" ∷ "field_tostring_funcs" ∷ "tostring_fields"
    ∷ "const_field_default_decls" ∷ []

-- `SET_PATTERN` of the streams, at the end of a table.
abbrev pub table_patterns : List String
table_patterns =
    "tableversion" ∷ "prepare_queries" ∷ "prepare_like_queries" ∷ "questionmarks"
    ∷ "questionmarks_force" ∷ "initial_values" ∷ "prepare_queries" ∷ "prepare_like_queries"
    ∷ "prepare_custom_get_queries" ∷ "prepare_custom_upd" ∷ "prepare_custom_del"
    ∷ "finalize_queries" ∷ "finalize_like_queries" ∷ "finalize_custom_get_queries"
    ∷ "finalize_custom_upd" ∷ "finalize_custom_del" ∷ "get_columns" ∷ "query_implementations"
    ∷ "query_like_implementations" ∷ "insert_binders" ∷ "insert_force_binders" ∷ "update_binders"
    ∷ "custom_get_implementations" ∷ "custom_upd_implementations" ∷ "custom_del_implementations"
    ∷ "table_proto_copy_funcs" ∷ "table_xml_copy_funcs" ∷ "table_create_fields" ∷ "index_creation"
    ∷ "get_subtable_implementations" ∷ "field_copies" ∷ "get_all_subtables" ∷ "insert_all_subtables"
    ∷ "insert_all_subtables_force" ∷ "set_db_subtables" ∷ "autoincr_rowid_fetch"
    ∷ "column_descriptors" ∷ "field_tostring_funcs" ∷ "tostring_fields"
    ∷ "const_field_default_decls" ∷ []

unfoldable pub table_names : TableDef → List Cmd
unfolding decimal name_fields
table_names td =
    news table_streams
    ++ puts "tablename" td.name
      ∷ say "tableversion" (decimal td.version)
      ∷ name_fields true true td.fields
    ++ pats ("update_fieldnames" ∷ "all_fieldnames" ∷ [])

unfoldable pub table_finish : SchemaDef → Marks → (t : ℕ) → TableDef → List Cmd
unfolding is_subtable table_protobuf
table_finish sd marks t td =
    (if table_protobuf td.fields && not (is_empty sd.package_name)
      then pats ("proto_copy_to" ∷ "proto_merge_from" ∷ "proto_copy_init_subtables" ∷ [])
        ++ out "TABLE_proto_copy_funcs" "table_proto_copy_funcs" ∷ []
      else [])
    ++ pats ("xml_copy_to" ∷ "xml_decoder_functions" ∷ "xml_decoder_initializers" ∷ [])
    ++ out "TABLE_xml_copy_funcs" "table_xml_copy_funcs"
      ∷ copy (codes "table_create_constraints") (codes "table_create_fields")
      ∷ pats table_patterns
    ++ puts "is_subtable" (if is_subtable marks t then codes "true" else codes "false")
      ∷ out "CLASS_ALL_TABLES_export_a_table" "table_export_all"
      ∷ (if is_subtable marks t
          then []
          else out "CLASS_ALL_TABLES_import_a_table" "table_import_all" ∷ [])
    ++ out "TABLE_CLASS_IMPL" "out"
      ∷ out "CLASS_ALL_TABLES_create_a_table" "create_all_tables"
      ∷ out "CLASS_ALL_TABLES_drop_a_table" "drop_all_tables"
      ∷ []

unfoldable pub table_commands : SchemaDef → Marks → (t : ℕ) → TableDef → List Cmd
unfolding table_names field_loop table_protobuf customs_loop table_finish
table_commands sd marks t td =
    table_names td
    ++ news ("select_column_index" ∷ "update_column_index" ∷ [])
    ++ field_loop sd marks t 0 td.constraints (table_protobuf td.fields) true true 1 1 td.fields
    ++ customs_loop td td.customs
    ++ table_finish sd marks t td
