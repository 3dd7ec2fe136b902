-- ===== src/Emit/Header.antt =====
-- emit_header.cc.
pub mod Fields
pub mod Customs
pub mod Selects
use sqlite3gen.Base.{ℕ, suc, Bool, List, [], ◌∷◌, ◌++◌, if◌then◌else◌}
use sqlite3gen.Base.Text.{Text, codes}
use sqlite3gen.Base.Numbers.{decimal}
use sqlite3gen.Base.Result.{any}
use sqlite3gen.Schema.{TableDef, SchemaDef}
use sqlite3gen.Schema.Validate.{Marks, SelectLinks, is_empty}
use sqlite3gen.Emit.Machine.{Cmd, puts, say, new, out, news, pats}
use sqlite3gen.Emit.Common.{open_file, has_protoid}
use sqlite3gen.Emit.Header.Fields.{header_fields}
use sqlite3gen.Emit.Header.Customs.{header_customs}
use sqlite3gen.Emit.Header.Selects.{header_selects}
use Prim.Native.String.{String}

-- The streams of a table, in the order of their declarations.
abbrev pub header_streams : List String
header_streams =
    "tableversion" ∷ "stmt_by_decls" ∷ "stmt_by_decls_like" ∷ "stmt_custom_get_decls"
    ∷ "stmt_custom_upd_decls" ∷ "stmt_custom_del_decls" ∷ "table_field_type_name_decls"
    ∷ "table_field_type_name_tostring_decls" ∷ "table_query_method_protos"
    ∷ "table_query_like_method_protos" ∷ "table_custom_get_method_protos"
    ∷ "table_custom_upd_method_protos" ∷ "table_custom_del_method_protos"
    ∷ "table_proto_copy_protos" ∷ "xml_decoder_protos" ∷ []

unfoldable pub header_table : SchemaDef → Marks → (t : ℕ) → TableDef → List Cmd
unfolding decimal header_fields header_customs
header_table sd marks t td =
    news header_streams
    ++ puts "tablename" td.name
      ∷ say "tableversion" (decimal td.version)
      ∷ header_fields sd marks t 0 td.fields
    ++ header_customs td.customs
    ++ (if any has_protoid td.fields
        then out "TABLE_CLASS_proto_copy_proto" "table_proto_copy_protos"
        else say "table_proto_copy_protos" (codes "   // no proto IDs for this table\n"))
      ∷ pats header_streams
    ++ out "TABLE_CLASS_DEFN" "out" ∷ []

-- The tables from position `t` on.
unfoldable pub header_tables : SchemaDef → Marks → (t : ℕ) → List TableDef → List Cmd
unfolding header_table
header_tables sd marks t [] = []
header_tables sd marks t (td ∷ tds) =
    header_table sd marks t td ++ header_tables sd marks (suc t) tds

unfoldable pub header_forwards : List TableDef → List Cmd
header_forwards [] = []
header_forwards (td ∷ tds) =
    say "class_forwards" (codes "class SQL_TABLE_" ++ td.name ++ codes "; // forward\n")
    ∷ header_forwards tds

unfoldable pub header_top : (proto_hdr_fname : Text) → SchemaDef → List Cmd
unfolding header_forwards
header_top proto_hdr_fname schema =
    puts "package" schema.package_name
      ∷ puts "headertop_block" schema.headertop
      ∷ puts "headerbottom_block" schema.headerbottom
      ∷ news ("protobuf_header" ∷ "class_forwards" ∷ "defines" ∷ [])
    ++ (if schema.option_xml then out "HEADER_define_xml" "defines" ∷ [] else [])
    ++ (if schema.option_protobuf then out "HEADER_define_protobuf" "defines" ∷ [] else [])
    ++ (if is_empty schema.package_name
        then []
        else say "protobuf_header" (codes "#include \"" ++ proto_hdr_fname ++ codes "\"") ∷ [])
    ++ header_forwards schema.tables
    ++ pats ("protobuf_header" ∷ "class_forwards" ∷ "defines" ∷ [])
    ++ out "HEADER_TOP" "out" ∷ []

unfoldable pub emit_header :
    (opened : Bool)
    → (fname proto_hdr_fname : Text) → SchemaDef
    → Marks
    → List SelectLinks
    → List Cmd
unfolding open_file header_top header_tables header_selects
emit_header opened fname proto_hdr_fname schema marks links =
    open_file opened fname
    ++ header_top proto_hdr_fname schema
    ++ header_tables schema marks 0 schema.tables
    ++ header_selects schema schema.custom_selects links
    ++ out "CLASS_ALL_TABELS_DEFN" "out" ∷ out "HEADER_BOTTOM" "out" ∷ []
