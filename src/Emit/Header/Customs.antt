-- ===== src/Emit/Header/Customs.antt =====
-- emit_header.cc: the CUSTOM-GET, CUSTOM-UPD, CUSTOM-UPDBY and CUSTOM-DEL of a table.
use sqlite3gen.Base.{List, [], ◌∷◌, ◌++◌}
use sqlite3gen.Base.Text.{Text, codes}
use sqlite3gen.Schema.{get, upd, updby, del, CustomGetUpd}
use sqlite3gen.Emit.Machine.{Cmd, puts, say, out}
use sqlite3gen.Emit.Common.{make_custom_get_arglist}

unfoldable pub header_where : Text → Text
header_where query = codes "// WHERE " ++ query ++ codes "\n"

unfoldable pub header_custom : CustomGetUpd → List Cmd
unfolding make_custom_get_arglist header_where
header_custom cust = puts "customname" cust.name ∷ elim cust.type [
  | get ↦
      out "TABLE_CLASS_stmt_custom_get_decl" "stmt_custom_get_decls"
      ∷ puts "type_and_vX" (make_custom_get_arglist cust.typelist)
      ∷ say "table_custom_get_method_protos" (header_where cust.query)
      ∷ out "TABLE_CLASS_table_custom_get_method_protos" "table_custom_get_method_protos"
      ∷ []
  | upd ↦
      out "TABLE_CLASS_stmt_custom_upd_decl" "stmt_custom_upd_decls"
      ∷ out "TABLE_CLASS_table_custom_upd_method_protos" "table_custom_upd_method_protos"
      ∷ []
  | updby ↦
      out "TABLE_CLASS_stmt_custom_updby_decl" "stmt_custom_upd_decls"
      ∷ puts "type_and_vX" (make_custom_get_arglist cust.typelist)
      ∷ say "table_custom_upd_method_protos" (header_where cust.query)
      ∷ out "TABLE_CLASS_table_custom_updby_method_protos" "table_custom_upd_method_protos"
      ∷ []
  | del ↦
      out "TABLE_CLASS_stmt_custom_del_decl" "stmt_custom_del_decls"
      ∷ puts "type_and_vX" (make_custom_get_arglist cust.typelist)
      ∷ say "table_custom_del_method_protos" (header_where cust.query)
      ∷ out "TABLE_CLASS_table_custom_del_method_protos" "table_custom_del_method_protos"
      ∷ []
]

unfoldable pub header_customs : List CustomGetUpd → List Cmd
unfolding header_custom
header_customs [] = []
header_customs (cust ∷ custs) = header_custom cust ++ header_customs custs
