-- ===== src/Emit/Proto.antt =====
-- emit_proto.cc. The lines that it prints on the terminal are left out.
use sqlite3gen.Base.{Bool, List, [], ◌∷◌, ◌++◌, if◌then◌else◌}
use sqlite3gen.Base.Text.{Text, codes}
use sqlite3gen.Base.Numbers.{decimal, show_int}
use sqlite3gen.Base.Result.{any}
use sqlite3gen.Schema.{
  type_int, type_int64, type_text, type_blob, type_double, type_bool, type_enum, type_subtable,
  FieldDef, TableDef, SchemaDef,
}
use sqlite3gen.Emit.Machine.{Cmd, puts, say, new, out, pat}
use sqlite3gen.Emit.Common.{open_file, is_sub, has_protoid}

unfoldable pub proto_type : FieldDef → Text
proto_type fd = elim fd.type.type [
  | type_int ↦ codes "int32"
  | type_int64 ↦ codes "int64"
  | type_double ↦ codes "double"
  | type_text ↦ codes "string"
  | type_blob ↦ codes "bytes"
  | type_bool ↦ codes "bool"
  | type_enum ↦ fd.type.enum_name
  | type_subtable ↦ codes "TABLE_" ++ fd.name ++ codes "_m"
]

unfoldable pub proto_field : FieldDef → List Cmd
unfolding proto_type show_int
proto_field fd =
    if has_protoid fd
    then puts "fieldname" fd.name
      ∷ puts "optional_required"
          (if is_sub fd.type.type then codes "/*SUBTABLE*/ repeated" else codes "optional")
      ∷ puts "fieldtype" (proto_type fd)
      ∷ new "fieldnum"
      ∷ say "fieldnum" (show_int fd.attrs.protoid)
      ∷ pat "fieldnum"
      ∷ out "PROTO_protofield" "protofields"
      ∷ []
    else []

unfoldable pub proto_fields : List FieldDef → List Cmd
unfolding proto_field
proto_fields [] = []
proto_fields (fd ∷ fds) = proto_field fd ++ proto_fields fds

unfoldable pub proto_table : TableDef → List Cmd
unfolding proto_fields decimal
proto_table td =
    if any has_protoid td.fields
    then puts "tablename" (codes "TABLE_" ++ td.name)
        ∷ new "protofields"
        ∷ new "schema_version"
        ∷ say "schema_version" (decimal td.version)
        ∷ proto_fields td.fields
      ++ pat "protofields" ∷ pat "schema_version" ∷ out "PROTO_message" "out" ∷ []
    else []

unfoldable pub proto_tables : List TableDef → List Cmd
unfolding proto_table
proto_tables [] = []
proto_tables (td ∷ tds) = proto_table td ++ proto_tables tds

unfoldable pub emit_proto : (opened : Bool) → (fname : Text) → SchemaDef → List Cmd
unfolding open_file proto_tables
emit_proto opened fname schema =
    open_file opened fname
    ++ puts "package" schema.package_name
      ∷ puts "prototop_block" schema.prototop
      ∷ out "PROTO_TOP" "out"
      ∷ proto_tables schema.tables
    ++ say "out" schema.protobottom ∷ []
