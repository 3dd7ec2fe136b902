-- ===== src/Emit/Source/Calm.antt =====
-- emit_source.cc: the statements for a field that have nothing to do with the question marks.
use sqlite3gen.Base.{
  ◌≡◌, refl, ◌∙◌, Bool, true, false, ◌&&◌, Option, none, some, List, ◌++◌, arith, if◌then◌else◌,
  Bool-cases, inl, inr,
}
use Prim.Native.String.{String}
use sqlite3gen.Base.Text.{Text, codes, text_eq}
use sqlite3gen.Schema.{
  TypeDef, type_int, type_int64, type_text, type_blob, type_double, type_bool, type_enum,
  type_subtable, FieldDef,
}
use sqlite3gen.Emit.Types.{
  typedef_to_sqlite_column, typedef_to_sqlite_bind, typedef_to_sqlite_macro,
}
use sqlite3gen.Emit.Machine.{Cmd}
use sqlite3gen.Emit.Words.{quiet_all, quiet_all-append}
use sqlite3gen.Emit.Common.{has_protoid, get_initial_value, Switch, switch}
use sqlite3gen.Emit.Source.Field.{
  copy_to_xml, copy_from_xml, initial_values, field_start, subtable_rest, sqlite_names,
}
use sqlite3gen.Emit.Source.Fields.{column_code}
use sqlite3gen.Emit.Source.Binders.{
  query_binds, query_part, likequery_part, index_part, copies_to, copies_from, query_commands,
  proto_commands, tostring_commands, bind_column, binder_commands, descriptor_commands,
}

abbrev pub marks : Text
marks = codes "questionmarks"

abbrev pub marks_force : Text
marks_force = codes "questionmarks_force"

abbrev pub Calm : List Cmd → Type 0
Calm cs = (quiet_all marks cs ≡ true) × (quiet_all marks_force cs ≡ true)

pub append-Calm : (cs ds : List Cmd) → Calm cs → Calm ds → Calm (cs ++ ds)
append-Calm cs ds (a, b) (c, d) = (
  quiet_all-append marks cs ds ∙ ground (arith, a, c),
  quiet_all-append marks_force cs ds ∙ ground (arith, b, d),
)

pub if-Calm : (b : Bool) (cs ds : List Cmd) → Calm cs → Calm ds → Calm (if b then cs else ds)
if-Calm true cs ds h g = h
if-Calm false cs ds h g = g

copy_to_xml-Calm : (t : TypeDef) → Calm (copy_to_xml t)
unfolding copy_to_xml text_eq
copy_to_xml-Calm type_int = (refl, refl)
copy_to_xml-Calm type_int64 = (refl, refl)
copy_to_xml-Calm type_text = (refl, refl)
copy_to_xml-Calm type_blob = (refl, refl)
copy_to_xml-Calm type_double = (refl, refl)
copy_to_xml-Calm type_bool = (refl, refl)
copy_to_xml-Calm type_enum = (refl, refl)
copy_to_xml-Calm type_subtable = (refl, refl)

copy_from_xml-Calm : (t : TypeDef) → Calm (copy_from_xml t)
unfolding copy_from_xml text_eq
copy_from_xml-Calm type_int = (refl, refl)
copy_from_xml-Calm type_int64 = (refl, refl)
copy_from_xml-Calm type_text = (refl, refl)
copy_from_xml-Calm type_blob = (refl, refl)
copy_from_xml-Calm type_double = (refl, refl)
copy_from_xml-Calm type_bool = (refl, refl)
copy_from_xml-Calm type_enum = (refl, refl)
copy_from_xml-Calm type_subtable = (refl, refl)

initial_values-Calm : (fd : FieldDef) → Calm (initial_values fd)
unfolding initial_values text_eq
initial_values-Calm fd = elim (Bool-cases (get_initial_value fd).1) [
  | inl e ↦ rw e (refl, refl)
  | inr e ↦ rw e (refl, refl)
]

pub field_start-Calm : (fd : FieldDef) → Calm (field_start fd)
unfolding field_start text_eq
field_start-Calm fd =
    let xml_to = copy_to_xml fd.type.type in
    let xml_from = copy_from_xml fd.type.type in
    append-Calm (xml_to ++ initial_values fd ++ xml_from) _
      (append-Calm (xml_to ++ initial_values fd) xml_from
        (append-Calm xml_to (initial_values fd) (copy_to_xml-Calm _) (initial_values-Calm fd))
        (copy_from_xml-Calm _))
      (refl, refl)

pub subtable_rest-Calm : (link : Option FieldDef) → Calm (subtable_rest link)
unfolding subtable_rest text_eq
subtable_rest-Calm none = (refl, refl)
subtable_rest-Calm (some fd) = (refl, refl)

pub sqlite_names-Calm : (t : TypeDef) → Calm (sqlite_names t)
unfolding sqlite_names typedef_to_sqlite_column typedef_to_sqlite_bind typedef_to_sqlite_macro
sqlite_names-Calm type_int = (refl, refl)
sqlite_names-Calm type_int64 = (refl, refl)
sqlite_names-Calm type_text = (refl, refl)
sqlite_names-Calm type_blob = (refl, refl)
sqlite_names-Calm type_double = (refl, refl)
sqlite_names-Calm type_bool = (refl, refl)
sqlite_names-Calm type_enum = (refl, refl)
sqlite_names-Calm type_subtable = (refl, refl)

-- A switch into a stream with another name.
switch-Calm :
    (t : TypeDef) (s : Switch) (stream : String)
    → text_eq (codes stream) marks ≡ false
    → text_eq (codes stream) marks_force ≡ false
    → Calm s.subtable
    → Calm (switch t s stream)
unfolding switch
switch-Calm type_int s stream h g c = (rw h refl, rw g refl)
switch-Calm type_int64 s stream h g c = (rw h refl, rw g refl)
switch-Calm type_text s stream h g c = (rw h refl, rw g refl)
switch-Calm type_blob s stream h g c = (rw h refl, rw g refl)
switch-Calm type_double s stream h g c = (rw h refl, rw g refl)
switch-Calm type_bool s stream h g c = (rw h refl, rw g refl)
switch-Calm type_enum s stream h g c = (rw h refl, rw g refl)
switch-Calm type_subtable s stream h g c = c

query_part-Calm : (fd : FieldDef) → Calm (query_part fd)
unfolding query_part text_eq
query_part-Calm fd = elim (Bool-cases fd.attrs.query) [
  | inl q ↦ rw q (
      append-Calm (switch fd.type.type query_binds "query_bind") _
        (switch-Calm fd.type.type query_binds "query_bind" refl refl (refl, refl)) (refl, refl))
  | inr q ↦ rw q (refl, refl)
]

likequery_part-Calm : (fd : FieldDef) → Calm (likequery_part fd)
unfolding likequery_part text_eq
likequery_part-Calm fd = elim (Bool-cases fd.attrs.likequery) [
  | inl q ↦ rw q (refl, refl)
  | inr q ↦ rw q (refl, refl)
]

index_part-Calm : (fd : FieldDef) → Calm (index_part fd)
unfolding index_part text_eq
index_part-Calm fd = elim (Bool-cases fd.attrs.index) [
  | inl q ↦ rw q (refl, refl)
  | inr q ↦ rw q (refl, refl)
]

query_commands-Calm : (fd : FieldDef) → Calm (query_commands fd)
unfolding query_commands
query_commands-Calm fd =
    append-Calm (query_part fd ++ likequery_part fd) (index_part fd)
      (append-Calm (query_part fd) (likequery_part fd) (query_part-Calm fd)
        (likequery_part-Calm fd))
      (index_part-Calm fd)

proto_commands-Calm : (fd : FieldDef) (p : Bool) → Calm (proto_commands fd p)
unfolding proto_commands text_eq
proto_commands-Calm fd p = elim (Bool-cases (p && has_protoid fd)) [
  | inl e ↦ rw e (
      append-Calm (switch fd.type.type copies_to "proto_copy_to") _
        (switch-Calm fd.type.type copies_to "proto_copy_to" refl refl (refl, refl))
        (switch-Calm fd.type.type copies_from "proto_merge_from" refl refl (refl, refl)))
  | inr e ↦ rw e (refl, refl)
]

tostring_commands-Calm : (t : TypeDef) → Calm (tostring_commands t)
unfolding tostring_commands text_eq
tostring_commands-Calm type_int = (refl, refl)
tostring_commands-Calm type_int64 = (refl, refl)
tostring_commands-Calm type_text = (refl, refl)
tostring_commands-Calm type_blob = (refl, refl)
tostring_commands-Calm type_double = (refl, refl)
tostring_commands-Calm type_bool = (refl, refl)
tostring_commands-Calm type_enum = (refl, refl)
tostring_commands-Calm type_subtable = (refl, refl)

bind_column-Calm : (fd : FieldDef) (binder column : String) → Calm (bind_column fd binder column)
unfolding bind_column text_eq
bind_column-Calm fd binder column = elim (Bool-cases fd.attrs.auto_increment) [
  | inl a ↦ rw a (refl, refl)
  | inr a ↦ rw a (refl, refl)
]

binder_commands-Calm : (fd : FieldDef) (t : TypeDef) → fd.type.type ≡ t → Calm (binder_commands fd)
unfolding binder_commands
binder_commands-Calm fd type_int e =
    rw e (bind_column-Calm fd "TABLE_insert_binder_pod" "TABLE_get_column_pod")
binder_commands-Calm fd type_int64 e =
    rw e (bind_column-Calm fd "TABLE_insert_binder_pod" "TABLE_get_column_pod")
binder_commands-Calm fd type_text e =
    rw e (bind_column-Calm fd "TABLE_insert_binder_string" "TABLE_get_column_string")
binder_commands-Calm fd type_blob e =
    rw e (bind_column-Calm fd "TABLE_insert_binder_string" "TABLE_get_column_string")
binder_commands-Calm fd type_double e =
    rw e (bind_column-Calm fd "TABLE_insert_binder_pod" "TABLE_get_column_pod")
binder_commands-Calm fd type_bool e =
    rw e (bind_column-Calm fd "TABLE_insert_binder_bool" "TABLE_get_column_bool")
binder_commands-Calm fd type_enum e =
    rw e (bind_column-Calm fd "TABLE_insert_binder_enum" "TABLE_get_column_enum")
binder_commands-Calm fd type_subtable e = rw e (refl, refl)

descriptor_commands-Calm : (fd : FieldDef) → Calm (descriptor_commands fd)
unfolding descriptor_commands text_eq
descriptor_commands-Calm fd = (refl, refl)

pub column_code-Calm : (fd : FieldDef) (p : Bool) → Calm (column_code fd p)
unfolding column_code
column_code-Calm fd p =
    let a = query_commands fd in
    let b = proto_commands fd p in
    let c = tostring_commands fd.type.type in
    let d = binder_commands fd in
    append-Calm (a ++ b ++ c ++ d) (descriptor_commands fd)
      (append-Calm (a ++ b ++ c) d
        (append-Calm (a ++ b) c
          (append-Calm a b (query_commands-Calm fd) (proto_commands-Calm fd p))
          (tostring_commands-Calm _))
        (binder_commands-Calm fd _ refl))
      (descriptor_commands-Calm fd)
