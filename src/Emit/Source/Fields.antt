-- ===== src/Emit/Source/Fields.antt =====
-- emit_source.cc: the two walks of the fields of a table.
use sqlite3gen.Base.{
  ℕ, suc, Bool, false, not, ◌&&◌, ◌||◌, Option, List, [], ◌∷◌, ◌++◌, if◌then◌else◌,
}
use sqlite3gen.Base.Text.{Text, codes}
use sqlite3gen.Schema.{FieldDef, SchemaDef}
use sqlite3gen.Schema.Validate.{Marks}
use sqlite3gen.Emit.Machine.{Cmd, say}
use sqlite3gen.Emit.Common.{is_sub, has_protoid, subtable_field}
use sqlite3gen.Emit.Source.Field.{
  field_start, subtable_rest, sqlite_names, set_index, question_marks, create_column,
}
use sqlite3gen.Emit.Source.Binders.{
  query_commands, proto_commands, tostring_commands, binder_commands, descriptor_commands,
}

-- `do_protobuf` after the first walk.
unfoldable pub table_protobuf : List FieldDef → Bool
table_protobuf [] = false
table_protobuf (fd ∷ fds) = (not (is_sub fd.type.type) && has_protoid fd) || table_protobuf fds

unfoldable pub select_name : FieldDef → (first_select : Bool) → List Cmd
select_name fd first_select =
    (if first_select then [] else say "all_fieldnames" (codes ", ") ∷ [])
    ++ say "all_fieldnames" fd.name ∷ []

unfoldable pub update_name : FieldDef → (first_update : Bool) → List Cmd
update_name fd first_update =
    if fd.attrs.auto_increment
    then []
    else (if first_update then [] else say "update_fieldnames" (codes ", ") ∷ [])
      ++ say "update_fieldnames" fd.name ∷ []

unfoldable pub name_field : FieldDef → (first_select first_update : Bool) → List Cmd
unfolding select_name update_name
name_field fd first_select first_update =
    if is_sub fd.type.type then [] else select_name fd first_select ++ update_name fd first_update

unfoldable pub name_fields : (first_select first_update : Bool) → List FieldDef → List Cmd
unfolding name_field
name_fields first_select first_update [] = []
name_fields first_select first_update (fd ∷ fds) =
    name_field fd first_select first_update
    ++ name_fields (first_select && is_sub fd.type.type)
        (first_update && (is_sub fd.type.type || fd.attrs.auto_increment)) fds

-- The rest for a field that is a column: the lists, then the code.
unfoldable pub column_lists :
    FieldDef → (first_select first_update : Bool) → (select_column update_column : ℕ) → List Cmd
unfolding sqlite_names set_index question_marks create_column
column_lists fd first_select first_update select_column update_column =
    sqlite_names fd.type.type
    ++ set_index "select_column_index" select_column
    ++ question_marks fd first_update update_column
    ++ create_column fd first_select

unfoldable pub column_code : FieldDef → (do_protobuf : Bool) → List Cmd
unfolding query_commands proto_commands tostring_commands binder_commands descriptor_commands
column_code fd do_protobuf =
    query_commands fd
    ++ proto_commands fd do_protobuf
    ++ tostring_commands fd.type.type
    ++ binder_commands fd
    ++ descriptor_commands fd

unfoldable pub column_rest :
    FieldDef
    → (do_protobuf first_select first_update : Bool) → (select_column update_column : ℕ) → List Cmd
unfolding column_lists column_code
column_rest fd do_protobuf first_select first_update select_column update_column =
    column_lists fd first_select first_update select_column update_column
    ++ column_code fd do_protobuf

unfoldable pub field_commands :
    FieldDef
    → (link : Option FieldDef) → (do_protobuf first_select first_update : Bool)
    → (select_column update_column : ℕ) → List Cmd
unfolding field_start subtable_rest column_rest
field_commands fd link do_protobuf first_select first_update select_column update_column =
    field_start fd
    ++ (if is_sub fd.type.type
        then subtable_rest link
        else column_rest fd do_protobuf first_select first_update select_column update_column)

-- The second walk, from position `i` of table `t` on, and the index that follows it.
unfoldable pub field_loop :
    SchemaDef
    → Marks
    → (t i : ℕ) → (constraints : Text) → (do_protobuf first_select first_update : Bool)
    → (select_column update_column : ℕ) → List FieldDef
    → List Cmd
unfolding field_commands subtable_field set_index
field_loop sd marks t i constraints p first_select first_update select_column update_column [] =
    say "table_create_constraints" constraints ∷ set_index "update_column_index" update_column
field_loop sd marks t i constraints p first_select first_update select_column update_column
      (fd ∷ fds) =
    field_commands fd (subtable_field sd marks t i) p first_select first_update select_column
      update_column
    ++ field_loop sd marks t (suc i) constraints p (first_select && is_sub fd.type.type)
        (first_update && (is_sub fd.type.type || fd.attrs.auto_increment))
        (if is_sub fd.type.type then select_column else suc select_column)
        (if is_sub fd.type.type || fd.attrs.auto_increment
          then update_column
          else suc update_column)
        fds
