-- ===== src/Emit/Source/Customs.antt =====
-- emit_source.cc: the CUSTOM-GET, CUSTOM-UPD, CUSTOM-UPDBY and CUSTOM-DEL of a table.
use Prim.Native.String.{String}
use sqlite3gen.Base.{
  ℕ, suc, Bool, true, false, Option, none, some, List, [], ◌∷◌, ◌++◌, ◌+◌, length, if◌then◌else◌,
}
use sqlite3gen.Base.Text.{Text, codes}
use sqlite3gen.Schema.{get, upd, updby, del, TypeDefValue, CustomGetUpd, FieldDef, TableDef}
use sqlite3gen.Emit.Types.{typedef_to_sqlite_bind, find_field, null_pointer}
use sqlite3gen.Emit.Machine.{Cmd, stop, puts, puts_or, say, new, out, pat, news, pats}
use sqlite3gen.Emit.Common.{Switch, switch, no_subtable, make_custom_get_arglist}
use sqlite3gen.Emit.Source.Field.{set_index}

-- The binders of the arguments from the `count`-th on.
unfoldable pub bind_arguments :
    Switch → (stream : String) → (count : ℕ) → List TypeDefValue → List Cmd
unfolding switch set_index typedef_to_sqlite_bind
bind_arguments s stream count [] = []
bind_arguments s stream count (t ∷ ts) =
    set_index "arg_index" count
    ++ puts_or "sqlite_bind_func" (typedef_to_sqlite_bind t.type)
    ++ switch t.type s stream
    ++ bind_arguments s stream (suc count) ts

abbrev pub get_binders : Switch
get_binders = record {
  pod = "TABLE_custom_get_binder_pod";
  string = "TABLE_custom_get_binder_string";
  bool = "TABLE_custom_get_binder_bool";
  enum = "TABLE_custom_get_binder_enum";
  subtable = no_subtable "subtable custom get binder";
}

abbrev pub del_binders : Switch
del_binders = record {
  pod = "TABLE_custom_del_binder_pod";
  string = "TABLE_custom_del_binder_string";
  bool = "TABLE_custom_del_binder_bool";
  enum = "TABLE_custom_del_binder_enum";
  subtable = no_subtable "subtable custom del binder";
}

unfoldable pub custom_get : CustomGetUpd → List Cmd
unfolding bind_arguments make_custom_get_arglist
custom_get cust =
    new "custom_get_binders"
      ∷ puts "querystring" cust.query
      ∷ out "TABLE_prepare_custom_get_query" "prepare_custom_get_queries"
      ∷ out "TABLE_finalize_custom_get_query" "finalize_custom_get_queries"
      ∷ bind_arguments get_binders "custom_get_binders" 1 cust.typelist
    ++ pat "custom_get_binders"
      ∷ puts "type_and_vX" (make_custom_get_arglist cust.typelist)
      ∷ out "TABLE_custom_get_implementation" "custom_get_implementations"
      ∷ []

unfoldable pub custom_del : CustomGetUpd → List Cmd
unfolding bind_arguments make_custom_get_arglist
custom_del cust =
    new "custom_del_binders"
      ∷ puts "querystring" cust.query
      ∷ out "TABLE_prepare_custom_del" "prepare_custom_del"
      ∷ out "TABLE_finalize_custom_del" "finalize_custom_del"
      ∷ bind_arguments del_binders "custom_del_binders" 1 cust.typelist
    ++ pat "custom_del_binders"
      ∷ puts "type_and_vX" (make_custom_get_arglist cust.typelist)
      ∷ out "TABLE_custom_del_implementation" "custom_del_implementations"
      ∷ []

-- The statements of one updated column, behind its name and its question mark.
unfoldable pub bind_word : Option (ℕ × FieldDef) → (is_updby : Bool) → (counter : ℕ) → List Cmd
unfolding switch set_index typedef_to_sqlite_bind
bind_word none is_updby counter = stop (null_pointer (codes "fd")) ∷ []
bind_word (some (i, fd)) is_updby counter =
    set_index "fieldindex" counter
    ++ puts "fieldname" fd.name ∷ puts_or "sqlite_bind_func" (typedef_to_sqlite_bind fd.type.type)
    ++ puts "by" (if is_updby then codes "update_by" else codes "update")
      ∷ switch fd.type.type
          (record {
            pod = "TABLE_custom_upd_binder_pod";
            string = "TABLE_custom_upd_binder_string";
            bool = "TABLE_custom_upd_binder_bool";
            enum = "TABLE_custom_upd_binder_enum";
            subtable = no_subtable "subtable custom upd binder";
          })
          "custom_update_binders"

unfoldable pub bind_words : TableDef → (is_updby : Bool) → (counter : ℕ) → List Text → List Cmd
unfolding bind_word find_field
bind_words td is_updby counter [] = []
bind_words td is_updby counter (w ∷ ws) =
    say "custom_fieldlist" w ∷ say "custom_questionmarks" (codes "?") ∷ (elim ws [
      | [] ↦ []
      | w' ∷ ws' ↦ say "custom_fieldlist" (codes ", ") ∷ say "custom_questionmarks" (codes ",") ∷ []
    ])
    ++ bind_word (find_field td w) is_updby counter
    ++ bind_words td is_updby (suc counter) ws

-- The arguments of the condition go on from `counter`, those of the call from `fieldnumber`.
unfoldable pub bind_by : (counter fieldnumber : ℕ) → List TypeDefValue → List Cmd
unfolding switch set_index typedef_to_sqlite_bind
bind_by counter fieldnumber [] = []
bind_by counter fieldnumber (t ∷ ts) =
    set_index "arg_index" counter
    ++ set_index "fieldindex" fieldnumber
    ++ puts_or "sqlite_bind_func" (typedef_to_sqlite_bind t.type)
    ++ switch t.type
        (record {
          pod = "TABLE_custom_updby_binder_pod";
          string = "TABLE_custom_updby_binder_string";
          bool = "TABLE_custom_updby_binder_bool";
          enum = "TABLE_custom_updby_binder_enum";
          subtable = no_subtable "subtable custom upd binder";
        })
        "custom_update_binders"
    ++ bind_by (suc counter) (suc fieldnumber) ts

unfoldable pub custom_upd : TableDef → CustomGetUpd → (is_updby : Bool) → List Cmd
unfolding bind_words bind_by make_custom_get_arglist set_index
custom_upd td cust is_updby =
    let counter = 1 + length cust.wordlist in
    news ("custom_update_binders" ∷ "custom_fieldlist" ∷ "custom_questionmarks" ∷ [])
    ++ (if is_updby
        then out "TABLE_finalize_custom_updby" "finalize_custom_upd"
        else out "TABLE_finalize_custom_upd" "finalize_custom_upd")
      ∷ bind_words td is_updby 1 cust.wordlist
    ++ pats ("custom_fieldlist" ∷ "custom_questionmarks" ∷ [])
    ++ (if is_updby
        then out "TABLE_prepare_custom_updby" "prepare_custom_upd"
        else out "TABLE_prepare_custom_upd" "prepare_custom_upd")
      ∷ set_index "fieldindex" counter
    ++ (if is_updby
        then puts "type_and_vX" (make_custom_get_arglist cust.typelist)
          ∷ puts "querystring" cust.query
          ∷ bind_by counter 1 cust.typelist
        else [])
    ++ pat "custom_update_binders"
      ∷ (if is_updby
          then out "TABLE_custom_updby_implementation" "custom_upd_implementations"
          else out "TABLE_custom_upd_implementation" "custom_upd_implementations")
      ∷ []

unfoldable pub custom_commands : TableDef → CustomGetUpd → List Cmd
unfolding custom_get custom_upd custom_del
custom_commands td cust = puts "customname" cust.name ∷ elim cust.type [
  | get ↦ custom_get cust
  | upd ↦ custom_upd td cust false
  | updby ↦ custom_upd td cust true
  | del ↦ custom_del cust
]

unfoldable pub customs_loop : TableDef → List CustomGetUpd → List Cmd
unfolding custom_commands
customs_loop td [] = []
customs_loop td (cust ∷ custs) = custom_commands td cust ++ customs_loop td custs
