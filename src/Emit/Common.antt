-- ===== src/Emit/Common.antt =====
-- emit.h, emit_source.cc, emit_header.cc: what the emitters share.
use Prim.Native.String.{String}
use sqlite3gen.Base.{
  ℕ, suc, Bool, true, false, not, ◌&&◌, Option, none, some, List, [], ◌∷◌, ◌++◌, ◌==◌,
  if◌then◌else◌, get_elem?,
}
use sqlite3gen.Base.Text.{Text, codes}
use sqlite3gen.Base.Numbers.{decimal, show_int, is_minus_one, is_nonzero}
use sqlite3gen.Schema.{
  TypeDef, type_int, type_int64, type_text, type_blob, type_double, type_bool, type_enum,
  type_subtable, TypeDefValue, FieldDef, SchemaDef,
}
use sqlite3gen.Schema.Validate.{is_empty, Marks}
use sqlite3gen.Emit.Types.{typedef_to_ctype, dots_to_colons, cannot_open, invalid_subtable}
use sqlite3gen.Emit.Machine.{Cmd, stop, say, new, out}

-- The first statements of each emitter.
unfoldable pub open_file : (opened : Bool) → (fname : Text) → List Cmd
open_file opened fname =
    if opened
    then new "out"
      ∷ say "out" (codes "\n")
      ∷ say "out" (codes "///////////////////////////////////////////////////////////\n")
      ∷ say "out" (codes "// NOTE // NOTE // NOTE // NOTE // NOTE // NOTE // NOTE  //\n")
      ∷ say "out" (codes "//                                                       //\n")
      ∷ say "out" (codes "//       THIS FILE IS AUTOGENERATED BY sqlite3gen        //\n")
      ∷ say "out" (codes "// DO NOT EDIT THIS FILE, EDIT THE SOURCE AND REGENERATE //\n")
      ∷ say "out" (codes "//                                                       //\n")
      ∷ say "out" (codes "// NOTE // NOTE // NOTE // NOTE // NOTE // NOTE // NOTE  //\n")
      ∷ say "out" (codes "///////////////////////////////////////////////////////////\n")
      ∷ []
    else stop (cannot_open fname) ∷ []

abbrev pub is_sub : TypeDef → Bool
is_sub t = elim t [ type_subtable ↦ true | _ ↦ false ]

abbrev pub has_protoid : FieldDef → Bool
has_protoid fd = not (is_minus_one fd.attrs.protoid)

-- The arguments from the `count`-th on.
unfoldable pub arglist : List TypeDefValue → ℕ → Text
unfolding decimal typedef_to_ctype
arglist [] count = []
arglist (t ∷ ts) count =
    typedef_to_ctype t true []
    ++ codes " v"
    ++ decimal count
    ++ (elim ts [ [] ↦ [] | t' ∷ ts' ↦ codes ", " ])
    ++ arglist ts (suc count)

unfoldable pub make_custom_get_arglist : List TypeDefValue → Text
unfolding arglist
make_custom_get_arglist [] = codes "void"
make_custom_get_arglist (t ∷ ts) = arglist (t ∷ ts) 1

-- A list of words goes to a stream, the separator between two.
unfoldable pub list_words : String → (separator : Text) → List Text → List Cmd
list_words stream separator [] = []
list_words stream separator (w ∷ ws) =
    say stream w ∷ (elim ws [ [] ↦ [] | w' ∷ ws' ↦ say stream separator ∷ [] ])
    ++ list_words stream separator ws

unfoldable pub init_or_int : FieldDef → Text
unfolding show_int
init_or_int fd =
    if is_empty fd.attrs.init_string then show_int fd.attrs.init_int else fd.attrs.init_string

unfoldable pub init_or_bool : FieldDef → Text
init_or_bool fd =
    if is_empty fd.attrs.init_string
    then if is_nonzero fd.attrs.init_int then codes "true" else codes "false"
    else fd.attrs.init_string

-- The text, and `do_default_const_decl`.
unfoldable pub get_initial_value : FieldDef → Text × Bool
unfolding init_or_int init_or_bool dots_to_colons
get_initial_value fd = elim fd.type.type [
  | type_int ↦ (codes " = " ++ init_or_int fd, false)
  | type_int64 ↦ (codes " = " ++ init_or_int fd, false)
  | type_double ↦ (
    codes " = "
        ++ (if is_empty fd.attrs.init_string then fd.attrs.init_double else fd.attrs.init_string),
    true,
  )
  | type_text ↦ (codes " = \"" ++ fd.attrs.init_string ++ codes "\"", true)
  | type_blob ↦ (codes ".clear()", false)
  | type_bool ↦ (codes " = " ++ init_or_bool fd, false)
  | type_enum ↦ (codes " = " ++ dots_to_colons fd.attrs.init_string, false)
  | type_subtable ↦ (codes ".clear()", false)
]

-- The templates of a `switch` on a type, and its statement for a subtable.
pub record Switch : Type 0 where
  pub pod : String
  pub string : String
  pub bool : String
  pub enum : String
  pub subtable : List Cmd

unfoldable pub switch : TypeDef → Switch → (stream : String) → List Cmd
switch t s stream = elim t [
  | type_int ↦ out s.pod stream ∷ []
  | type_int64 ↦ out s.pod stream ∷ []
  | type_double ↦ out s.pod stream ∷ []
  | type_text ↦ out s.string stream ∷ []
  | type_blob ↦ out s.string stream ∷ []
  | type_bool ↦ out s.bool stream ∷ []
  | type_enum ↦ out s.enum stream ∷ []
  | type_subtable ↦ s.subtable
]

-- `exit(1)` where a subtable should not come.
abbrev pub no_subtable : String → List Cmd
no_subtable place = stop (invalid_subtable (codes place)) ∷ []

-- The targets of pointers: the field of a table, and `subtable_field` of a field.
abbrev pub field_at : SchemaDef → ℕ → ℕ → Option FieldDef
field_at sd t f = elim (get_elem? sd.tables t) [ none ↦ none | some tb ↦ get_elem? tb.fields f ]

unfoldable pub subtable_field : SchemaDef → Marks → (table field : ℕ) → Option FieldDef
subtable_field sd [] t f = none
subtable_field sd (l ∷ ls) t f =
    let rest = subtable_field sd ls t f in
    if (l.table == t) && (l.field == f) then field_at sd l.subtable_table l.subtable_field else rest
