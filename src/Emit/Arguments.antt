-- ===== src/Emit/Arguments.antt =====
-- emit_header.cc, emit_source.cc: the arguments of a CUSTOM-SELECT in the header and in the source.
use sqlite3gen.Base.{ℕ, suc, ◌≡◌, refl, true, List, [], ◌∷◌, ◌++◌}
use sqlite3gen.Base.Text.{Text, codes, text_eq}
use sqlite3gen.Base.Numbers.{decimal}
use sqlite3gen.Base.Result.{ok}
use sqlite3gen.Schema.{
  TypeDef, type_int, type_int64, type_text, type_blob, type_double, type_bool, type_enum,
  type_subtable, TypeDefValue,
}
use sqlite3gen.Emit.Types.{typedef_to_ctype, typedef_to_sqlite_bind}
use sqlite3gen.Emit.Machine.{Cmd, say, Piece, Emitter, exec}
use sqlite3gen.Emit.Words.{Sends, append-Sends, Sends-quiet, quiet_all, sent}
use sqlite3gen.Emit.Common.{arglist, switch}
use sqlite3gen.Emit.Header.Selects.{header_arguments}
use sqlite3gen.Emit.Source.Field.{set_index}
use sqlite3gen.Emit.Source.Selects.{select_argument, select_arguments}

abbrev pub args : Text
args = codes "queryargs"

-- The statements for the text of one argument, and the comma behind it.
abbrev argument : ℕ → TypeDefValue → List TypeDefValue → List Cmd
argument n t ts =
    say "queryargs" (typedef_to_ctype t true [] ++ codes " v" ++ decimal n)
    ∷ elim ts [ [] ↦ [] | t' ∷ ts' ↦ say "queryargs" (codes ", ") ∷ [] ]

argument-Sends :
    (n : ℕ) (t : TypeDefValue) (ts : List TypeDefValue)
    → Sends args (argument n t ts) (
        typedef_to_ctype t true []
        ++ codes " v"
        ++ decimal n
        ++ (elim ts [ [] ↦ [] | t' ∷ ts' ↦ codes ", " ]))
unfolding text_eq
argument-Sends n t [] = (refl, refl)
argument-Sends n t (t' ∷ ts) = (refl, refl)

header_arguments-Sends :
    (n : ℕ) (ts : List TypeDefValue) → Sends args (header_arguments n ts) (arglist ts n)
unfolding header_arguments arglist
header_arguments-Sends n [] = (refl, refl)
header_arguments-Sends n (t ∷ ts) =
    append-Sends args (argument n t ts) (header_arguments (suc n) ts) _ _ (argument-Sends n t ts)
      (header_arguments-Sends (suc n) ts)

select_argument-quiet : (n : ℕ) (t : TypeDef) → quiet_all args (select_argument n t) ≡ true
unfolding select_argument set_index typedef_to_sqlite_bind switch text_eq
select_argument-quiet n type_int = refl
select_argument-quiet n type_int64 = refl
select_argument-quiet n type_text = refl
select_argument-quiet n type_blob = refl
select_argument-quiet n type_double = refl
select_argument-quiet n type_bool = refl
select_argument-quiet n type_enum = refl
select_argument-quiet n type_subtable = refl

select_arguments-Sends :
    (n : ℕ) (ts : List TypeDefValue) → Sends args (select_arguments n ts) (arglist ts n)
unfolding select_arguments arglist
select_arguments-Sends n [] = (refl, refl)
select_arguments-Sends n (t ∷ ts) =
    append-Sends args (argument n t ts ++ select_argument n t.type) (select_arguments (suc n) ts) _
      _
      (Sends-quiet args (argument n t ts) (select_argument n t.type) _ (argument-Sends n t ts)
        (select_argument-quiet n t.type))
      (select_arguments-Sends (suc n) ts)

-- The header and the source of a CUSTOM-SELECT get the same text of arguments, which is the one
-- that make_custom_get_arglist writes for a list that is not empty, where neither run stops with
-- an error and the stream queryargs is empty before both.
pub header_arguments_lem :
    (templates : Text → List Piece) (ts : List TypeDefValue) (h h' s s' : Emitter)
    → exec templates (header_arguments 1 ts) h ≡ ok h'
    → exec templates (select_arguments 1 ts) s ≡ ok s'
    → h.streams args ≡ []
    → s.streams args ≡ []
    → (h'.streams args ≡ arglist ts 1) × (s'.streams args ≡ arglist ts 1)
header_arguments_lem templates ts h h' s s' header source h_empty s_empty = (
  sent templates _ h h' args _ header h_empty (header_arguments-Sends 1 ts),
  sent templates _ s s' args _ source s_empty (select_arguments-Sends 1 ts),
)
