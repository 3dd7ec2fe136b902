-- ===== src/Emit/Source/QuestionMarks.antt =====
-- emit_source.cc: the question marks of the INSERT statements.
use sqlite3gen.Base.{
  append_nil, ℕ, suc, ◌≡◌, refl, Bool, true, false, ◌&&◌, ◌||◌, Option, List, [], ◌∷◌, ◌++◌,
  if◌then◌else◌, Bool-cases, inl, inr, map, subst,
}
use sqlite3gen.Base.Text.{Text, codes, text_eq}
use sqlite3gen.Schema.{
  TypeDef, type_int, type_int64, type_text, type_blob, type_double, type_bool, type_enum,
  type_subtable, FieldDef, SchemaDef,
}
use sqlite3gen.Schema.Validate.{is_empty, Marks}
use sqlite3gen.Emit.Machine.{Cmd, say}
use sqlite3gen.Emit.Types.{typedef_to_sqlite_create_type}
use sqlite3gen.Emit.Words.{Sends, Sends-quiet, quiet-Sends, append-Sends, nothing-Sends}
use sqlite3gen.Emit.Common.{is_sub, subtable_field}
use sqlite3gen.Emit.Source.Field.{
  field_start, subtable_rest, sqlite_names, set_index, question_marks, column_separator,
  column_type, column_attrs, create_column,
}
use sqlite3gen.Emit.Source.Fields.{
  column_lists, column_code, column_rest, field_commands, field_loop,
}
use sqlite3gen.Emit.Source.Columns.{no_column, not_inserted, reject, listed, added, Sends-reject}
use sqlite3gen.Emit.Source.Calm.{
  marks, marks_force, Calm, append-Calm, field_start-Calm, subtable_rest-Calm, sqlite_names-Calm,
  column_code-Calm,
}

abbrev pub mark : FieldDef → Text
mark fd = codes "?"

-- What statements send to the two lists of question marks.
abbrev pub SendsBoth : List Cmd → (inserted forced : Text) → Type 0
SendsBoth cs inserted forced = Sends marks cs inserted × Sends marks_force cs forced

-- Statements behind calm ones, and before them.
Calm-SendsBoth :
    (cs ds : List Cmd) (v w : Text) → Calm cs → SendsBoth ds v w → SendsBoth (cs ++ ds) v w
Calm-SendsBoth cs ds v w (a, b) (h, g) =
    (quiet-Sends marks cs ds v a h, quiet-Sends marks_force cs ds w b g)

SendsBoth-Calm :
    (cs ds : List Cmd) (v w : Text) → SendsBoth cs v w → Calm ds → SendsBoth (cs ++ ds) v w
SendsBoth-Calm cs ds v w (h, g) (a, b) =
    (Sends-quiet marks cs ds v h a, Sends-quiet marks_force cs ds w g b)

nothing-SendsBoth : (cs : List Cmd) → Calm cs → SendsBoth cs [] []
nothing-SendsBoth cs (a, b) = (nothing-Sends marks cs a, nothing-Sends marks_force cs b)

append-SendsBoth :
    (cs ds : List Cmd) (v w v' w' : Text)
    → SendsBoth cs v w
    → SendsBoth ds v' w'
    → SendsBoth (cs ++ ds) (v ++ v') (w ++ w')
append-SendsBoth cs ds v w v' w' (a, b) (c, d) =
    (append-Sends marks cs ds v v' a c, append-Sends marks_force cs ds w w' b d)

-- Each half of a sequence sends to one list.
two-SendsBoth :
    (cs ds : List Cmd) (v w : Text)
    → SendsBoth cs v []
    → SendsBoth ds [] w
    → SendsBoth (cs ++ ds) v w
two-SendsBoth cs ds v w h g =
    subst (λ (u : Text). SendsBoth (cs ++ ds) u w) (append_nil v)
      (append-SendsBoth cs ds v [] [] w h g)

question_marks-SendsBoth :
    (fd : FieldDef) (first : Bool) (n : ℕ)
    → SendsBoth
        (question_marks fd first n)
        (added fd.attrs.auto_increment first (codes ",") (mark fd))
        []
unfolding question_marks set_index text_eq
question_marks-SendsBoth fd first n = elim (Bool-cases fd.attrs.auto_increment) [
  | inl a ↦ rw a ((refl, refl), (refl, refl))
  | inr a ↦ elim (Bool-cases first) [
    | inl f ↦ rw (a, f) ((refl, refl), (refl, refl))
    | inr f ↦ rw (a, f) ((refl, refl), (refl, refl))
  ]
]

column_type-Calm : (fd : FieldDef) (t : TypeDef) → fd.type.type ≡ t → Calm (column_type fd)
unfolding column_type typedef_to_sqlite_create_type text_eq
column_type-Calm fd type_int e = rw e (refl, refl)
column_type-Calm fd type_int64 e = rw e (refl, refl)
column_type-Calm fd type_text e = rw e (refl, refl)
column_type-Calm fd type_blob e = rw e (refl, refl)
column_type-Calm fd type_double e = rw e (refl, refl)
column_type-Calm fd type_bool e = rw e (refl, refl)
column_type-Calm fd type_enum e = rw e (refl, refl)
column_type-Calm fd type_subtable e = rw e (refl, refl)

column_attrs-Calm : (fd : FieldDef) → Calm (column_attrs fd)
unfolding column_attrs text_eq
column_attrs-Calm fd = elim (Bool-cases (is_empty fd.attrs.constraints)) [
  | inl c ↦ elim (Bool-cases fd.attrs.auto_increment) [
    | inl a ↦ elim (Bool-cases fd.attrs.foreign) [
      | inl f ↦ rw (c, a, f) (refl, refl)
      | inr f ↦ rw (c, a, f) (refl, refl)
    ]
    | inr a ↦ elim (Bool-cases fd.attrs.foreign) [
      | inl f ↦ rw (c, a, f) (refl, refl)
      | inr f ↦ rw (c, a, f) (refl, refl)
    ]
  ]
  | inr c ↦ elim (Bool-cases fd.attrs.auto_increment) [
    | inl a ↦ elim (Bool-cases fd.attrs.foreign) [
      | inl f ↦ rw (c, a, f) (refl, refl)
      | inr f ↦ rw (c, a, f) (refl, refl)
    ]
    | inr a ↦ elim (Bool-cases fd.attrs.foreign) [
      | inl f ↦ rw (c, a, f) (refl, refl)
      | inr f ↦ rw (c, a, f) (refl, refl)
    ]
  ]
]

-- One question mark, between the type of a column and its attributes.
abbrev one_mark : List Cmd
one_mark = say "questionmarks_force" (codes "?") ∷ []

separator-SendsBoth :
    (first : Bool) → SendsBoth (column_separator first) [] (if first then [] else codes ",")
unfolding column_separator text_eq
separator-SendsBoth true = ((refl, refl), (refl, refl))
separator-SendsBoth false = ((refl, refl), (refl, refl))

create_column-SendsBoth :
    (fd : FieldDef) (first : Bool)
    → SendsBoth (create_column fd first) [] (added false first (codes ",") (mark fd))
unfolding create_column text_eq
create_column-SendsBoth fd first =
    append-SendsBoth (column_separator first ++ column_type fd) (one_mark ++ column_attrs fd) [] _
      [] (codes "?")
      (SendsBoth-Calm (column_separator first) (column_type fd) [] _ (separator-SendsBoth first)
        (column_type-Calm fd _ refl))
      (SendsBoth-Calm one_mark (column_attrs fd) [] (codes "?") ((refl, refl), (refl, refl))
        (column_attrs-Calm fd))

column_lists-SendsBoth :
    (fd : FieldDef) (fs fu : Bool) (sc uc : ℕ)
    → SendsBoth
        (column_lists fd fs fu sc uc)
        (added fd.attrs.auto_increment fu (codes ",") (mark fd))
        (added false fs (codes ",") (mark fd))
unfolding column_lists set_index text_eq
column_lists-SendsBoth fd fs fu sc uc =
    let a = sqlite_names fd.type.type in
    let index = set_index "select_column_index" sc in
    let b = question_marks fd fu uc in
    two-SendsBoth (a ++ index ++ b) (create_column fd fs) _ _
      (Calm-SendsBoth (a ++ index) b _ []
        (append-Calm a index (sqlite_names-Calm fd.type.type) (refl, refl))
        (question_marks-SendsBoth fd fu uc))
      (create_column-SendsBoth fd fs)

field_commands-SendsBoth :
    (fd : FieldDef) (link : Option FieldDef) (p fs fu : Bool) (sc uc : ℕ)
    → SendsBoth
        (field_commands fd link p fs fu sc uc)
        (added (not_inserted fd) fu (codes ",") (mark fd))
        (added (no_column fd) fs (codes ",") (mark fd))
unfolding field_commands column_rest
field_commands-SendsBoth fd link p fs fu sc uc = elim (Bool-cases (is_sub fd.type.type)) [
  | inl e ↦ rw e (
      nothing-SendsBoth (field_start fd ++ subtable_rest link) (
        append-Calm (field_start fd) (subtable_rest link) (field_start-Calm fd)
          (subtable_rest-Calm link)))
  | inr e ↦ rw e (
      Calm-SendsBoth (field_start fd) (column_lists fd fs fu sc uc ++ column_code fd p) _ _
        (field_start-Calm fd)
        (SendsBoth-Calm (column_lists fd fs fu sc uc) (column_code fd p) _ _
          (column_lists-SendsBoth fd fs fu sc uc) (column_code-Calm fd p)))
]

-- The second walk sends a question mark for each field that an INSERT gives a value to
-- `questionmarks`, and one for each column to `questionmarks_force`, with commas between them.
pub field_loop-SendsBoth :
    (sd : SchemaDef) (links : Marks) (t i : ℕ) (constraints : Text) (p fs fu : Bool) (sc uc : ℕ)
    (fds : List FieldDef)
    → SendsBoth
        (field_loop sd links t i constraints p fs fu sc uc fds)
        (listed fu (codes ",") (map mark (reject not_inserted fds)))
        (listed fs (codes ",") (map mark (reject no_column fds)))
unfolding field_loop set_index text_eq
field_loop-SendsBoth sd links t i constraints p fs fu sc uc [] = ((refl, refl), (refl, refl))
field_loop-SendsBoth sd links t i constraints p fs fu sc uc (fd ∷ fds) =
    let head = field_commands fd (subtable_field sd links t i) p fs fu sc uc in
    let (inserted, forced) =
      field_commands-SendsBoth fd (subtable_field sd links t i) p fs fu sc uc in
    let (inserted', forced') =
      field_loop-SendsBoth sd links t (suc i) constraints p (fs && is_sub fd.type.type)
        (fu && (is_sub fd.type.type || fd.attrs.auto_increment))
        (if is_sub fd.type.type then sc else suc sc)
        (if is_sub fd.type.type || fd.attrs.auto_increment then uc else suc uc) fds in
    (
      Sends-reject marks head _ mark not_inserted fu (codes ",") fd fds inserted inserted',
      Sends-reject marks_force head _ mark no_column fs (codes ",") fd fds forced forced',
    )
