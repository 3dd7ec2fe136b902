-- ===== src/Emit/Source/Columns.antt =====
-- emit_source.cc: the lists of columns of a table that its statements name.
use sqlite3gen.Base.{
  append_nil, ◌≡◌, refl, Bool, true, false, ◌&&◌, ◌||◌, List, [], ◌∷◌, ◌++◌, if◌then◌else◌,
  Bool-cases, inl, inr, map, subst,
}
use sqlite3gen.Base.Text.{Text, codes, text_eq}
use sqlite3gen.Schema.{FieldDef}
use sqlite3gen.Emit.Machine.{Cmd}
use sqlite3gen.Emit.Words.{Sends, Sends-quiet, quiet-Sends, append-Sends, quiet_all}
use sqlite3gen.Emit.Common.{is_sub}
use sqlite3gen.Emit.Source.Fields.{select_name, update_name, name_field, name_fields}

-- The fields that are no columns, and those that an INSERT gives no value.
abbrev pub no_column : FieldDef → Bool
no_column fd = is_sub fd.type.type

abbrev pub not_inserted : FieldDef → Bool
not_inserted fd = is_sub fd.type.type || fd.attrs.auto_increment

abbrev pub reject {ℓ} : {A : Type ℓ} → (A → Bool) → List A → List A
reject test [] = []
reject test (x ∷ xs) = if test x then reject test xs else x ∷ reject test xs

-- Words with a separator before each but the first.
abbrev pub listed : (first : Bool) → (separator : Text) → List Text → Text
listed first separator [] = []
listed first separator (w ∷ ws) =
    (if first then [] else separator) ++ w ++ listed false separator ws

-- What one word adds to a list, where it is on it.
abbrev pub added : (skip first : Bool) → (separator word : Text) → Text
added skip first separator word = if skip then [] else (if first then [] else separator) ++ word

-- A list by its first field.
pub listed-reject :
    (word : FieldDef → Text) (skip : FieldDef → Bool) (first : Bool) (separator : Text)
    (fd : FieldDef) (fds : List FieldDef)
    → added (skip fd) first separator (word fd)
        ++ listed (first && skip fd) separator (map word (reject skip fds))
      ≡ listed first separator (map word (reject skip (fd ∷ fds)))
listed-reject word skip true separator fd fds = elim (Bool-cases (skip fd)) [
  | inl e ↦ rw e refl
  | inr e ↦ rw e refl
]
listed-reject word skip false separator fd fds = elim (Bool-cases (skip fd)) [
  | inl e ↦ rw e refl
  | inr e ↦ rw e refl
]

-- A walk of fields that adds each word in its turn sends their list.
pub Sends-reject :
    (s : Text) (cs ds : List Cmd) (word : FieldDef → Text) (skip : FieldDef → Bool) (first : Bool)
    (separator : Text) (fd : FieldDef) (fds : List FieldDef)
    → Sends s cs (added (skip fd) first separator (word fd))
    → Sends s ds (listed (first && skip fd) separator (map word (reject skip fds)))
    → Sends s (cs ++ ds) (listed first separator (map word (reject skip (fd ∷ fds))))
Sends-reject s cs ds word skip first separator fd fds h rest =
    subst (Sends s (cs ++ ds)) (listed-reject word skip first separator fd fds)
      (append-Sends s cs ds _ _ h rest)

select_name-Sends :
    (fd : FieldDef) (first : Bool)
    → Sends (codes "all_fieldnames") (select_name fd first) (added false first (codes ", ") fd.name)
unfolding select_name text_eq
select_name-Sends fd true = (append_nil fd.name, refl)
select_name-Sends fd false = (append_nil (codes ", " ++ fd.name), refl)

select_name-quiet :
    (fd : FieldDef) (first : Bool)
    → quiet_all (codes "update_fieldnames") (select_name fd first) ≡ true
unfolding select_name text_eq
select_name-quiet fd true = refl
select_name-quiet fd false = refl

update_name-Sends :
    (fd : FieldDef) (first : Bool)
    → Sends
        (codes "update_fieldnames")
        (update_name fd first)
        (added fd.attrs.auto_increment first (codes ", ") fd.name)
unfolding update_name text_eq
update_name-Sends fd first = elim (Bool-cases fd.attrs.auto_increment) [
  | inl a ↦ rw a (refl, refl)
  | inr a ↦ elim (Bool-cases first) [
    | inl f ↦ rw (a, f) (append_nil fd.name, refl)
    | inr f ↦ rw (a, f) (append_nil (codes ", " ++ fd.name), refl)
  ]
]

update_name-quiet :
    (fd : FieldDef) (first : Bool)
    → quiet_all (codes "all_fieldnames") (update_name fd first) ≡ true
unfolding update_name text_eq
update_name-quiet fd first = elim (Bool-cases fd.attrs.auto_increment) [
  | inl a ↦ rw a refl
  | inr a ↦ elim (Bool-cases first) [ inl f ↦ rw (a, f) refl | inr f ↦ rw (a, f) refl ]
]

name_field-Sends :
    (fd : FieldDef) (fs fu : Bool)
    → Sends
        (codes "all_fieldnames")
        (name_field fd fs fu)
        (added (no_column fd) fs (codes ", ") fd.name)
      × Sends
          (codes "update_fieldnames")
          (name_field fd fs fu)
          (added (not_inserted fd) fu (codes ", ") fd.name)
unfolding name_field
name_field-Sends fd fs fu = elim (Bool-cases (is_sub fd.type.type)) [
  | inl e ↦ rw e ((refl, refl), (refl, refl))
  | inr e ↦ rw e (
    Sends-quiet _ (select_name fd fs) (update_name fd fu) _ (select_name-Sends fd fs)
        (update_name-quiet fd fu),
    quiet-Sends _ (select_name fd fs) (update_name fd fu) _ (select_name-quiet fd fs)
        (update_name-Sends fd fu),
  )
]

-- The first walk sends the names of the columns, with commas between them, to `all_fieldnames`.
pub name_fields-all :
    (fs fu : Bool) (fds : List FieldDef)
    → Sends
        (codes "all_fieldnames")
        (name_fields fs fu fds)
        (listed fs (codes ", ") (map (λ (fd : FieldDef). fd.name) (reject no_column fds)))
unfolding name_fields
name_fields-all fs fu [] = (refl, refl)
name_fields-all fs fu (fd ∷ fds) =
    Sends-reject _ (name_field fd fs fu) _ (λ (f : FieldDef). f.name) no_column fs _ fd fds
      (name_field-Sends fd fs fu).0 (name_fields-all _ _ fds)

-- And those of the fields that an INSERT gives a value to `update_fieldnames`.
pub name_fields-update :
    (fs fu : Bool) (fds : List FieldDef)
    → Sends
        (codes "update_fieldnames")
        (name_fields fs fu fds)
        (listed fu (codes ", ") (map (λ (fd : FieldDef). fd.name) (reject not_inserted fds)))
unfolding name_fields
name_fields-update fs fu [] = (refl, refl)
name_fields-update fs fu (fd ∷ fds) =
    Sends-reject _ (name_field fd fs fu) _ (λ (f : FieldDef). f.name) not_inserted fu _ fd fds
      (name_field-Sends fd fs fu).1 (name_fields-update _ _ fds)
