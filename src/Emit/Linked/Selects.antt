-- ===== src/Emit/Linked/Selects.antt =====
-- parser.yy, emit_source.cc, emit_header.cc: the pointers that the validation stores for the fields of a
-- CUSTOM-SELECT.
use sqlite3gen.Base.{ℕ, ◌≡◌, Option, none, some, List, [], ◌∷◌, get_elem?, map, All}
use sqlite3gen.Base.Text.{Text}
use sqlite3gen.Base.Result.{Result}
use sqlite3gen.Schema.{FieldDef, TableDef, SchemaDef}
use sqlite3gen.Schema.Validate.{SelectLinks}
use sqlite3gen.Emit.Common.{field_at}

-- A pointer of a field leads to a field of the table, or is NULL for a `rowid`.
abbrev pub LeadsTo : SchemaDef → ℕ → Option ℕ → Type 0
LeadsTo sd t none = Unit {0}
LeadsTo sd t (some f) = (fd : FieldDef) × (field_at sd t f ≡ some fd)

-- The two vectors, walked side by side as the emitters walk them.
abbrev pub Points : SchemaDef → List ℕ → List (Option ℕ) → Type 0
Points sd [] [] = Unit {0}
Points sd (t ∷ ts) (f ∷ fs) =
    ((td : TableDef) × (get_elem? sd.tables t ≡ some td)) × (LeadsTo sd t f × Points sd ts fs)
Points sd [] (f ∷ fs) = ⊥
Points sd (t ∷ ts) [] = ⊥

abbrev Valid : SchemaDef → ℕ × Option ℕ → Type 0
Valid sd p = ((td : TableDef) × (get_elem? sd.tables p.0 ≡ some td)) × LeadsTo sd p.0 p.1

abbrev tables_of : List (ℕ × Option ℕ) → List ℕ
tables_of ptrs = map (λ (p : ℕ × Option ℕ). p.0) ptrs

abbrev fields_of : List (ℕ × Option ℕ) → List (Option ℕ)
fields_of ptrs = map (λ (p : ℕ × Option ℕ). p.1) ptrs

-- The pointers of every select lead somewhere.
abbrev pub AllPoint : SchemaDef → List SelectLinks → Type 0
AllPoint sd links = All (λ (l : SelectLinks). Points sd l.field_table_ptrs l.field_ptrs) links
