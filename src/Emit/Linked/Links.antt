-- ===== src/Emit/Linked/Links.antt =====
-- parser.yy: the links that the validation of a SUBTABLE stores.
use sqlite3gen.Base.{
  ℕ, ◌≡◌, refl, sym, ◌∙◌, ap, subst, Bool, true, ◌&&◌, some, [], ◌∷◌, arith, ◌==◌, get_elem?, All,
  Bool-cases, inl, inr, ==_iff,
}
use mathlib.Core.Bool.{false≢true}
use sqlite3gen.Base.Text.{text_eq}
use sqlite3gen.Base.Result.{Result, ok, err, and_then, and_then_ok, ok_or, require, require_ok, any}
use sqlite3gen.Schema.{FieldDef, TableDef, SchemaDef, find_from, is_table}
use sqlite3gen.Schema.Validate.{
  SchemaError, SubtableLink, Marks, check_subtable, subtable_unknown, subtable_without_foreign,
  subtable_without_query,
}
use sqlite3gen.Emit.Common.{field_at, subtable_field}
use sqlite3gen.Emit.Linked.Positions.{
  some_inj, find_from-get_elem?, ok_or_ok, elem_at, field_at-get_elem?,
}

-- The field is a FOREIGN of the table, with QUERY.
abbrev pub refers : TableDef → FieldDef → Bool
refers td fd2 = (fd2.attrs.foreign && text_eq fd2.attrs.foreign_table td.name) && fd2.attrs.query

-- A link whose ends exist.
abbrev pub IsLink : SchemaDef → SubtableLink → Type 0
IsLink sd l =
    (td : TableDef) × (fd2 : FieldDef) × (get_elem? sd.tables l.table ≡ some td)
    × (field_at sd l.subtable_table l.subtable_field ≡ some fd2)
    × (refers td fd2 ≡ true)

abbrev pub is_from : (table field : ℕ) → SubtableLink → Bool
is_from t i l = (l.table == t) && (l.field == i)

abbrev pub has_link : Marks → (table field : ℕ) → Bool
has_link marks t i = any (is_from t i) marks

-- With links whose ends exist, the pointer of a field that has one is not NULL.
pub subtable_field-is_from :
    (sd : SchemaDef) (marks : Marks) (t i : ℕ) (td : TableDef)
    → All (IsLink sd) marks
    → has_link marks t i ≡ true
    → get_elem? sd.tables t ≡ some td
    → (fd2 : FieldDef) × (subtable_field sd marks t i ≡ some fd2) × (refers td fd2 ≡ true)
unfolding subtable_field
subtable_field-is_from sd [] t i td valid has at = cc
subtable_field-is_from sd (l ∷ ls) t i td ((td', fd2, at', elem, r), valid) has at =
    elim (Bool-cases (is_from t i l)) [
      | inl e ↦
          let same_table = (==_iff l.table t).0 (ground (arith, e)) in
          let same =
            some_inj td' td (sym at' ∙ ap (λ (n : ℕ). get_elem? sd.tables n) same_table ∙ at) in
          (fd2, rw e elem, subst (λ (x : TableDef). refers x fd2 ≡ true) same r)
      | inr e ↦
          let (fd3, found, r') =
            subtable_field-is_from sd ls t i td valid (ground (arith, has, e)) at in
          (fd3, rw e found, r')
    ]

abbrev pub linked : Marks → Result SchemaError Marks
linked m = ok m

pub result_inj : (m m' : Marks) → linked m ≡ ok m' → m ≡ m'
result_inj m m' h = ap (λ (r : Result SchemaError Marks). elim r [ ok x ↦ x | err y ↦ m ]) h

-- Links stay valid, and none goes away.
abbrev pub Grows : SchemaDef → (marks marks' : Marks) → Type 0
Grows sd marks marks' =
    (All (IsLink sd) marks → All (IsLink sd) marks')
    × ((t i : ℕ) → has_link marks t i ≡ true → has_link marks' t i ≡ true)

pub same_Grows : (sd : SchemaDef) (marks marks' : Marks) → marks ≡ marks' → Grows sd marks marks'
same_Grows sd marks marks' e = subst (Grows sd marks) e (λ v. v, λ t i g. g)

pub trans_Grows : (sd : SchemaDef) (a b c : Marks) → Grows sd a b → Grows sd b c → Grows sd a c
trans_Grows sd a b c (v, m) (w, n) = (λ x. w (v x), λ t i g. n t i (m t i g))

grown :
    (sd : SchemaDef) (ti fi : ℕ) (tb : TableDef) (fd2 : FieldDef) (new : SubtableLink)
    (marks : Marks)
    → get_elem? sd.tables ti ≡ some tb
    → field_at sd new.subtable_table new.subtable_field ≡ some fd2
    → refers tb fd2 ≡ true
    → new.table ≡ ti
    → new.field ≡ fi
    → Grows sd marks (new ∷ marks) × (has_link (new ∷ marks) ti fi ≡ true)
grown sd ti fi tb fd2 new marks at target r e f = (
  (
    λ v. ((tb, fd2, ap (λ (n : ℕ). get_elem? sd.tables n) e ∙ at, target, r), v),
    λ t i g. ground (arith, g),
  ),
  ground (arith, e, f),
)

-- The last steps of the validation of a SUBTABLE, where its table and the field were found.
abbrev link_to : ℕ → ℕ → ℕ → ℕ → SubtableLink
link_to ti fi t2 f2 = record { table = ti; field = fi; subtable_table = t2; subtable_field = f2 }

abbrev is_reference : TableDef → FieldDef → Bool
is_reference tb fd2 = fd2.attrs.foreign && text_eq fd2.attrs.foreign_table tb.name

abbrev with_query :
    (tb : TableDef) (ti fi : ℕ) (marks : Marks) (found : ℕ × TableDef) (field : ℕ × FieldDef)
    → Result SchemaError Marks
with_query tb ti fi marks found field =
    and_then
      (require field.1.attrs.query (subtable_without_query found.1.name field.1.name tb.name))
      (λ _. ok (link_to ti fi found.0 field.0 ∷ marks))

abbrev with_table :
    (tb : TableDef) (ti fi : ℕ) (fd : FieldDef) (marks : Marks) (found : ℕ × TableDef)
    → Result SchemaError Marks
with_table tb ti fi fd marks found =
    and_then
      (ok_or (find_from (is_reference tb) 0 found.1.fields)
        (subtable_without_foreign fd.name tb.name))
      (with_query tb ti fi marks found)

pub check_subtable-Grows :
    (sd : SchemaDef) (ti : ℕ) (tb : TableDef) (fi : ℕ) (fd : FieldDef) (marks marks' : Marks)
    → check_subtable sd ti tb fi fd marks ≡ ok marks'
    → get_elem? sd.tables ti ≡ some tb
    → Grows sd marks marks' × (fd.attrs.subtable ≡ true → has_link marks' ti fi ≡ true)
unfolding check_subtable is_table
check_subtable-Grows sd ti tb fi fd marks marks' h at = elim (Bool-cases fd.attrs.subtable) [
  | inr e ↦
      let same = result_inj marks marks' (rw e at h) in
      subst (λ (m : Marks). Grows sd marks m × (fd.attrs.subtable ≡ true → has_link m ti fi ≡ true))
        same
        ((λ v. v, λ t i g. g), λ (on : fd.attrs.subtable ≡ true). absurd (false≢true (sym e ∙ on)))
  | inl e ↦
      let (found, is_found, rest) =
        and_then_ok (ok_or (is_table sd fd.name) (subtable_unknown fd.name))
          (with_table tb ti fi fd marks) marks' (rw e at h) in
      let (field, is_field, rest') =
        and_then_ok
          (ok_or (find_from (is_reference tb) 0 found.1.fields)
            (subtable_without_foreign fd.name tb.name))
          (with_query tb ti fi marks found) marks' rest in
      let (u, has_query, last) =
        and_then_ok
          (require field.1.attrs.query (subtable_without_query found.1.name field.1.name tb.name))
          (λ _. ok (link_to ti fi found.0 field.0 ∷ marks)) marks' rest' in
      let query = require_ok field.1.attrs.query _ has_query in
      let (k, at_k, elem_k, named) =
        find_from-get_elem? _ 0 sd.tables found.0 found.1 (ok_or_ok _ _ found is_found) in
      let (f, at_f, elem_f, refer) =
        find_from-get_elem? _ 0 found.1.fields field.0 field.1 (ok_or_ok _ _ field is_field) in
      let new = link_to ti fi found.0 field.0 in
      let target =
        field_at-get_elem? sd found.0 field.0 found.1 field.1
          (elem_at sd.tables found.0 k found.1 at_k elem_k)
          (elem_at found.1.fields field.0 f field.1 at_f elem_f) in
      let grows =
        grown sd ti fi tb field.1 new marks at target (ground (arith, refer, query)) refl refl in
      subst (λ (m : Marks). Grows sd marks m × (fd.attrs.subtable ≡ true → has_link m ti fi ≡ true))
        (result_inj (new ∷ marks) marks' last) (grows.0, λ on. grows.1)
]
