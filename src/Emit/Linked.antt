-- ===== src/Emit/Linked.antt =====
-- parser.yy, emit_source.cc, emit_header.cc: the pointer `subtable_field`, which the validation stores
-- for a SUBTABLE and the emitters follow.
pub mod Positions
pub mod Links
pub mod Customs
pub mod Selects
use sqlite3gen.Base.{
  ℕ, zero, suc, ◌+◌, ◌≡◌, refl, sym, ◌∙◌, ap, subst, Bool, true, false, not, ◌&&◌, ◌||◌, Option,
  none, some, List, [], ◌∷◌, arith, ◌==◌, if◌then◌else◌, get_elem?, All, Bool-cases, inl, inr,
  ==_iff,
}
use mathlib.Core.Bool.{false≢true}
use sqlite3gen.Base.Text.{Text, text_eq}
use sqlite3gen.Base.Result.{Result, ok, err, and_then, and_then_ok, ok_or, require, require_ok, any}
use sqlite3gen.Schema.{FieldDef, TableDef, SchemaDef, find_from, is_table}
use sqlite3gen.Schema.Validate.{
  SchemaError, SubtableLink, Marks, check_subtable, link_fields, validate_tables, validate_schema,
  SelectLinks, validate_selects, validate_table, check_foreign, subtable_unknown,
  subtable_without_foreign, subtable_without_query,
}
use sqlite3gen.Emit.Common.{field_at, subtable_field}
use sqlite3gen.Emit.Linked.Positions.{
  some_inj, find_from-get_elem?, ok_or_ok, at_position, elem_at, field_at-get_elem?,
}
use sqlite3gen.Emit.Linked.Links.{
  refers, IsLink, has_link, Grows, subtable_field-is_from, result_inj, check_subtable-Grows,
  same_Grows, trans_Grows,
}

-- After the walk of the fields from position `fi` on, each SUBTABLE among them has a link.
link_fields-Grows :
    (sd : SchemaDef) (ti : ℕ) (tb : TableDef) (fi : ℕ) (fds : List FieldDef) (marks marks' : Marks)
    → link_fields sd ti tb fi fds marks ≡ ok marks'
    → get_elem? sd.tables ti ≡ some tb
    → Grows sd marks marks'
      × ((k n : ℕ) (fd : FieldDef)
          → n ≡ fi + k
          → get_elem? fds k ≡ some fd
          → fd.attrs.subtable ≡ true
          → has_link marks' ti n ≡ true)
unfolding link_fields
link_fields-Grows sd ti tb fi [] marks marks' h at =
    (same_Grows sd marks marks' (result_inj marks marks' h), λ k n fd e none_there on. cc)
link_fields-Grows sd ti tb fi (fd ∷ fds) marks marks' h at =
    let (u, checked, rest) =
      and_then_ok (check_foreign sd tb fd)
        (λ _. and_then (check_subtable sd ti tb fi fd marks) (link_fields sd ti tb (suc fi) fds))
        marks' h in
    let (middle, linking, rest') =
      and_then_ok (check_subtable sd ti tb fi fd marks) (link_fields sd ti tb (suc fi) fds) marks'
        rest in
    let (first, has) = check_subtable-Grows sd ti tb fi fd marks middle linking at in
    let (later, has_later) = link_fields-Grows sd ti tb (suc fi) fds middle marks' rest' at in
    (
      trans_Grows sd marks middle marks' first later,
      at_position (λ n f. f.attrs.subtable ≡ true → has_link marks' ti n ≡ true) fi fd fds
          (λ on. later.1 ti fi (has on)) has_later,
    )

-- After the walk of the tables from position `ti` on, each SUBTABLE of theirs has a link.
validate_tables-Grows :
    (sd : SchemaDef) (ti : ℕ) (tbs : List TableDef) (marks marks' : Marks)
    → validate_tables sd ti tbs marks ≡ ok marks'
    → ((k n : ℕ) (tb : TableDef)
        → n ≡ ti + k
        → get_elem? tbs k ≡ some tb
        → get_elem? sd.tables n ≡ some tb)
    → Grows sd marks marks'
      × ((k n : ℕ) (tb : TableDef)
          → n ≡ ti + k
          → get_elem? tbs k ≡ some tb
          → (i : ℕ) (fd : FieldDef) → get_elem? tb.fields i ≡ some fd
          → fd.attrs.subtable ≡ true
          → has_link marks' n i ≡ true)
unfolding validate_tables
validate_tables-Grows sd ti [] marks marks' h at =
    (same_Grows sd marks marks' (result_inj marks marks' h), λ k n tb e none_there i fd f on. cc)
validate_tables-Grows sd ti (tb ∷ tbs) marks marks' h at =
    let (u, valid, rest) =
      and_then_ok (validate_table tb)
        (λ _. and_then (link_fields sd ti tb 0 tb.fields marks) (validate_tables sd (suc ti) tbs))
        marks' h in
    let (middle, linking, rest') =
      and_then_ok (link_fields sd ti tb 0 tb.fields marks) (validate_tables sd (suc ti) tbs) marks'
        rest in
    let (first, has) =
      link_fields-Grows sd ti tb 0 tb.fields marks middle linking (at 0 ti tb (omega arith) refl) in
    let (later, has_later) =
      validate_tables-Grows sd (suc ti) tbs middle marks' rest'
        (λ k n tb' e elem. at (suc k) n tb' (omega (arith, e)) elem) in
    (
      trans_Grows sd marks middle marks' first later,
      at_position
          (λ n t.
            (i : ℕ) (fd : FieldDef)
            → get_elem? t.fields i ≡ some fd
            → fd.attrs.subtable ≡ true
            → has_link marks' n i ≡ true)
          ti tb tbs (λ i fd f on. later.1 ti i (has i i fd (omega arith) f on)) has_later,
    )

-- After a validation without an error, the pointer that the emitters follow for a field with the
-- SUBTABLE attribute is not NULL: it leads to a FOREIGN field that names the table of the first
-- field and has QUERY.
pub subtable_field_lem :
    (sd : SchemaDef) (marks : Marks) (links : List SelectLinks) (t i : ℕ) (td : TableDef)
    (fd : FieldDef)
    → validate_schema sd ≡ ok (marks, links)
    → get_elem? sd.tables t ≡ some td
    → get_elem? td.fields i ≡ some fd
    → fd.attrs.subtable ≡ true
    → (fd2 : FieldDef) × (subtable_field sd marks t i ≡ some fd2) × (refers td fd2 ≡ true)
unfolding validate_schema
subtable_field_lem sd marks links t i td fd h at elem on =
    let (stored, tables, rest) =
      and_then_ok (validate_tables sd 0 sd.tables [])
        (λ m. and_then (validate_selects sd sd.custom_selects) (λ l. ok (m, l))) (marks, links) h in
    let (l, selects, same) =
      and_then_ok (validate_selects sd sd.custom_selects) (λ l. ok (stored, l)) (marks, links)
        rest in
    let (grows, has) =
      validate_tables-Grows sd 0 sd.tables [] stored tables
        (λ k n tb e there. elem_at sd.tables n k tb e there) in
    let stored_marks =
      ap
        (λ (r : Result SchemaError (Marks × List SelectLinks)). elim r as (λ x. Marks) [
          | ok p ↦ p.0
          | err e ↦ stored
        ])
        same in
    subst
      (λ (m : Marks).
        (fd2 : FieldDef) × (subtable_field sd m t i ≡ some fd2) × (refers td fd2 ≡ true))
      stored_marks
      (subtable_field-is_from sd stored t i td (grows.0 tt)
        (has t t td (omega arith) at i fd elem on) at)
