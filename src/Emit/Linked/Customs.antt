-- ===== src/Emit/Linked/Customs.antt =====
-- parser.yy, emit_source.cc: the field that the emitter looks up for a word of a CUSTOM-UPD.
use sqlite3gen.Base.{
  ℕ, zero, suc, ◌≡◌, refl, sym, ◌∙◌, ap, subst, Bool, true, false, some, List, [], ◌∷◌, arith,
  get_elem?, Bool-cases, inl, inr,
}
use mathlib.Core.Bool.{false≢true}
use sqlite3gen.Base.Text.{Text, text_eq, text_eq_sound, text_eq_refl}
use sqlite3gen.Base.Result.{ok, and_then, and_then_ok, is_ok, any, all}
use sqlite3gen.Schema.{CustomGetUpd, FieldDef, TableDef, SchemaDef, find_from}
use sqlite3gen.Schema.Validate.{
  Marks, SelectLinks, validate_table, validate_tables, validate_selects, validate_schema,
  link_fields,
}
use sqlite3gen.Schema.Tables.{updates, has_column, custom_valid, table_valid, validate_table_lem}
use sqlite3gen.Emit.Linked.Positions.{some_inj, at_position}
use sqlite3gen.Emit.Types.{find_field}

all-get_elem? {ℓ} :
    {A : Type ℓ} (test : A → Bool) (xs : List A) (i : ℕ) (x : A)
    → all test xs ≡ true
    → get_elem? xs i ≡ some x
    → test x ≡ true
all-get_elem? test [] i x h e = cc
all-get_elem? test (y ∷ xs) zero x h e = ground (arith, h, ap test (some_inj y x e))
all-get_elem? test (y ∷ xs) (suc i) x h e = all-get_elem? test xs i x (ground (arith, h)) e

text_eq_flip : (s t : Text) → text_eq s t ≡ false → text_eq t s ≡ false
text_eq_flip s t h = elim (Bool-cases (text_eq t s)) [
  | inl e ↦ absurd (
      false≢true (
        sym h
        ∙ subst (λ (u : Text). text_eq s u ≡ true) (sym (text_eq_sound t s e)) (text_eq_refl s)))
  | inr e ↦ e
]

-- A name that is in the list is found, and what is found has the name.
found_name :
    (w : Text) (i : ℕ) (fds : List FieldDef)
    → any (λ (f : FieldDef). text_eq w f.name) fds ≡ true
    → (n : ℕ) × (fd : FieldDef) × (find_from (λ (f : FieldDef). text_eq f.name w) i fds
        ≡ some (n, fd))
      × (fd.name ≡ w)
unfolding find_from
found_name w i [] h = cc
found_name w i (f ∷ fds) h = elim (Bool-cases (text_eq f.name w)) [
  | inl e ↦ (i, f, rw e refl, text_eq_sound f.name w e)
  | inr e ↦
      let (n, fd, found, named) =
        found_name w (suc i) fds (ground (arith, h, text_eq_flip f.name w e)) in
      (n, fd, rw e found, named)
]

-- A table of a schema that the validation takes is valid by itself.
table-is_ok :
    (sd : SchemaDef) (ti : ℕ) (tbs : List TableDef) (marks marks' : Marks) (t : ℕ) (tb : TableDef)
    → validate_tables sd ti tbs marks ≡ ok marks'
    → get_elem? tbs t ≡ some tb
    → is_ok (validate_table tb) ≡ true
unfolding validate_tables
table-is_ok sd ti [] marks marks' t tb h e = cc
table-is_ok sd ti (b ∷ tbs) marks marks' t tb h e =
    let (u, valid, rest) =
      and_then_ok (validate_table b)
        (λ _. and_then (link_fields sd ti b 0 b.fields marks) (validate_tables sd (suc ti) tbs))
        marks' h in
    let (middle, linking, rest') =
      and_then_ok (link_fields sd ti b 0 b.fields marks) (validate_tables sd (suc ti) tbs) marks'
        rest in
    at_position (λ n (x : TableDef). is_ok (validate_table x) ≡ true) 0 b tbs (ap is_ok valid)
      (λ k n x q there. table-is_ok sd (suc ti) tbs middle marks' k x rest' there) t t tb
      (omega arith) e

-- After a validation without an error, the look-up of a word of a CUSTOM-UPD or CUSTOM-UPDBY of a
-- table, whose result the emitter follows, finds a field of the table, and its name is the word.
pub find_field_lem :
    (sd : SchemaDef) (marks : Marks) (links : List SelectLinks) (t i k : ℕ) (tb : TableDef)
    (cust : CustomGetUpd) (w : Text)
    → validate_schema sd ≡ ok (marks, links)
    → get_elem? sd.tables t ≡ some tb
    → get_elem? tb.customs i ≡ some cust
    → updates cust.type ≡ true
    → get_elem? cust.wordlist k ≡ some w
    → (n : ℕ) × (fd : FieldDef) × (find_field tb w ≡ some (n, fd)) × (fd.name ≡ w)
unfolding validate_schema find_field
find_field_lem sd marks links t i k tb cust w h at custom update word =
    let (stored, tables, rest) =
      and_then_ok (validate_tables sd 0 sd.tables [])
        (λ m. and_then (validate_selects sd sd.custom_selects) (λ l. ok (m, l))) (marks, links) h in
    let valid : table_valid tb ≡ true =
      sym (validate_table_lem tb) ∙ table-is_ok sd 0 sd.tables [] stored t tb tables at in
    let one : custom_valid tb cust ≡ true =
      all-get_elem? (custom_valid tb) tb.customs i cust (ground (arith, valid)) custom in
    found_name w 0 tb.fields
      (all-get_elem? (has_column tb) cust.wordlist k w (ground (arith, one, update)) word)
