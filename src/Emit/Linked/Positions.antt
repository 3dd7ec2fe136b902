-- ===== src/Emit/Linked/Positions.antt =====
-- parser.yy: the positions that stand for pointers, of what a search finds and of what a walk passes.
use sqlite3gen.Base.{
  ℕ, zero, suc, ◌+◌, ◌≡◌, ◌∙◌, ap, subst, Bool, true, Option, none, some, List, [], ◌∷◌, arith,
  get_elem?, Bool-cases, inl, inr,
}
use sqlite3gen.Base.Result.{ok, err, ok_or}
use sqlite3gen.Schema.{FieldDef, TableDef, SchemaDef, find_from}
use sqlite3gen.Emit.Common.{field_at}

pub some_inj {ℓ} : {A : Type ℓ} (a b : A) → Option.some a ≡ some b → a ≡ b
some_inj a b h = ap (λ o. elim o [ none ↦ a | some x ↦ x ]) h

-- What a search finds stands at the position that it gives, and passes the test.
pub find_from-get_elem? {ℓ} :
    {A : Type ℓ} (test : A → Bool) (i : ℕ) (xs : List A) (j : ℕ) (x : A)
    → find_from test i xs ≡ some (j, x)
    → (k : ℕ) × (j ≡ i + k) × (get_elem? xs k ≡ some x) × (test x ≡ true)
unfolding find_from
find_from-get_elem? test i [] j x h = cc
find_from-get_elem? test i (y ∷ ys) j x h = elim (Bool-cases (test y)) [
  | inl e ↦
      let here = some_inj (i, y) (j, x) (rw e at h) in
      (
        0,
        omega (arith, ap (λ p. p.0) here),
        ap (λ z. some z) (ap (λ p. p.1) here),
        subst (λ z. test z ≡ true) (ap (λ p. p.1) here) e,
      )
  | inr e ↦
      let (k, at, elem, passes) = find_from-get_elem? test (suc i) ys j x (rw e at h) in
      (suc k, omega (arith, at), elem, passes)
]

pub ok_or_ok {ℓ κ} :
    {E : Type ℓ} {A : Type κ} (o : Option A) (e : E) (a : A) → ok_or o e ≡ ok a → o ≡ some a
ok_or_ok none e a h = cc
ok_or_ok (some b) e a h = ap (λ r. elim r [ ok x ↦ some x | err y ↦ some b ]) h

-- What holds at the position of the first element, and at those of the others.
pub at_position {ℓ κ} :
    {A : Type ℓ} (P : ℕ → A → Type κ) (i : ℕ) (x : A) (xs : List A)
    → P i x
    → ((k n : ℕ) (y : A) → n ≡ suc i + k → get_elem? xs k ≡ some y → P n y)
    → (k n : ℕ) (y : A) → n ≡ i + k
    → get_elem? (x ∷ xs) k ≡ some y
    → P n y
at_position P i x xs here there zero n y e elem =
    let same : i ≡ n = omega (arith, e) in
    subst (P n) (some_inj x y elem) (subst (λ m. P m x) same here)
at_position P i x xs here there (suc k) n y e elem = there k n y (omega (arith, e)) elem

pub elem_at {ℓ} :
    {A : Type ℓ} (xs : List A) (n k : ℕ) (x : A)
    → n ≡ 0 + k
    → get_elem? xs k ≡ some x
    → get_elem? xs n ≡ some x
elem_at xs n k x at elem =
    let same : n ≡ k = omega (arith, at) in ap (λ (m : ℕ). get_elem? xs m) same ∙ elem

pub field_at-get_elem? :
    (sd : SchemaDef) (t f : ℕ) (td : TableDef) (fd : FieldDef)
    → get_elem? sd.tables t ≡ some td
    → get_elem? td.fields f ≡ some fd
    → field_at sd t f ≡ some fd
field_at-get_elem? sd t f td fd h g =
    ap
      (λ (o : Option TableDef). elim o as (λ x. Option FieldDef) [
        | none ↦ none
        | some tb ↦ get_elem? tb.fields f
      ])
      h
    ∙ g
