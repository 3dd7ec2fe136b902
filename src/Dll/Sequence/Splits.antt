-- ===== src/Dll/Sequence/Splits.antt =====
-- aes_vfs/dll3.tcc: the sequence of a `DLL3::List`, divided before and after an item.
use sqlite3gen.Base.{
  ℕ, ◌≡◌, refl, ap, true, false, ◌||◌, List, [], ◌∷◌, ◌++◌, arith, ◌==◌, Bool-cases, inl, inr,
}
use sqlite3gen.Dll.Sequence.{has, Nodup, erase, insert_before}

pub has-append : (z : ℕ) (xs ys : List ℕ) → has z (xs ++ ys) ≡ (has z xs || has z ys)
unfolding has
has-append z [] ys = refl
has-append z (x ∷ xs) ys = ground (arith, has-append z xs ys)

-- Another item than one that is not on the list.
pub apart : (x z : ℕ) (xs : List ℕ) → has x xs ≡ false → has z xs ≡ true → (z == x) ≡ false
unfolding has
apart x z [] h m = cc
apart x z (y ∷ xs) h m = ground (arith, apart x z xs)

-- No item stands in both parts.
abbrev pub Disjoint : (xs ys : List ℕ) → Type 0
Disjoint xs ys = (z : ℕ) → has z xs ≡ true → has z ys ≡ false

pub Nodup-split : (xs ys : List ℕ) → Nodup (xs ++ ys) → Nodup xs × (Nodup ys × Disjoint xs ys)
unfolding has
Nodup-split [] ys n = (tt, (n, λ z m. cc))
Nodup-split (x ∷ xs) ys n =
    let (front, (back, apart)) = Nodup-split xs ys n.1 in
    (
      (ground (arith, has-append x xs ys, n.0), front),
      (back, λ z m. ground (arith, has-append x xs ys, n.0, m, apart z)),
    )

pub Nodup-append : (xs ys : List ℕ) → Nodup xs → Nodup ys → Disjoint xs ys → Nodup (xs ++ ys)
unfolding has
Nodup-append [] ys n m d = m
Nodup-append (x ∷ xs) ys n m d = (
  ground (arith, has-append x xs ys, n.0, d x),
  Nodup-append xs ys n.1 m (λ z h. d z (ground (arith, h))),
)

-- The items before the first `p` and those after it.
abbrev pub Split : ℕ → List ℕ → Type 0
Split p xs = (ls : List ℕ) × ((rs : List ℕ) × ((xs ≡ ls ++ p ∷ rs) × (has p ls ≡ false)))

pub has-Split : (p : ℕ) (xs : List ℕ) → has p xs ≡ true → Split p xs
unfolding has
has-Split p [] h = cc
has-Split p (x ∷ xs) h = elim (Bool-cases (p == x)) [
  | inl e ↦ ([], (xs, (ap (λ y. y ∷ xs) (ground arith), refl)))
  | inr e ↦
      let (ls, (rs, (q, n))) = has-Split p xs (ground arith) in
      (x ∷ ls, (rs, (ap (λ ys. x ∷ ys) q, ground arith)))
]

pub erase-split : (p : ℕ) (ls rs : List ℕ) → has p ls ≡ false → erase p (ls ++ p ∷ rs) ≡ ls ++ rs
unfolding has erase
erase-split p [] rs h = ground arith
erase-split p (x ∷ ls) rs h = ground (arith, erase-split p ls rs)

pub insert_before-split :
    (p e : ℕ) (ls rs : List ℕ)
    → has e ls ≡ false
    → insert_before p e (ls ++ e ∷ rs) ≡ ls ++ p ∷ e ∷ rs
unfolding has insert_before
insert_before-split p e [] rs h = ground arith
insert_before-split p e (x ∷ ls) rs h = ground (arith, insert_before-split p e ls rs)
