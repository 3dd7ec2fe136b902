-- ===== src/Dll/Sequence.antt =====
-- What a client sees of a `DLL3::List`: the sequence of its items, head first. An item is named by
-- its address, a number.
pub mod Splits
use sqlite3gen.Base.{
  ℕ, ◌+◌, ◌≡◌, ◌≢◌, refl, Bool, true, false, ◌&&◌, ◌||◌, not, Option, none, some, List, [], ◌∷◌,
  ◌++◌, arith, ◌==◌, inl, inr, Option-cases, if◌then◌else◌, length,
}

-- `onthislist`.
unfoldable pub has : ℕ → List ℕ → Bool
has p [] = false
has p (x ∷ xs) = (p == x) || has p xs

-- `add_tail`.
abbrev pub add_tail : List ℕ → ℕ → List ℕ
add_tail xs p = xs ++ p ∷ []

-- `remove`.
unfoldable pub erase : ℕ → List ℕ → List ℕ
erase p [] = []
erase p (x ∷ xs) = if p == x then xs else x ∷ erase p xs

-- `add_before`.
unfoldable pub insert_before : (p e : ℕ) → List ℕ → List ℕ
insert_before p e [] = []
insert_before p e (x ∷ xs) = if e == x then p ∷ x ∷ xs else x ∷ insert_before p e xs

-- A walk from `get_head` by `get_next` to the first item with the key.
unfoldable pub find_first : (ℕ → ℕ) → ℕ → List ℕ → Option ℕ
find_first key k [] = none
find_first key k (x ∷ xs) = if key x == k then some x else find_first key k xs

-- No item is on the list twice.
abbrev pub Nodup : List ℕ → Type 0
Nodup [] = Unit {0}
Nodup (x ∷ xs) = (has x xs ≡ false) × Nodup xs

pub has-add_tail : (q p : ℕ) (xs : List ℕ) → has q (add_tail xs p) ≡ (has q xs || (q == p))
unfolding has
has-add_tail q p [] = ground arith
has-add_tail q p (x ∷ xs) = ground (arith, has-add_tail q p xs)

pub has-erase : (q p : ℕ) (xs : List ℕ) → Nodup xs → has q (erase p xs) ≡ (has q xs && not (q == p))
unfolding has erase
has-erase q p [] n = refl
has-erase q p (x ∷ xs) n = ground (arith, has-erase q p xs)

pub Nodup-add_tail : (p : ℕ) (xs : List ℕ) → has p xs ≡ false → Nodup xs → Nodup (add_tail xs p)
unfolding has
Nodup-add_tail p [] h n = (refl, tt)
Nodup-add_tail p (x ∷ xs) h n =
    (ground (arith, has-add_tail x p xs), Nodup-add_tail p xs (ground arith) n.1)

pub Nodup-erase : (p : ℕ) (xs : List ℕ) → Nodup xs → Nodup (erase p xs)
unfolding has erase
Nodup-erase p [] n = tt
Nodup-erase p (x ∷ xs) n = ground (arith, Nodup-erase p xs n.1, has-erase x p xs n.1)

pub length-erase : (p : ℕ) (xs : List ℕ) → has p xs ≡ true → length (erase p xs) + 1 ≡ length xs
unfolding has erase
length-erase p [] h = cc
length-erase p (x ∷ xs) h = ground (arith, length-erase p xs)

pub find_first_sound :
    (key : ℕ → ℕ) (k : ℕ) (xs : List ℕ) (p : ℕ)
    → find_first key k xs ≡ some p
    → (has p xs ≡ true) × (key p ≡ k)
unfolding has find_first
find_first_sound key k [] p h = cc
find_first_sound key k (x ∷ xs) p h = ground (arith, find_first_sound key k xs p)

pub find_first-none :
    (key : ℕ → ℕ) (k : ℕ) (xs : List ℕ) (p : ℕ)
    → find_first key k xs ≡ none
    → has p xs ≡ true
    → key p ≢ k
unfolding has find_first
find_first-none key k [] p h m = cc
find_first-none key k (x ∷ xs) p h m = ground (arith, find_first-none key k xs p)

-- A key that a listed item has is found.
pub find_first_complete :
    (key : ℕ → ℕ) (k : ℕ) (xs : List ℕ) (p : ℕ)
    → has p xs ≡ true
    → key p ≡ k
    → (q : ℕ) × (find_first key k xs ≡ some q)
find_first_complete key k xs p h e = elim (Option-cases (find_first key k xs)) [
  | inl n ↦ absurd (find_first-none key k xs p n h e)
  | inr r ↦ r
]
