-- ===== src/Dll/Links/Chains.antt =====
-- aes_vfs/dll3.tcc: what the `next` and `prev` pointers of a list say of its sequence.
use sqlite3gen.Base.{
  ℕ, ◌≡◌, refl, sym, ◌∙◌, Bool, true, false, Option, none, some, List, [], ◌∷◌, ◌++◌, arith, ◌==◌,
  if◌then◌else◌, Bool-cases, inl, inr,
}
use sqlite3gen.Dll.Sequence.{has, Nodup}

-- The first item, or what follows the sequence; the last item, or what stands before it.
abbrev pub first : List ℕ → Option ℕ → Option ℕ
first [] e = e
first (x ∷ xs) e = some x

abbrev pub last : Option ℕ → List ℕ → Option ℕ
last p [] = p
last p (x ∷ xs) = last (some x) xs

abbrev pub same : Option ℕ → ℕ → Bool
same none z = false
same (some y) z = z == y

-- `next` leads from each item to the following one, and from the last to `e`.
abbrev pub Chain : (ℕ → Option ℕ) → List ℕ → Option ℕ → Type 0
Chain f [] e = Unit {0}
Chain f (x ∷ xs) e = (f x ≡ first xs e) × Chain f xs e

-- `prev` leads from each item to the one before, and from the first to `p`.
abbrev pub Back : (ℕ → Option ℕ) → Option ℕ → List ℕ → Type 0
Back g p [] = Unit {0}
Back g p (x ∷ xs) = (g x ≡ p) × Back g (some x) xs

abbrev Agree : (f f' : ℕ → Option ℕ) → List ℕ → Type 0
Agree f f' xs = (z : ℕ) → has z xs ≡ true → f' z ≡ f z

pub Chain-congr :
    (f f' : ℕ → Option ℕ) (xs : List ℕ) (e : Option ℕ)
    → ((z : ℕ) → has z xs ≡ true → f' z ≡ f z)
    → Chain f xs e
    → Chain f' xs e
unfolding has
Chain-congr f f' [] e h c = tt
Chain-congr f f' (x ∷ xs) e h c =
    (h x (ground arith) ∙ c.0, Chain-congr f f' xs e (λ z m. h z (ground (arith, m))) c.1)

pub Back-congr :
    (g g' : ℕ → Option ℕ) (p : Option ℕ) (xs : List ℕ)
    → ((z : ℕ) → has z xs ≡ true → g' z ≡ g z)
    → Back g p xs
    → Back g' p xs
unfolding has
Back-congr g g' p [] h b = tt
Back-congr g g' p (x ∷ xs) h b =
    (h x (ground arith) ∙ b.0, Back-congr g g' (some x) xs (λ z m. h z (ground (arith, m))) b.1)

pub first-append : (xs ys : List ℕ) (e : Option ℕ) → first (xs ++ ys) e ≡ first xs (first ys e)
first-append [] ys e = refl
first-append (x ∷ xs) ys e = refl

pub last-append : (p : Option ℕ) (xs ys : List ℕ) → last p (xs ++ ys) ≡ last (last p xs) ys
last-append p [] ys = refl
last-append p (x ∷ xs) ys = last-append (some x) xs ys

pub Chain-append :
    (f : ℕ → Option ℕ) (xs ys : List ℕ) (e : Option ℕ)
    → Chain f xs (first ys e)
    → Chain f ys e
    → Chain f (xs ++ ys) e
Chain-append f [] ys e c d = d
Chain-append f (x ∷ xs) ys e c d = (c.0 ∙ sym (first-append xs ys e), Chain-append f xs ys e c.1 d)

pub Chain-split :
    (f : ℕ → Option ℕ) (xs ys : List ℕ) (e : Option ℕ)
    → Chain f (xs ++ ys) e
    → Chain f xs (first ys e) × Chain f ys e
Chain-split f [] ys e c = (tt, c)
Chain-split f (x ∷ xs) ys e c =
    let (front, back) = Chain-split f xs ys e c.1 in ((c.0 ∙ first-append xs ys e, front), back)

pub Back-append :
    (g : ℕ → Option ℕ) (p : Option ℕ) (xs ys : List ℕ)
    → Back g p xs
    → Back g (last p xs) ys
    → Back g p (xs ++ ys)
Back-append g p [] ys b d = d
Back-append g p (x ∷ xs) ys b d = (b.0, Back-append g (some x) xs ys b.1 d)

pub Back-split :
    (g : ℕ → Option ℕ) (p : Option ℕ) (xs ys : List ℕ)
    → Back g p (xs ++ ys)
    → Back g p xs × Back g (last p xs) ys
Back-split g p [] ys b = (tt, b)
Back-split g p (x ∷ xs) ys b =
    let (front, back) = Back-split g (some x) xs ys b.1 in ((b.0, front), back)

pub disagree : {b : Bool} → b ≡ true → b ≡ false → ⊥
disagree h n = cc

-- The last item of a sequence is on it.
pub same-last :
    (x : ℕ) (xs : List ℕ) (z : ℕ) → same (last (some x) xs) z ≡ true → has z (x ∷ xs) ≡ true
unfolding has
same-last x [] z h = ground (arith, h)
same-last x (y ∷ ys) z h = ground (arith, same-last y ys z h)

pub same-first : (x : ℕ) (xs : List ℕ) (z : ℕ) → same (some x) z ≡ true → has z (x ∷ xs) ≡ true
unfolding has
same-first x xs z h = ground (arith, h)

-- Another item than the last keeps its pointer.
kept :
    (w v : Option ℕ) (l : Option ℕ) (x : ℕ) (b : Bool)
    → (same l x ≡ true → b ≡ true)
    → b ≡ false
    → (if same l x then w else v) ≡ v
kept w v l x b t n = elim (Bool-cases (same l x)) [
  | inl e ↦ absurd (disagree (t e) n)
  | inr e ↦ rw e refl
]

-- A new pointer of the last item.
pub Chain-relink :
    (f f' : ℕ → Option ℕ) (xs : List ℕ) (e e' : Option ℕ)
    → Nodup xs
    → ((z : ℕ) → has z xs ≡ true → f' z ≡ (if same (last none xs) z then e' else f z))
    → Chain f xs e
    → Chain f' xs e'
unfolding has
Chain-relink f f' [] e e' n h c = tt
Chain-relink f f' (x ∷ []) e e' n h c = (ground (arith, h x), tt)
Chain-relink f f' (x ∷ y ∷ ys) e e' n h c = (
  h x (ground arith)
      ∙ kept e' (f x) (last (some y) ys) x (has x (y ∷ ys)) (same-last y ys x) n.0
      ∙ c.0,
  Chain-relink f f' (y ∷ ys) e e' n.1 (λ z m. h z (ground (arith, m))) c.1,
)

-- A new pointer of the first item.
pub Back-relink :
    (g g' : ℕ → Option ℕ) (p p' : Option ℕ) (xs : List ℕ)
    → Nodup xs
    → ((z : ℕ) → has z xs ≡ true → g' z ≡ (if same (first xs none) z then p' else g z))
    → Back g p xs
    → Back g' p' xs
unfolding has
Back-relink g g' p p' [] n h b = tt
Back-relink g g' p p' (x ∷ xs) n h b =
    (ground (arith, h x), Back-congr g g' (some x) xs (λ z m. ground (arith, h z, m, n.0)) b.1)
