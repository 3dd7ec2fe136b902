-- ===== src/Dll/Links/Fields.antt =====
-- aes_vfs/dll3.tcc: what the assignments through `item->next` and `item->prev`, which are NULL at the
-- ends of a list, write.
use sqlite3gen.Base.{
  ℕ, ◌-◌, ◌≡◌, refl, ◌∙◌, subst, Bool, true, false, Option, none, some, List, [], ◌∷◌, arith, ◌==◌,
  if◌then◌else◌, Bool-cases, inl, inr,
}
use sqlite3gen.Dll.Sequence.{has}
use sqlite3gen.Dll.Links.{Dll, point_back, point_on, set_next, set_prev, set_lst, remove}
use sqlite3gen.Dll.Links.Chains.{first, last, same, disagree, same-last}

-- The end of the list, where there is no neighbour to write to.
abbrev pub instead : Option ℕ → Option ℕ → Option ℕ → Option ℕ
instead none v w = v
instead (some n) v w = w

module _ (v : Option ℕ) (s : Dll) (z : ℕ) where
  pub next-point_back : (n : Option ℕ) → ((point_back n v s).links z).next ≡ (s.links z).next
  next-point_back none = refl
  next-point_back (some n) = refl

  pub prev-point_back :
      (n : Option ℕ)
      → ((point_back n v s).links z).prev ≡ (if same n z then v else (s.links z).prev)
  prev-point_back none = refl
  prev-point_back (some n) = refl

  pub lst-point_back : (n : Option ℕ) → ((point_back n v s).links z).lst ≡ (s.links z).lst
  lst-point_back none = refl
  lst-point_back (some n) = refl

  pub next-point_on :
      (p : Option ℕ) → ((point_on p v s).links z).next ≡ (if same p z then v else (s.links z).next)
  next-point_on none = refl
  next-point_on (some p) = refl

  pub prev-point_on : (p : Option ℕ) → ((point_on p v s).links z).prev ≡ (s.links z).prev
  prev-point_on none = refl
  prev-point_on (some p) = refl

  pub lst-point_on : (p : Option ℕ) → ((point_on p v s).links z).lst ≡ (s.links z).lst
  lst-point_on none = refl
  lst-point_on (some p) = refl

module _ (v : Option ℕ) (s : Dll) where
  pub head-point_back : (n : Option ℕ) → (point_back n v s).head ≡ s.head
  head-point_back none = refl
  head-point_back (some n) = refl

  pub tail-point_back : (n : Option ℕ) → (point_back n v s).tail ≡ instead n v s.tail
  tail-point_back none = refl
  tail-point_back (some n) = refl

  pub cnt-point_back : (n : Option ℕ) → (point_back n v s).cnt ≡ s.cnt
  cnt-point_back none = refl
  cnt-point_back (some n) = refl

  pub head-point_on : (p : Option ℕ) → (point_on p v s).head ≡ instead p v s.head
  head-point_on none = refl
  head-point_on (some p) = refl

  pub tail-point_on : (p : Option ℕ) → (point_on p v s).tail ≡ s.tail
  tail-point_on none = refl
  tail-point_on (some p) = refl

  pub cnt-point_on : (p : Option ℕ) → (point_on p v s).cnt ≡ s.cnt
  cnt-point_on none = refl
  cnt-point_on (some p) = refl

-- The end pointers after a write next to the items `rs`, or `ls`.
pub instead-first :
    (p v l : Option ℕ) (rs : List ℕ) → l ≡ last p rs → instead (first rs none) v l ≡ last v rs
instead-first p v l [] h = refl
instead-first p v l (x ∷ rs) h = h

pub instead-last :
    (e v h : Option ℕ) (ls : List ℕ) → h ≡ first ls e → instead (last none ls) v h ≡ first ls v
instead-last e v h [] q = refl
instead-last e v h (x ∷ ls) q = instead_some x ls ∙ q
  where
    instead_some : (y : ℕ) (ys : List ℕ) → instead (last (some y) ys) v h ≡ h
    instead_some y [] = refl
    instead_some y (z ∷ ys) = instead_some z ys

-- An item that is not listed stands at no end.
pub same-first_absent :
    (x z : ℕ) (xs : List ℕ) → has x xs ≡ false → (z == x) ≡ true → same (first xs none) z ≡ false
unfolding has
same-first_absent x z [] h e = refl
same-first_absent x z (y ∷ xs) h e = ground (arith, h, e)

pub same-last_absent :
    (x z : ℕ) (xs : List ℕ) → has x xs ≡ false → (z == x) ≡ true → same (last none xs) z ≡ false
same-last_absent x z [] h e = refl
same-last_absent x z (y ∷ xs) h e = elim (Bool-cases (same (last (some y) xs) z)) [
  | inl m ↦
      let q : z ≡ x = ground arith in
      absurd (disagree (subst (λ i. has i (y ∷ xs) ≡ true) q (same-last y xs z m)) h)
  | inr m ↦ m
]

-- Two writes to different places.
pub swap :
    (p q : Bool) (u v w : Option ℕ)
    → (p ≡ true → q ≡ false)
    → (if q then u else if p then v else w) ≡ (if p then v else if q then u else w)
swap true q u v w d = rw (d refl) refl
swap false q u v w d = refl

-- `_remove` with the neighbours read first.
abbrev pub unlinked : ℕ → (n p : Option ℕ) → Dll → Dll
unlinked x n p s =
    let s1 = set_prev x none (set_next x none (point_on p n (point_back n p s))) in
    set_lst x none (record s1 { cnt = s1.cnt - 1 })

pub remove-unlinked :
    (x : ℕ) (s : Dll) → remove x s ≡ unlinked x (s.links x).next (s.links x).prev s
unfolding remove
remove-unlinked x s =
    let n = (s.links x).next in
    let p = (s.links x).prev in
    rw (next-point_back p s x n, prev-point_back p s x n ∙ either (same n x) p) refl
  where
    either : (b : Bool) (v : Option ℕ) → (if b then v else v) ≡ v
    either true v = refl
    either false v = refl
