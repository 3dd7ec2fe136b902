-- ===== src/Dll/Links/Represents.antt =====
-- aes_vfs/dll3.h, dll3.tcc: when the links of a `DLL3::List` hold a sequence, and what puts an item
-- into the sequence or takes one out of it.
use sqlite3gen.Base.{
  ℕ, ◌+◌, ◌-◌, ◌≡◌, refl, ◌∙◌, Bool, true, false, ◌||◌, Option, none, some, List, [], ◌∷◌, ◌++◌,
  arith, ◌==◌, if◌then◌else◌, length, Bool-cases, inl, inr,
}
use sqlite3gen.Dll.Sequence.{has, Nodup}
use sqlite3gen.Dll.Sequence.Splits.{has-append, apart, Nodup-split, Nodup-append}
use sqlite3gen.Dll.Links.{Dll, is_list}
use sqlite3gen.Dll.Links.Chains.{
  first, last, same, Chain, Back, Chain-congr, Back-congr, Chain-relink, Back-relink, disagree,
  same-first, same-last,
}

-- The links of the list `me` hold the sequence, in both directions, and `lst` names its items.
pub record Represents (me : ℕ) (s : Dll) (xs : List ℕ) : Type 0 where
  pub nexts : Chain (λ y. (s.links y).next) xs none
  pub prevs : Back (λ y. (s.links y).prev) none xs
  pub heads : s.head ≡ first xs none
  pub tails : s.tail ≡ last none xs
  pub counted : s.cnt ≡ length xs
  pub once : Nodup xs
  pub members : (z : ℕ) → is_list me (s.links z).lst ≡ has z xs

-- What an operation writes that puts `x` between `ls` and `rs`.
pub record Inserted (me x : ℕ) (ls rs : List ℕ) (s t : Dll) : Type 0 where
  pub nexts :
      (z : ℕ)
      → (t.links z).next ≡ (
          if z == x
          then first rs none
          else if same (last none ls) z
          then some x
          else (s.links z).next)
  pub prevs :
      (z : ℕ)
      → (t.links z).prev ≡ (
          if z == x
          then last none ls
          else if same (first rs none) z
          then some x
          else (s.links z).prev)
  pub lsts : (z : ℕ) → (t.links z).lst ≡ (if z == x then some me else (s.links z).lst)
  pub heads : t.head ≡ first ls (some x)
  pub tails : t.tail ≡ last (some x) rs
  pub counted : t.cnt ≡ s.cnt + 1

-- What an operation writes that takes `x` from between `ls` and `rs`.
pub record Deleted (x : ℕ) (ls rs : List ℕ) (s t : Dll) : Type 0 where
  pub nexts :
      (z : ℕ)
      → (t.links z).next ≡ (
          if z == x
          then none
          else if same (last none ls) z
          then first rs none
          else (s.links z).next)
  pub prevs :
      (z : ℕ)
      → (t.links z).prev ≡ (
          if z == x
          then none
          else if same (first rs none) z
          then last none ls
          else (s.links z).prev)
  pub lsts : (z : ℕ) → (t.links z).lst ≡ (if z == x then none else (s.links z).lst)
  pub heads : t.head ≡ first ls (first rs none)
  pub tails : t.tail ≡ last (last none ls) rs
  pub counted : t.cnt ≡ s.cnt - 1

-- A pointer that was not written.
pub unless : (p : Bool) (v w : Option ℕ) → p ≡ false → (if p then v else w) ≡ w
unless p v w h = rw h refl

pub written : (x : ℕ) (v w : Option ℕ) → (if x == x then v else w) ≡ v
written x v w = ground arith

-- The item at the end of one part is not in the other.
away_last :
    (ls rs : List ℕ) (z : ℕ)
    → ((y : ℕ) → has y ls ≡ true → has y rs ≡ false)
    → has z rs ≡ true
    → same (last none ls) z ≡ false
away_last [] rs z d m = refl
away_last (x ∷ ls) rs z d m = elim (Bool-cases (same (last (some x) ls) z)) [
  | inl e ↦ absurd (disagree m (d z (same-last x ls z e)))
  | inr e ↦ e
]

away_first :
    (ls rs : List ℕ) (z : ℕ)
    → ((y : ℕ) → has y ls ≡ true → has y rs ≡ false)
    → has z ls ≡ true
    → same (first rs none) z ≡ false
away_first ls [] z d m = refl
away_first ls (x ∷ rs) z d m = elim (Bool-cases (same (some x) z)) [
  | inl e ↦ absurd (disagree (same-first x rs z e) (d z m))
  | inr e ↦ e
]

-- The two parts after an operation on `x`, with the pointer `e` of the item before and `p` of the
-- item after.
pub nexts_around :
    (f f' : ℕ → Option ℕ) (x : ℕ) (v d e : Option ℕ) (ls rs : List ℕ)
    → Nodup (ls ++ rs)
    → has x (ls ++ rs) ≡ false
    → ((z : ℕ) → f' z ≡ (if z == x then v else if same (last none ls) z then e else f z))
    → Chain f ls d
    → Chain f rs none
    → Chain f' ls e × Chain f' rs none
nexts_around f f' x v d e ls rs n h w c k =
    let (front, (back, apart_parts)) = Nodup-split ls rs n in
    (
      Chain-relink f f' ls d e front
          (λ z m. w z ∙ unless (z == x) v _ (apart x z ls (ground (arith, has-append x ls rs)) m))
          c,
      Chain-congr f f' rs none
          (λ z m.
            w z
            ∙ unless (z == x) v _ (apart x z rs (ground (arith, has-append x ls rs)) m)
            ∙ unless (same (last none ls) z) e (f z) (away_last ls rs z apart_parts m))
          k,
    )

pub prevs_around :
    (g g' : ℕ → Option ℕ) (x : ℕ) (v d p : Option ℕ) (ls rs : List ℕ)
    → Nodup (ls ++ rs)
    → has x (ls ++ rs) ≡ false
    → ((z : ℕ) → g' z ≡ (if z == x then v else if same (first rs none) z then p else g z))
    → Back g none ls
    → Back g d rs
    → Back g' none ls × Back g' p rs
prevs_around g g' x v d p ls rs n h w c k =
    let (front, (back, apart_parts)) = Nodup-split ls rs n in
    (
      Back-congr g g' none ls
          (λ z m.
            w z
            ∙ unless (z == x) v _ (apart x z ls (ground (arith, has-append x ls rs)) m)
            ∙ unless (same (first rs none) z) p (g z) (away_first ls rs z apart_parts m))
          c,
      Back-relink g g' d p rs back
          (λ z m. w z ∙ unless (z == x) v _ (apart x z rs (ground (arith, has-append x ls rs)) m))
          k,
    )

-- The sequence without `x` has no item twice, and `x` not at all.
pub Nodup-without :
    (x : ℕ) (ls rs : List ℕ) → Nodup (ls ++ x ∷ rs) → Nodup (ls ++ rs) × (has x (ls ++ rs) ≡ false)
unfolding has
Nodup-without x ls rs n =
    let (front, (back, apart_parts)) = Nodup-split ls (x ∷ rs) n in
    (
      Nodup-append ls rs front back.1 (λ z m. ground (arith, apart_parts z m)),
      elim (Bool-cases (has x ls)) [
        | inl e ↦ absurd (disagree (ground arith) (apart_parts x e))
        | inr e ↦ ground (arith, has-append x ls rs, back.0)
      ],
    )

pub Nodup-with :
    (x : ℕ) (ls rs : List ℕ) → Nodup (ls ++ rs) → has x (ls ++ rs) ≡ false → Nodup (ls ++ x ∷ rs)
unfolding has
Nodup-with x ls rs n h =
    let (front, (back, apart_parts)) = Nodup-split ls rs n in
    Nodup-append ls (x ∷ rs) front (ground (arith, has-append x ls rs), back)
      (λ z m. ground (arith, apart_parts z m, apart x z ls (ground (arith, has-append x ls rs)) m))

pub has-insert : (z x : ℕ) (ls rs : List ℕ) → has z (ls ++ x ∷ rs) ≡ ((z == x) || has z (ls ++ rs))
unfolding has
has-insert z x ls rs = ground (arith, has-append z ls rs, has-append z ls (x ∷ rs))
