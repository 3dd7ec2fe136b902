-- ===== src/Dll/Links/Runs/Steps.antt =====
-- aes_vfs/dll3.tcc: every operation of a `DLL3::List` puts one item into the sequence or takes one out
-- of it.
use sqlite3gen.Base.{
  ℕ, ◌+◌, ◌-◌, ◌≡◌, refl, sym, ◌∙◌, ap, subst, false, none, some, List, [], ◌∷◌, ◌++◌, arith, ◌==◌,
  if◌then◌else◌,
}
use sqlite3gen.Dll.Sequence.{has}
use sqlite3gen.Dll.Sequence.Splits.{has-append}
use sqlite3gen.Dll.Links.{
  Dll, add_head, add_tail, add_before, remove, set_next, set_prev, point_back,
}
use sqlite3gen.Dll.Links.Chains.{
  first, first-append, last, same, Chain-split, Back-split, last-append,
}
use sqlite3gen.Dll.Links.Represents.{Represents, Inserted, Deleted, unless, written}
use sqlite3gen.Dll.Links.Fields.{
  next-point_back, prev-point_back, lst-point_back, head-point_back, tail-point_back,
  cnt-point_back, next-point_on, prev-point_on, lst-point_on, head-point_on, tail-point_on,
  cnt-point_on, swap, unlinked, instead, remove-unlinked, same-first_absent, same-last_absent,
  instead-first, instead-last,
}

pub add_head-Inserted :
    (me x : ℕ) (s : Dll) (xs : List ℕ)
    → Represents me s xs
    → has x xs ≡ false
    → Inserted me x [] xs s (add_head me x s)
unfolding add_head
add_head-Inserted me x s xs r h =
    let s1 = set_prev x none (set_next x s.head s) in
    record {
      nexts = λ z.
          next-point_back (some x) s1 z s.head
          ∙ ap (λ e. if z == x then e else (s.links z).next) r.heads;
      prevs = λ z.
          prev-point_back (some x) s1 z s.head
          ∙ swap (z == x) (same s.head z) (some x) none (s.links z).prev
              (λ e. ap (λ y. same y z) r.heads ∙ same-first_absent x z xs h e)
          ∙ ap (λ y. if z == x then none else if same y z then some x else (s.links z).prev)
              r.heads;
      lsts = λ z. ap (λ l. if z == x then some me else l) (lst-point_back (some x) s1 z s.head);
      heads = refl;
      tails =
          tail-point_back (some x) s1 s.head
          ∙ ap (λ y. instead y (some x) s.tail) r.heads
          ∙ instead-first none (some x) s.tail xs r.tails;
      counted = ap (λ c. c + 1) (cnt-point_back (some x) s1 s.head);
    }

pub add_tail-Inserted :
    (me x : ℕ) (s : Dll) (xs : List ℕ)
    → Represents me s xs
    → has x xs ≡ false
    → Inserted me x xs [] s (add_tail me x s)
unfolding add_tail
add_tail-Inserted me x s xs r h =
    let s1 = set_prev x s.tail (set_next x none s) in
    record {
      nexts = λ z.
          next-point_on (some x) s1 z s.tail
          ∙ swap (z == x) (same s.tail z) (some x) none (s.links z).next
              (λ e. ap (λ y. same y z) r.tails ∙ same-last_absent x z xs h e)
          ∙ ap (λ y. if z == x then none else if same y z then some x else (s.links z).next)
              r.tails;
      prevs = λ z.
          prev-point_on (some x) s1 z s.tail
          ∙ ap (λ e. if z == x then e else (s.links z).prev) r.tails;
      lsts = λ z. ap (λ l. if z == x then some me else l) (lst-point_on (some x) s1 z s.tail);
      heads =
          head-point_on (some x) s1 s.tail
          ∙ ap (λ y. instead y (some x) s.head) r.tails
          ∙ instead-last none (some x) s.head xs r.heads;
      tails = refl;
      counted = ap (λ c. c + 1) (cnt-point_on (some x) s1 s.tail);
    }

unlinked-Deleted :
    (me x : ℕ) (ls rs : List ℕ) (s : Dll)
    → Represents me s (ls ++ x ∷ rs)
    → Deleted x ls rs s (unlinked x (first rs none) (last none ls) s)
unlinked-Deleted me x ls rs s r =
    let n = first rs none in
    let p = last none ls in
    let s1 = point_back n p s in
    record {
      nexts = λ z.
          ap (λ e. if z == x then none else e)
            (next-point_on n s1 z p
              ∙ ap (λ e. if same p z then n else e) (next-point_back p s z n));
      prevs = λ z.
          ap (λ e. if z == x then none else e) (prev-point_on n s1 z p ∙ prev-point_back p s z n);
      lsts = λ z.
          ap (λ e. if z == x then none else e) (lst-point_on n s1 z p ∙ lst-point_back p s z n);
      heads =
          head-point_on n s1 p
          ∙ ap (instead p n) (head-point_back p s n)
          ∙ instead-last (some x) n s.head ls (r.heads ∙ first-append ls (x ∷ rs) none);
      tails =
          tail-point_on n s1 p
          ∙ tail-point_back p s n
          ∙ instead-first (some x) p s.tail rs (r.tails ∙ last-append none ls (x ∷ rs));
      counted = ap (λ c. c - 1) (cnt-point_on n s1 p ∙ cnt-point_back p s n);
    }

pub remove-Deleted :
    (me x : ℕ) (ls rs : List ℕ) (s : Dll)
    → Represents me s (ls ++ x ∷ rs)
    → Deleted x ls rs s (remove x s)
remove-Deleted me x ls rs s r =
    let n : (s.links x).next ≡ first rs none =
      (Chain-split (λ y. (s.links y).next) ls (x ∷ rs) none r.nexts).1.0 in
    let p : (s.links x).prev ≡ last none ls =
      (Back-split (λ y. (s.links y).prev) none ls (x ∷ rs) r.prevs).1.0 in
    let e : remove x s ≡ unlinked x (first rs none) (last none ls) s =
      remove-unlinked x s
      ∙ ap (λ y. unlinked x y (s.links x).prev s) n
      ∙ ap (λ y. unlinked x (first rs none) y s) p in
    subst (λ t. Deleted x ls rs s t) (sym e) (unlinked-Deleted me x ls rs s r)

pub add_before-Inserted :
    (me x e : ℕ) (ls rs : List ℕ) (s : Dll)
    → Represents me s (ls ++ e ∷ rs)
    → has x (ls ++ e ∷ rs) ≡ false
    → Inserted me x ls (e ∷ rs) s (add_before me x e s)
unfolding add_before has
add_before-Inserted me x e ls rs s r h =
    let b = (s.links e).prev in
    let s2 = set_prev e (some x) (set_next x (some e) (set_prev x b s)) in
    let p : b ≡ last none ls = (Back-split (λ y. (s.links y).prev) none ls (e ∷ rs) r.prevs).1.0 in
    let front : has x ls ≡ false = ground (arith, has-append x ls (e ∷ rs)) in
    let back : has x (e ∷ rs) ≡ false = ground (arith, has-append x ls (e ∷ rs)) in
    let q : (s2.links x).prev ≡ last none ls =
      unless (x == e) (some x) (if x == x then b else (s.links x).prev) (ground (arith, back))
      ∙ written x b (s.links x).prev
      ∙ p in
    record {
      nexts = λ z.
          next-point_on (some x) s2 z (s2.links x).prev
          ∙ ap (λ y. if same y z then some x else if z == x then some e else (s.links z).next) q
          ∙ swap (z == x) (same (last none ls) z) (some x) (some e) (s.links z).next
              (same-last_absent x z ls front);
      prevs = λ z.
          prev-point_on (some x) s2 z (s2.links x).prev
          ∙ swap (z == x) (z == e) (some x) b (s.links z).prev (same-first_absent x z (e ∷ rs) back)
          ∙ ap (λ y. if z == x then y else if z == e then some x else (s.links z).prev) p;
      lsts = λ z.
          ap (λ l. if z == x then some me else l) (lst-point_on (some x) s2 z (s2.links x).prev);
      heads =
          head-point_on (some x) s2 (s2.links x).prev
          ∙ ap (λ y. instead y (some x) s.head) q
          ∙ instead-last (some e) (some x) s.head ls (r.heads ∙ first-append ls (e ∷ rs) none);
      tails = tail-point_on (some x) s2 (s2.links x).prev ∙ r.tails ∙ last-append none ls (e ∷ rs);
      counted = ap (λ c. c + 1) (cnt-point_on (some x) s2 (s2.links x).prev);
    }
