-- ===== src/Dll/Links/Splices.antt =====
-- aes_vfs/dll3.tcc: a list that holds a sequence still does after an item was put in or taken out.
use sqlite3gen.Base.{
  ℕ, ◌≡◌, sym, ◌∙◌, false, Option, none, some, List, ◌∷◌, ◌++◌, arith, length-append,
}
use sqlite3gen.Dll.Sequence.{has}
use sqlite3gen.Dll.Links.{Dll}
use sqlite3gen.Dll.Links.Chains.{
  first, last, Chain-append, Chain-split, Back-append, Back-split, first-append, last-append,
}
use sqlite3gen.Dll.Links.Represents.{
  Represents, Inserted, Deleted, nexts_around, prevs_around, Nodup-with, Nodup-without, has-insert,
  written,
}

pub Inserted-Represents :
    (me x : ℕ) (ls rs : List ℕ) (s t : Dll)
    → Represents me s (ls ++ rs)
    → has x (ls ++ rs) ≡ false
    → Inserted me x ls rs s t
    → Represents me t (ls ++ x ∷ rs)
Inserted-Represents me x ls rs s t r h i =
    let f : ℕ → Option ℕ = λ y. (s.links y).next in
    let f' : ℕ → Option ℕ = λ y. (t.links y).next in
    let g : ℕ → Option ℕ = λ y. (s.links y).prev in
    let g' : ℕ → Option ℕ = λ y. (t.links y).prev in
    let (c, k) = Chain-split f ls rs none r.nexts in
    let (b, d) = Back-split g none ls rs r.prevs in
    let (c', k') = nexts_around f f' x (first rs none) _ (some x) ls rs r.once h i.nexts c k in
    let (b', d') = prevs_around g g' x (last none ls) _ (some x) ls rs r.once h i.prevs b d in
    record {
      nexts = Chain-append f' ls (x ∷ rs) none c' (i.nexts x ∙ written x (first rs none) _, k');
      prevs = Back-append g' none ls (x ∷ rs) b' (i.prevs x ∙ written x (last none ls) _, d');
      heads = i.heads ∙ sym (first-append ls (x ∷ rs) none);
      tails = i.tails ∙ sym (last-append none ls (x ∷ rs));
      counted =
          i.counted ∙ omega (arith, r.counted, length-append ls rs, length-append ls (x ∷ rs));
      once = Nodup-with x ls rs r.once h;
      members = λ z. rw (i.lsts z, has-insert z x ls rs) ground (arith, r.members z);
    }

pub Deleted-Represents :
    (me x : ℕ) (ls rs : List ℕ) (s t : Dll)
    → Represents me s (ls ++ x ∷ rs)
    → Deleted x ls rs s t
    → Represents me t (ls ++ rs)
Deleted-Represents me x ls rs s t r i =
    let f : ℕ → Option ℕ = λ y. (s.links y).next in
    let f' : ℕ → Option ℕ = λ y. (t.links y).next in
    let g : ℕ → Option ℕ = λ y. (s.links y).prev in
    let g' : ℕ → Option ℕ = λ y. (t.links y).prev in
    let (n, h) = Nodup-without x ls rs r.once in
    let (c, k) = Chain-split f ls (x ∷ rs) none r.nexts in
    let (b, d) = Back-split g none ls (x ∷ rs) r.prevs in
    let (c', k') = nexts_around f f' x none _ (first rs none) ls rs n h i.nexts c k.1 in
    let (b', d') = prevs_around g g' x none _ (last none ls) ls rs n h i.prevs b d.1 in
    record {
      nexts = Chain-append f' ls rs none c' k';
      prevs = Back-append g' none ls rs b' d';
      heads = i.heads ∙ sym (first-append ls rs none);
      tails = i.tails ∙ sym (last-append none ls rs);
      counted =
          i.counted ∙ omega (arith, r.counted, length-append ls rs, length-append ls (x ∷ rs));
      once = n;
      members = λ z. rw (i.lsts z) ground (arith, r.members z, has-insert z x ls rs);
    }
