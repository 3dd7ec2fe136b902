-- ===== src/Dll/Links/Runs/Refinement.antt =====
-- aes_vfs/dll3.h, dll3.tcc: a `DLL3::List` seen from outside is a sequence of items.
use sqlite3gen.Base.{
  ℕ, ◌≡◌, refl, sym, ◌∙◌, ap, subst, true, false, Option, none, some, List, [], ◌∷◌, ◌++◌, arith,
  Bool-cases, inl, inr, append_nil,
}
use sqlite3gen.Dll.Sequence.{has, Nodup, erase, insert_before}
use sqlite3gen.Dll.Sequence as Seq
use sqlite3gen.Dll.Sequence.Splits.{has-Split, erase-split, insert_before-split}
use sqlite3gen.Dll.Links.{
  Dll, Links, ListError, check_free, is_list, check_mine, add_head, add_tail, add_before, remove,
  remove_some, dequeue_head, dequeue_tail, promote, new_list,
}
use sqlite3gen.Dll.Links.Represents.{Represents, Nodup-without}
use sqlite3gen.Dll.Links.Splices.{Inserted-Represents, Deleted-Represents}
use sqlite3gen.Dll.Links.Runs.{
  ListOp, op_add_head, op_add_tail, op_add_before, op_remove, op_dequeue_head, op_dequeue_tail,
  op_promote, behead, complaints, call, call_sequence, run, run_sequence, Quiet,
}
use sqlite3gen.Dll.Links.Runs.Steps.{
  add_head-Inserted, add_tail-Inserted, add_before-Inserted, remove-Deleted,
}

pub free_of_list : (me : ℕ) (l : Option ℕ) → check_free l ≡ [] → is_list me l ≡ false
free_of_list me none h = refl
free_of_list me (some l) h = cc

-- An item that `checkvalid(NULL)` accepts is not on the list.
absent :
    (me x : ℕ) (s : Dll) (xs : List ℕ)
    → Represents me s xs
    → check_free (s.links x).lst ≡ []
    → has x xs ≡ false
absent me x s xs r h = sym (r.members x) ∙ free_of_list me (s.links x).lst h

-- An item that `checkvalid(this)` accepts is on the list.
present :
    (me x : ℕ) (s : Dll) (xs : List ℕ)
    → Represents me s xs
    → check_mine me x s ≡ []
    → has x xs ≡ true
unfolding check_mine
present me x s xs r h = elim (Bool-cases (is_list me (s.links x).lst)) [
  | inl e ↦ sym (r.members x) ∙ e
  | inr e ↦ cc
]

pub add_tail-Represents :
    (me x : ℕ) (s : Dll) (xs : List ℕ)
    → Represents me s xs
    → has x xs ≡ false
    → Represents me (add_tail me x s) (Seq.add_tail xs x)
add_tail-Represents me x s xs r h =
    let e = append_nil xs in
    Inserted-Represents me x xs [] s (add_tail me x s) (subst (λ ys. Represents me s ys) (sym e) r)
      (subst (λ ys. has x ys ≡ false) (sym e) h) (add_tail-Inserted me x s xs r h)

add_head-Represents :
    (me x : ℕ) (s : Dll) (xs : List ℕ)
    → Represents me s xs
    → has x xs ≡ false
    → Represents me (add_head me x s) (x ∷ xs)
add_head-Represents me x s xs r h =
    Inserted-Represents me x [] xs s (add_head me x s) r h (add_head-Inserted me x s xs r h)

add_before-Represents :
    (me x e : ℕ) (s : Dll) (xs : List ℕ)
    → Represents me s xs
    → has x xs ≡ false
    → has e xs ≡ true
    → Represents me (add_before me x e s) (insert_before x e xs)
add_before-Represents me x e s xs r h m =
    let (ls, (rs, (q, n))) = has-Split e xs m in
    let r' : Represents me s (ls ++ e ∷ rs) = subst (λ ys. Represents me s ys) q r in
    let h' : has x (ls ++ e ∷ rs) ≡ false = subst (λ ys. has x ys ≡ false) q h in
    subst (λ ys. Represents me (add_before me x e s) ys)
      (sym (ap (insert_before x e) q ∙ insert_before-split x e ls rs n))
      (Inserted-Represents me x ls (e ∷ rs) s (add_before me x e s) r' h'
        (add_before-Inserted me x e ls rs s r' h'))

-- The sequence after `_remove`, in which the item is no more.
pub remove-Represents :
    (me x : ℕ) (s : Dll) (xs : List ℕ)
    → Represents me s xs
    → has x xs ≡ true
    → Represents me (remove x s) (erase x xs) × (has x (erase x xs) ≡ false)
remove-Represents me x s xs r m =
    let (ls, (rs, (q, n))) = has-Split x xs m in
    let r' : Represents me s (ls ++ x ∷ rs) = subst (λ ys. Represents me s ys) q r in
    subst (λ ys. Represents me (remove x s) ys × (has x ys ≡ false))
      (sym (ap (erase x) q ∙ erase-split x ls rs n))
      (
        Deleted-Represents me x ls rs s (remove x s) r' (remove-Deleted me x ls rs s r'),
        (Nodup-without x ls rs r'.once).1,
      )

append-nil : (es fs : List ListError) → es ++ fs ≡ [] → (es ≡ []) × (fs ≡ [])
append-nil [] fs h = (refl, h)
append-nil (e ∷ es) fs h = cc

-- What one call does.
abbrev Simulates : ℕ → ListOp → Dll → List ℕ → Type 0
Simulates me op s xs =
    Represents me (call me op s).0 (call_sequence op xs).0
    × ((call me op s).1 ≡ (call_sequence op xs).1)

dequeue_sim :
    (me : ℕ) (s : Dll) (xs : List ℕ)
    → Represents me s xs
    → Represents me (remove_some s.head s) (behead xs).0 × (s.head ≡ (behead xs).1)
unfolding has
dequeue_sim me s [] r = (subst (λ h. Represents me (remove_some h s) []) (sym r.heads) r, r.heads)
dequeue_sim me s (x ∷ xs) r =
    let ys : Represents me (remove x s) xs =
      subst (λ ys. Represents me (remove x s) ys) (erase-split x [] xs refl)
        (remove-Represents me x s (x ∷ xs) r (ground arith)).0 in
    (subst (λ h. Represents me (remove_some h s) xs) (sym r.heads) ys, r.heads)

call_sim :
    (me : ℕ) (op : ListOp) (s : Dll) (xs : List ℕ)
    → Represents me s xs
    → complaints me op s ≡ []
    → Simulates me op s xs
unfolding complaints call call_sequence dequeue_head dequeue_tail promote
call_sim me (op_add_head x) s xs r h =
    (add_head-Represents me x s xs r (absent me x s xs r h), refl)
call_sim me (op_add_tail x) s xs r h =
    (add_tail-Represents me x s xs r (absent me x s xs r h), refl)
call_sim me (op_add_before x e) s xs r h =
    let (free, mine) = append-nil (check_free (s.links x).lst) (check_mine me e s) h in
    (add_before-Represents me x e s xs r (absent me x s xs r free) (present me e s xs r mine), refl)
call_sim me (op_remove x) s xs r h =
    ((remove-Represents me x s xs r (present me x s xs r h)).0, refl)
call_sim me op_dequeue_head s xs r h = dequeue_sim me s xs r
call_sim me op_dequeue_tail s xs r h = dequeue_sim me s xs r
call_sim me (op_promote x) s xs r h =
    let (gone, once) = remove-Represents me x s xs r (present me x s xs r h) in
    (add_head-Represents me x (remove x s) (erase x xs) gone once, refl)

-- Calls of a list whose links hold a sequence, in which no checkvalid prints an error, return the
-- items that the same calls return on the sequence, and leave links that hold the sequence that
-- these leave; a dequeue, of either end, takes the first item.
pub run-Represents :
    (me : ℕ) (ops : List ListOp) (s : Dll) (xs : List ℕ)
    → Represents me s xs
    → Quiet me ops s
    → Represents me (run me ops s).0 (run_sequence ops xs).0
      × ((run me ops s).1 ≡ (run_sequence ops xs).1)
unfolding call call_sequence
run-Represents me [] s xs r q = (r, refl)
run-Represents me (op ∷ ops) s xs r q =
    let (here, same_item) = call_sim me op s xs r q.0 in
    let (there, same_items) =
      run-Represents me ops (call me op s).0 (call_sequence op xs).0 here q.1 in
    (there, cc)

-- The empty list.
pub new_list-Represents :
    (me : ℕ) (links : ℕ → Links)
    → ((z : ℕ) → is_list me (links z).lst ≡ false)
    → Represents me (new_list links) []
unfolding new_list has
new_list-Represents me links h = record {
  nexts = tt;
  prevs = tt;
  heads = refl;
  tails = refl;
  counted = refl;
  once = tt;
  members = h;
}
