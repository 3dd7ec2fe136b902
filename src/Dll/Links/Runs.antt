-- ===== src/Dll/Links/Runs.antt =====
-- aes_vfs/dll3.tcc: the operations of a `DLL3::List`, one after another, and what they do to the
-- sequence that a client sees.
pub mod Steps
pub mod Refinement
use sqlite3gen.Base.{ℕ, ◌≡◌, refl, Bool, true, false, Option, none, some, List, [], ◌∷◌, ◌++◌}
use sqlite3gen.Dll.Sequence.{has, erase, insert_before}
use sqlite3gen.Dll.Sequence as Seq
use sqlite3gen.Dll.Links.{
  Dll, ListError, check_free, check_mine, add_head, add_tail, add_before, remove, dequeue_head,
  dequeue_tail, promote,
}

-- The calls of a client that change the list.
pub data ListOp : Type 0 where
  op_add_head : ℕ → ListOp
  op_add_tail : ℕ → ListOp
  op_add_before : (item existing : ℕ) → ListOp
  op_remove : ℕ → ListOp
  op_dequeue_head : ListOp
  op_dequeue_tail : ListOp
  op_promote : ℕ → ListOp

-- What `checkvalid` prints in a call.
unfoldable pub complaints : ℕ → ListOp → Dll → List ListError
complaints me (op_add_head item) s = check_free (s.links item).lst
complaints me (op_add_tail item) s = check_free (s.links item).lst
complaints me (op_add_before item existing) s =
    check_free (s.links item).lst ++ check_mine me existing s
complaints me (op_remove item) s = check_mine me item s
complaints me op_dequeue_head s = []
complaints me op_dequeue_tail s = []
complaints me (op_promote item) s = check_mine me item s

-- The list after a call, and the item that the call returns.
unfoldable pub call : ℕ → ListOp → Dll → Dll × Option ℕ
call me (op_add_head item) s = (add_head me item s, none)
call me (op_add_tail item) s = (add_tail me item s, none)
call me (op_add_before item existing) s = (add_before me item existing s, none)
call me (op_remove item) s = (remove item s, none)
call me op_dequeue_head s = dequeue_head s
call me op_dequeue_tail s = dequeue_tail s
call me (op_promote item) s = (promote me item s, none)

abbrev pub behead : List ℕ → List ℕ × Option ℕ
behead [] = ([], none)
behead (x ∷ xs) = (xs, some x)

-- The same call on the sequence of the items.
unfoldable pub call_sequence : ListOp → List ℕ → List ℕ × Option ℕ
call_sequence (op_add_head item) xs = (item ∷ xs, none)
call_sequence (op_add_tail item) xs = (Seq.add_tail xs item, none)
call_sequence (op_add_before item existing) xs = (insert_before item existing xs, none)
call_sequence (op_remove item) xs = (erase item xs, none)
call_sequence op_dequeue_head xs = behead xs
call_sequence op_dequeue_tail xs = behead xs
call_sequence (op_promote item) xs = (item ∷ erase item xs, none)

abbrev pub run : ℕ → List ListOp → Dll → Dll × List (Option ℕ)
run me [] s = (s, [])
run me (op ∷ ops) s = let (t, r) = call me op s in let (u, rs) = run me ops t in (u, r ∷ rs)

abbrev pub run_sequence : List ListOp → List ℕ → List ℕ × List (Option ℕ)
run_sequence [] xs = (xs, [])
run_sequence (op ∷ ops) xs =
    let (ys, r) = call_sequence op xs in let (zs, rs) = run_sequence ops ys in (zs, r ∷ rs)

-- No call prints an error.
abbrev pub Quiet : ℕ → List ListOp → Dll → Type 0
Quiet me [] s = Unit {0}
Quiet me (op ∷ ops) s = (complaints me op s ≡ []) × Quiet me ops (call me op s).0
