-- ===== src/Dll/HashLru/Runs.antt =====
-- aes_vfs/dll3.tcc: the calls of a `DLL3::HashLRU`, one after another, and the sequence of its items, the
-- one used longest ago first.
use sqlite3gen.Base.{ℕ, ◌≡◌, List, [], ◌∷◌, Option, none}
use sqlite3gen.Dll.Sequence.{add_tail, erase, find_first}
use sqlite3gen.Dll.Links.{check_free}
use sqlite3gen.Dll.Links.Chains.{first}
use sqlite3gen.Dll.HashLru.{HashLru, check_mine, add, remove, promote, find, get_oldest}

pub data LruOp : Type 0 where
  op_add : ℕ → LruOp
  op_remove : ℕ → LruOp
  op_promote : ℕ → LruOp
  op_find : ℕ → LruOp
  op_get_oldest : LruOp

module _ (beyond me : ℕ) (key2hash key : ℕ → ℕ) where
  -- The hash of an item is that of its key.
  abbrev pub obj2hash : ℕ → ℕ
  obj2hash p = key2hash (key p)

  unfoldable pub call : LruOp → HashLru → HashLru × Option ℕ
  unfolding add remove promote find get_oldest
  call (op_add item) s = (add beyond me obj2hash item s, none)
  call (op_remove item) s = (remove beyond me obj2hash item s, none)
  call (op_promote item) s = (promote me item s, none)
  call (op_find k) s = (s, find key2hash key k s)
  call op_get_oldest s = (s, get_oldest s)

  abbrev pub run : List LruOp → HashLru → HashLru × List (Option ℕ)
  run [] s = (s, [])
  run (op ∷ ops) s = let (t, r) = call op s in let (u, rs) = run ops t in (u, r ∷ rs)

  -- The `checkvalid` of the call prints nothing, and an item is added only where none has its key.
  abbrev pub Fits : LruOp → HashLru → Type 0
  Fits (op_add item) s = (check_free (s.hlru item) ≡ []) × (find key2hash key (key item) s ≡ none)
  Fits (op_remove item) s = check_mine me (s.hlru item) ≡ []
  Fits (op_promote item) s = check_mine me (s.hlru item) ≡ []
  Fits (op_find k) s = Unit {0}
  Fits op_get_oldest s = Unit {0}

  abbrev pub AllFit : List LruOp → HashLru → Type 0
  AllFit [] s = Unit {0}
  AllFit (op ∷ ops) s = Fits op s × AllFit ops (call op s).0

module _ (key : ℕ → ℕ) where
  -- The same call on the sequence: what is used comes last.
  unfoldable pub call_sequence : LruOp → List ℕ → List ℕ × Option ℕ
  unfolding erase find_first
  call_sequence (op_add item) xs = (add_tail xs item, none)
  call_sequence (op_remove item) xs = (erase item xs, none)
  call_sequence (op_promote item) xs = (add_tail (erase item xs) item, none)
  call_sequence (op_find k) xs = (xs, find_first key k xs)
  call_sequence op_get_oldest xs = (xs, first xs none)

  abbrev pub run_sequence : List LruOp → List ℕ → List ℕ × List (Option ℕ)
  run_sequence [] xs = (xs, [])
  run_sequence (op ∷ ops) xs =
      let (ys, r) = call_sequence op xs in let (zs, rs) = run_sequence ops ys in (zs, r ∷ rs)
