-- ===== src/Dll/HashLru.antt =====
-- aes_vfs/dll3.h, dll3.tcc: `DLL3::HashLRU`, a list in the order of use beside a hash of the same items.
-- The links of an item have three parts: those of the list, those of the hash, and `hlru`. The code
-- leaves `hlru` unset in a new item; here the links that a run starts with say what it is. `me` names
-- the HashLRU, and the list in it.
pub mod Runs
pub mod Recency
use sqlite3gen.Base.{ℕ, List, [], ◌∷◌, Option, none, some, ◌==◌, if◌then◌else◌}
use sqlite3gen.Dll.Links as Dll
use sqlite3gen.Dll.Links.{Links, ListError, check_free, is_list, new_list}
use sqlite3gen.Dll.Hash as Hash

pub record HashLru : Type 0 where
  pub list : Dll.Dll
  pub hash : Hash.Hash
  pub hlru : ℕ → Option ℕ

abbrev pub set_hlru : ℕ → Option ℕ → HashLru → HashLru
set_hlru item l s = record s { hlru = λ y. if y == item then l else s.hlru y }

-- `checkvalid(this)`.
abbrev pub check_mine : (me : ℕ) → Option ℕ → List ListError
check_mine me l = if is_list me l then [] else Dll.not_on_this_list ∷ []

module _ (beyond : ℕ) where
  unfoldable pub new_lru : (ℕ → Links) → (ℕ → Option ℕ) → HashLru
  unfolding new_list Hash.new_hash
  new_lru links hlru = record { list = new_list links; hash = Hash.new_hash beyond; hlru = hlru }

  module _ (me : ℕ) (obj2hash : ℕ → ℕ) where
    unfoldable pub add : ℕ → HashLru → HashLru
    unfolding Dll.add_tail Hash.add
    add item s = set_hlru item (some me) (record s {
      list = Dll.add_tail me item s.list;
      hash = Hash.add beyond obj2hash item s.hash;
    })

    unfoldable pub remove : ℕ → HashLru → HashLru
    unfolding Dll.remove Hash.remove
    remove item s =
        set_hlru item none (record s {
          list = Dll.remove item s.list;
          hash = Hash.remove beyond obj2hash item s.hash;
        })

unfoldable pub promote : (me item : ℕ) → HashLru → HashLru
unfolding Dll.remove Dll.add_tail
promote me item s = record s { list = Dll.add_tail me item (Dll.remove item s.list) }

unfoldable pub find : (key2hash key : ℕ → ℕ) → ℕ → HashLru → Option ℕ
unfolding Hash.find
find key2hash key k s = Hash.find key2hash key k s.hash

unfoldable pub get_oldest : HashLru → Option ℕ
get_oldest s = s.list.head
