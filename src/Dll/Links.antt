-- ===== src/Dll/Links.antt =====
-- aes_vfs/dll3.h, dll3.tcc: `DLL3::List` with its links. An item and a list are named by numbers;
-- `me` is the list. The links of all items are a function from items, NULL is `none`. A `magic` is
-- right while its item lives; what `checkvalid` prints is `complaints`, and the warning of `lockwarn`,
-- which is off inside the other containers, is left out. `cnt` is below 2 ^ 31, and the `cnt--` of an
-- empty list stays at 0.
pub mod Chains
pub mod Represents
pub mod Splices
pub mod Fields
pub mod Runs
pub mod Walks
use sqlite3gen.Base.{
  ℕ, zero, suc, ◌+◌, ◌-◌, Bool, true, false, Option, none, some, List, [], ◌∷◌, ◌==◌, if◌then◌else◌,
}

pub record Links : Type 0 where
  pub next : Option ℕ
  pub prev : Option ℕ
  pub lst : Option ℕ

pub record Dll : Type 0 where
  pub links : ℕ → Links
  pub head : Option ℕ
  pub tail : Option ℕ
  pub cnt : ℕ

pub data ListError : Type 0 where
  already_on_list : ListError
  not_on_this_list : ListError

-- The assignments to the members of an item.
abbrev pub set_next : ℕ → Option ℕ → Dll → Dll
set_next x p s = record s {
  links = λ y. record (s.links y) { next = if y == x then p else (s.links y).next };
}

abbrev pub set_prev : ℕ → Option ℕ → Dll → Dll
set_prev x p s = record s {
  links = λ y. record (s.links y) { prev = if y == x then p else (s.links y).prev };
}

abbrev pub set_lst : ℕ → Option ℕ → Dll → Dll
set_lst x l s = record s {
  links = λ y. record (s.links y) { lst = if y == x then l else (s.links y).lst };
}

-- The constructors.
unfoldable pub new_links : Links
new_links = record { next = none; prev = none; lst = none }

unfoldable pub new_list : (ℕ → Links) → Dll
new_list links = record { links = links; head = none; tail = none; cnt = 0 }

-- `if (n) n->prev = v; else tail = v;`
abbrev pub point_back : Option ℕ → Option ℕ → Dll → Dll
point_back none v s = record s { tail = v }
point_back (some n) v s = set_prev n v s

-- `if (p) p->next = v; else head = v;`
abbrev pub point_on : Option ℕ → Option ℕ → Dll → Dll
point_on none v s = record s { head = v }
point_on (some p) v s = set_next p v s

-- `checkvalid(NULL)`, for an item that is to be added.
abbrev pub check_free : Option ℕ → List ListError
check_free none = []
check_free (some l) = already_on_list ∷ []

abbrev pub is_list : ℕ → Option ℕ → Bool
is_list me none = false
is_list me (some l) = l == me

module _ (me : ℕ) where
  unfoldable pub onlist : ℕ → Dll → Bool
  onlist item s = elim (s.links item).lst [ none ↦ false | some l ↦ true ]

  unfoldable pub onthislist : ℕ → Dll → Bool
  onthislist item s = is_list me (s.links item).lst

  -- `checkvalid(this)`, for an item of this list.
  unfoldable pub check_mine : ℕ → Dll → List ListError
  check_mine item s = if is_list me (s.links item).lst then [] else not_on_this_list ∷ []

  -- `_add_head`.
  unfoldable pub add_head : ℕ → Dll → Dll
  add_head item s =
      let s1 = set_prev item none (set_next item s.head s) in
      let s2 = point_back s.head (some item) s1 in
      set_lst item (some me) (record s2 { head = some item; cnt = s2.cnt + 1 })

  unfoldable pub add_tail : ℕ → Dll → Dll
  add_tail item s =
      let s1 = set_prev item s.tail (set_next item none s) in
      let s2 = point_on s.tail (some item) s1 in
      set_lst item (some me) (record s2 { tail = some item; cnt = s2.cnt + 1 })

  unfoldable pub add_before : (item existing : ℕ) → Dll → Dll
  add_before item existing s =
      let s1 = set_next item (some existing) (set_prev item (s.links existing).prev s) in
      let s2 = set_prev existing (some item) s1 in
      let s3 = point_on (s2.links item).prev (some item) s2 in
      set_lst item (some me) (record s3 { cnt = s3.cnt + 1 })

-- `_remove`.
unfoldable pub remove : ℕ → Dll → Dll
remove item s =
    let s1 = point_back (s.links item).next (s.links item).prev s in
    let s2 = point_on (s1.links item).prev (s1.links item).next s1 in
    let s3 = set_prev item none (set_next item none s2) in
    set_lst item none (record s3 { cnt = s3.cnt - 1 })

-- `if (item) _remove(item);`
abbrev pub remove_some : Option ℕ → Dll → Dll
remove_some none s = s
remove_some (some item) s = remove item s

unfoldable pub dequeue_head : Dll → Dll × Option ℕ
dequeue_head s = (remove_some s.head s, s.head)

-- It takes the head too.
unfoldable pub dequeue_tail : Dll → Dll × Option ℕ
dequeue_tail s = (remove_some s.head s, s.head)

unfoldable pub promote : ℕ → ℕ → Dll → Dll
promote me item s = add_head me item (remove item s)

unfoldable pub get_next : ℕ → Dll → Option ℕ
get_next item s = (s.links item).next

unfoldable pub get_prev : ℕ → Dll → Option ℕ
get_prev item s = (s.links item).prev

unfoldable pub get_head : Dll → Option ℕ
get_head s = s.head

unfoldable pub get_tail : Dll → Option ℕ
get_tail s = s.tail

unfoldable pub get_cnt : Dll → ℕ
get_cnt s = s.cnt
