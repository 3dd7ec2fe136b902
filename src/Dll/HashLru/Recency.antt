-- ===== src/Dll/HashLru/Recency.antt =====
-- aes_vfs/dll3.tcc: the list and the hash of a `DLL3::HashLRU` hold the same items, whatever is called.
use sqlite3gen.Base.{
  ℕ, ◌<◌, ◌≡◌, refl, sym, ◌∙◌, true, false, Option, none, List, [], ◌∷◌, arith, Bool-cases, inl,
  inr,
}
use mathlib.Core.Bool.{false≢true}
use sqlite3gen.Dll.Sequence.{
  has, Nodup, add_tail, erase, find_first, has-add_tail, has-erase, find_first-none,
}
use sqlite3gen.Dll.Links as Dll
use sqlite3gen.Dll.Links.{Links, check_free, is_list}
use sqlite3gen.Dll.Links.Represents.{Represents}
use sqlite3gen.Dll.Links.Runs.Refinement.{
  add_tail-Represents, remove-Represents, free_of_list, new_list-Represents,
}
use sqlite3gen.Dll.Hash.Contents.{Has, Has-congr, new_hash-Has, add-Has, remove-Has, find_lem}
use sqlite3gen.Dll.HashLru.{HashLru, check_mine, new_lru, add, remove, promote, find, get_oldest}
use sqlite3gen.Dll.HashLru.Runs.{
  LruOp, op_add, op_remove, op_promote, op_find, op_get_oldest, call, call_sequence, run,
  run_sequence, Fits, AllFit,
}

-- The list, the hash and `hlru` agree on the items, and no two of them have one key.
pub record Holds (me : ℕ) (key2hash key : ℕ → ℕ) (s : HashLru) (xs : List ℕ) : Type 0 where
  pub ordered : Represents me s.list xs
  pub hashed : Has (λ p. key2hash (key p)) (λ q. has q xs) s.hash
  pub owned : (z : ℕ) → is_list me (s.hlru z) ≡ has z xs
  pub distinct : (p q : ℕ) → has p xs ≡ true → has q xs ≡ true → key p ≡ key q → p ≡ q

mine_on_list : (me : ℕ) (l : Option ℕ) → check_mine me l ≡ [] → is_list me l ≡ true
mine_on_list me l h = elim (Bool-cases (is_list me l)) [ inl e ↦ e | inr e ↦ cc ]

module _ (beyond me : ℕ) (key2hash key : ℕ → ℕ) (positive : 0 < beyond) where
  add-Holds :
      (x : ℕ) (s : HashLru) (xs : List ℕ)
      → Holds me key2hash key s xs
      → check_free (s.hlru x) ≡ []
      → find key2hash key (key x) s ≡ none
      → Holds me key2hash key (add beyond me (λ p. key2hash (key p)) x s) (add_tail xs x)
  unfolding add find
  add-Holds x s xs r h f =
      let new : has x xs ≡ false = sym (r.owned x) ∙ free_of_list me (s.hlru x) h in
      let unused : find_first key (key x) xs ≡ none =
        sym (find_lem key2hash key xs (key x) s.hash r.distinct r.hashed) ∙ f in
      record {
        ordered = add_tail-Represents me x s.list xs r.ordered new;
        hashed =
            Has-congr (λ p. key2hash (key p)) _ _ _ (λ q. sym (has-add_tail q x xs))
              (add-Has beyond (λ p. key2hash (key p)) (λ q. has q xs) x s.hash positive new
                r.hashed);
        owned = λ z. ground (arith, r.owned z, has-add_tail z x xs);
        distinct = λ p q a b e. ground (
          arith,
          has-add_tail p x xs,
          has-add_tail q x xs,
          r.distinct p q,
          find_first-none key (key x) xs p unused,
          find_first-none key (key x) xs q unused,
        );
      }

  remove-Holds :
      (x : ℕ) (s : HashLru) (xs : List ℕ)
      → Holds me key2hash key s xs
      → check_mine me (s.hlru x) ≡ []
      → Holds me key2hash key (remove beyond me (λ p. key2hash (key p)) x s) (erase x xs)
  unfolding remove
  remove-Holds x s xs r h =
      let old : has x xs ≡ true = sym (r.owned x) ∙ mine_on_list me (s.hlru x) h in
      let once : Nodup xs = r.ordered.once in
      record {
        ordered = (remove-Represents me x s.list xs r.ordered old).0;
        hashed =
            Has-congr (λ p. key2hash (key p)) _ _ _ (λ q. sym (has-erase q x xs once))
              (remove-Has beyond (λ p. key2hash (key p)) (λ q. has q xs) x s.hash positive old
                r.hashed);
        owned = λ z. ground (arith, r.owned z, has-erase z x xs once);
        distinct = λ p q a b e.
            ground (arith, has-erase p x xs once, has-erase q x xs once, r.distinct p q);
      }

  promote-Holds :
      (x : ℕ) (s : HashLru) (xs : List ℕ)
      → Holds me key2hash key s xs
      → check_mine me (s.hlru x) ≡ []
      → Holds me key2hash key (promote me x s) (add_tail (erase x xs) x)
  unfolding promote
  promote-Holds x s xs r h =
      let old : has x xs ≡ true = sym (r.owned x) ∙ mine_on_list me (s.hlru x) h in
      let (gone, absent) = remove-Represents me x s.list xs r.ordered old in
      let same_items : (q : ℕ) → has q (add_tail (erase x xs) x) ≡ has q xs =
        λ q. ground (arith, old, has-add_tail q x (erase x xs), has-erase q x xs r.ordered.once) in
      record {
        ordered = add_tail-Represents me x (Dll.remove x s.list) (erase x xs) gone absent;
        hashed = Has-congr (λ p. key2hash (key p)) _ _ _ (λ q. sym (same_items q)) r.hashed;
        owned = λ z. r.owned z ∙ sym (same_items z);
        distinct = λ p q a b e. r.distinct p q (sym (same_items p) ∙ a) (sym (same_items q) ∙ b) e;
      }

  call_sim :
      (op : LruOp) (s : HashLru) (xs : List ℕ)
      → Holds me key2hash key s xs
      → Fits beyond me key2hash key op s
      → Holds me key2hash key (call beyond me key2hash key op s).0 (call_sequence key op xs).0
        × ((call beyond me key2hash key op s).1 ≡ (call_sequence key op xs).1)
  unfolding call call_sequence find get_oldest
  call_sim (op_add x) s xs r f = (add-Holds x s xs r f.0 f.1, refl)
  call_sim (op_remove x) s xs r f = (remove-Holds x s xs r f, refl)
  call_sim (op_promote x) s xs r f = (promote-Holds x s xs r f, refl)
  call_sim (op_find k) s xs r f = (r, find_lem key2hash key xs k s.hash r.distinct r.hashed)
  call_sim op_get_oldest s xs r f = (r, r.ordered.heads)

  -- Calls of a HashLRU whose list and hash hold the items of a sequence return what the same calls
  -- return on the sequence, in which an item that is added or promoted comes last and the oldest
  -- is the first, and leave a list and a hash that hold the sequence that these leave, where no
  -- checkvalid of the HashLRU prints an error, an item is added only after a look-up of its key
  -- found none, and the word behind the table of primes is not zero.
  pub run-Holds :
      (ops : List LruOp) (s : HashLru) (xs : List ℕ)
      → Holds me key2hash key s xs
      → AllFit beyond me key2hash key ops s
      → Holds me key2hash key (run beyond me key2hash key ops s).0 (run_sequence key ops xs).0
        × ((run beyond me key2hash key ops s).1 ≡ (run_sequence key ops xs).1)
  run-Holds [] s xs r f = (r, refl)
  run-Holds (op ∷ ops) s xs r f =
      let (here, same_item) = call_sim op s xs r f.0 in
      let (there, same_items) =
        run-Holds ops (call beyond me key2hash key op s).0 (call_sequence key op xs).0 here f.1 in
      (there, cc)

  pub new_lru-Holds :
      (links : ℕ → Links) (hlru : ℕ → Option ℕ)
      → ((z : ℕ) → is_list me (links z).lst ≡ false)
      → ((z : ℕ) → is_list me (hlru z) ≡ false)
      → Holds me key2hash key (new_lru beyond links hlru) []
  unfolding new_lru has
  new_lru-Holds links hlru h f = record {
    ordered = new_list-Represents me links h;
    hashed = new_hash-Has beyond (λ p. key2hash (key p));
    owned = f;
    distinct = λ p q a b e. absurd (false≢true a);
  }
