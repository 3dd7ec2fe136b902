-- ===== src/Vfs/Index/Table.antt =====
-- aes_vfs/PageCache.h: the index of the cache is a `DLL3::Hash`, with the page numbers as hashes.
use sqlite3gen.Base.{ℕ, ◌<◌, ◌≡◌, ◌∙◌, ap, sym, true, List, arith, ◌%◌}
use sqlite3gen.Dll.Sequence.{has, has-add_tail, has-erase}
use sqlite3gen.Dll.Hash.{Hash, new_hash, add, remove, find}
use sqlite3gen.Dll.Hash.Contents.{Has, Has-congr, new_hash-Has, add-Has, remove-Has, find_lem}
use sqlite3gen.Vfs.Index.{PageIndex, IsPageIndex}

abbrev pub hash_index : (beyond : ℕ) → PageIndex
hash_index beyond = record {
  Index = Hash;
  empty = new_hash beyond;
  add = add beyond;
  remove = remove beyond;
  find = find (λ k. k);
}

Has-key :
    (key key' : ℕ → ℕ) (xs : List ℕ) (t : Hash)
    → ((p : ℕ) → has p xs ≡ true → key p ≡ key' p)
    → Has key (λ q. has q xs) t
    → Has key' (λ q. has q xs) t
Has-key key key' xs t e h = record {
  placed = λ b p. h.placed b p ∙ ground (arith, e p, ap (λ (k : ℕ). k % t.hashsize));
  marked = λ p m. h.marked p m ∙ ap (λ (k : ℕ). k % t.hashsize) (e p m);
  once = h.once;
  sized = h.sized;
}

-- The hash table is an index: it finds what a walk of the list of its items finds.
pub hash_index-IsPageIndex : (beyond : ℕ) → 0 < beyond → IsPageIndex (hash_index beyond)
unfolding has
hash_index-IsPageIndex beyond positive = record {
  Holds = λ key xs t. Has key (λ q. has q xs) t;
  holds-empty = λ key. new_hash-Has beyond key;
  holds-add = λ key xs h p c n new.
      Has-congr key _ _ _ (λ q. sym (has-add_tail q p xs))
        (add-Has beyond key _ p h positive new c);
  holds-remove = λ key xs h p c n old.
      Has-congr key _ _ _ (λ q. sym (has-erase q p xs n))
        (remove-Has beyond key _ p h positive old c);
  holds-find = λ key xs h k c distinct. find_lem (λ j. j) key xs k h distinct c;
  holds_congr = λ key key' xs h e c. Has-key key key' xs h e c;
}
