-- ===== src/Dll/Hash.antt =====
-- aes_vfs/dll3.h, dll3.tcc, dll3.cc: `DLL3::Hash`, a table of buckets that grows and shrinks.
-- A bucket is the sequence of its `DLL3::List`. `h` is the member of each item's links. `obj2hash`
-- and `key2hash` are those of `HashT`, whose results are below 2 ^ 32. `beyond` is the word behind the end
-- of `dll3_hash_primes`, which `_rehash` reads where the order gets to `dll3_num_hash_primes`; it is taken
-- for a number that is not negative.
pub mod Contents
use sqlite3gen.Base.{
  ℕ, zero, suc, ◌+◌, ◌-◌, ◌/◌, ◌%◌, List, [], ◌∷◌, Option, ltb, ◌&&◌, ◌==◌, if◌then◌else◌, get_or,
}
use sqlite3gen.Dll.Sequence.{add_tail, erase, find_first}

abbrev pub dll3_num_hash_primes : ℕ
dll3_num_hash_primes = 16

abbrev pub dll3_hash_primes : List ℕ
dll3_hash_primes =
    97 ∷ 251 ∷ 499 ∷ 997 ∷ 1999 ∷ 4999 ∷ 9973 ∷ 24989 ∷ 49999 ∷ 99991 ∷ 249989 ∷ 499979 ∷ 999983
    ∷ 2499997 ∷ 4999999 ∷ 9999991 ∷ []

pub record Hash : Type 0 where
  pub bucket : ℕ → List ℕ
  pub h : ℕ → ℕ
  pub hashorder : ℕ
  pub hashsize : ℕ
  pub cnt : ℕ

module _ (beyond : ℕ) where
  abbrev pub prime : ℕ → ℕ
  prime order = get_or dll3_hash_primes order beyond

  unfoldable pub new_hash : Hash
  new_hash = record {
    bucket = λ b. [];
    h = λ p. 0xffff_ffff;
    hashorder = 0;
    hashsize = prime 0;
    cnt = 0;
  }

  -- `_add`.
  unfoldable pub add_item : (obj2hash : ℕ → ℕ) → ℕ → Hash → Hash
  add_item obj2hash p t =
      let b = obj2hash p % t.hashsize in
      record t {
        bucket = λ i. if i == b then add_tail (t.bucket b) p else t.bucket i;
        h = λ q. if q == p then b else t.h q;
        cnt = t.cnt + 1;
      }

  -- `while (T * t = (*oldHash)[h].dequeue_head()) _add(t)`.
  unfoldable pub drain : (obj2hash : ℕ → ℕ) → List ℕ → Hash → Hash
  drain obj2hash [] t = t
  drain obj2hash (p ∷ ps) t = drain obj2hash ps (add_item obj2hash p t)

  unfoldable pub drain_all : (obj2hash : ℕ → ℕ) → (rounds i : ℕ) → (ℕ → List ℕ) → Hash → Hash
  unfolding drain
  drain_all obj2hash zero i old t = t
  drain_all obj2hash (suc rounds) i old t =
      drain_all obj2hash rounds (i + 1) old (drain obj2hash (old i) t)

  -- `_rehash`. The count goes on from what it was.
  unfoldable pub rehash_to : (obj2hash : ℕ → ℕ) → ℕ → Hash → Hash
  rehash_to obj2hash new_order t =
      drain_all obj2hash t.hashsize 0 t.bucket
        (record t { bucket = λ b. []; hashorder = new_order; hashsize = prime new_order })

  unfoldable pub rehash : (obj2hash : ℕ → ℕ) → Hash → Hash
  rehash obj2hash t =
      let average = t.cnt / t.hashsize in
      if ltb 5 average && ltb t.hashorder dll3_num_hash_primes
      then rehash_to obj2hash (t.hashorder + 1) t
      else if (average == 0) && ltb 0 t.hashorder
      then rehash_to obj2hash (t.hashorder - 1) t
      else t

  unfoldable pub add : (obj2hash : ℕ → ℕ) → ℕ → Hash → Hash
  unfolding add_item rehash
  add obj2hash p t = rehash obj2hash (add_item obj2hash p t)

  -- The bucket is that of the member `h`, which `_add` wrote.
  unfoldable pub remove : (obj2hash : ℕ → ℕ) → ℕ → Hash → Hash
  unfolding rehash
  remove obj2hash p t =
      let b = t.h p in
      rehash obj2hash (record t {
        bucket = λ i. if i == b then erase p (t.bucket b) else t.bucket i;
        cnt = t.cnt - 1;
      })

-- `hashMatch` compares the key of an item.
unfoldable pub find : (key2hash key : ℕ → ℕ) → ℕ → Hash → Option ℕ
find key2hash key k t = find_first key k (t.bucket (key2hash k % t.hashsize))
