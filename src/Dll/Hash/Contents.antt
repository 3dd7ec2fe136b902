-- ===== src/Dll/Hash/Contents.antt =====
-- aes_vfs/dll3.tcc: the buckets of a table hold its items, by their keys.
use sqlite3gen.Base.{
  ℕ, zero, suc, ◌+◌, ◌-◌, ◌/◌, ◌%◌, ◌<◌, ◌≡◌, inl, inr, refl, sym, ◌∙◌, ap, subst, Bool, true,
  false, ◌&&◌, ◌||◌, not, List, [], ◌∷◌, some, arith, ltb, ◌==◌, if◌then◌else◌, get_or,
  Option-cases, Bool-cases,
}
use mathlib.Core.Path.{fun_ext}
use mathlib.Core.Bool.{false≢true}
use sqlite3gen.Dll.Sequence.{
  has, find_first, Nodup, has-add_tail, has-erase, Nodup-add_tail, Nodup-erase, find_first_sound,
  find_first-none, find_first_complete,
}
use sqlite3gen.Dll.Hash.{
  Hash, dll3_hash_primes, dll3_num_hash_primes, prime, new_hash, add_item, drain, drain_all,
  rehash_to, rehash, add, remove, find,
}

-- The table has the items of `set`, each in the bucket that its key selects.
pub record Has (key : ℕ → ℕ) (set : ℕ → Bool) (t : Hash) : Type 0 where
  pub placed : (b p : ℕ) → has p (t.bucket b) ≡ (set p && (key p % t.hashsize == b))
  pub marked : (p : ℕ) → set p ≡ true → t.h p ≡ key p % t.hashsize
  pub once : (b : ℕ) → Nodup (t.bucket b)
  pub sized : 0 < t.hashsize

pub Has-congr :
    (key : ℕ → ℕ) (set set' : ℕ → Bool) (t : Hash)
    → ((q : ℕ) → set q ≡ set' q)
    → Has key set t
    → Has key set' t
Has-congr key set set' t e h = subst (λ (f : ℕ → Bool). Has key f t) (fun_ext e) h

Nodup-if : (c : Bool) (xs ys : List ℕ) → Nodup xs → Nodup ys → Nodup (if c then xs else ys)
Nodup-if true xs ys a b = a
Nodup-if false xs ys a b = b

abbrev all_positive : List ℕ → Bool
all_positive [] = true
all_positive (x ∷ xs) = ltb 0 x && all_positive xs

get_or_positive : (xs : List ℕ) (i d : ℕ) → all_positive xs ≡ true → 0 < d → 0 < get_or xs i d
get_or_positive [] i d all h = h
get_or_positive (x ∷ xs) zero d all h = ground arith
get_or_positive (x ∷ xs) (suc i) d all h = get_or_positive xs i d (ground arith) h

module _ (beyond : ℕ) where
  add_item-Has :
      (key : ℕ → ℕ) (set : ℕ → Bool) (p : ℕ) (t : Hash)
      → set p ≡ false
      → Has key set t
      → Has key (λ q. set q || (q == p)) (add_item beyond key p t)
  unfolding add_item
  add_item-Has key set p t new h = record {
    placed = λ b q. ground (
      arith,
      h.placed b q,
      h.placed (key p % t.hashsize) q,
      has-add_tail q p (t.bucket (key p % t.hashsize)),
    );
    marked = λ q m. ground (arith, h.marked q);
    once = λ b.
        Nodup-if (b == key p % t.hashsize) _ _
          (Nodup-add_tail p (t.bucket (key p % t.hashsize))
            (ground (arith, h.placed (key p % t.hashsize) p)) (h.once (key p % t.hashsize)))
          (h.once b);
    sized = h.sized;
  }

  drain-Has :
      (key : ℕ → ℕ) (ps : List ℕ) (set : ℕ → Bool) (t : Hash)
      → Nodup ps
      → ((p : ℕ) → has p ps ≡ true → set p ≡ false)
      → Has key set t
      → Has key (λ q. set q || has q ps) (drain beyond key ps t)
  unfolding drain has
  drain-Has key [] set t n apart h = Has-congr key set _ t (λ q. ground arith) h
  drain-Has key (p ∷ ps) set t n apart h =
      Has-congr key (λ q. (set q || (q == p)) || has q ps) _ _ (λ q. ground arith)
        (drain-Has key ps (λ q. set q || (q == p)) (add_item beyond key p t) n.1
          (λ q m. ground (arith, apart q, n.0))
          (add_item-Has key set p t (apart p (ground arith)) h))

  drain_size :
      (key : ℕ → ℕ) (ps : List ℕ) (t : Hash) → (drain beyond key ps t).hashsize ≡ t.hashsize
  unfolding drain add_item
  drain_size key [] t = refl
  drain_size key (p ∷ ps) t = drain_size key ps (add_item beyond key p t)

  drain_all-Has :
      (key : ℕ → ℕ) (set : ℕ → Bool) (old : Hash) (rounds i : ℕ) (t : Hash)
      → Has key set old
      → Has key (λ q. set q && ltb (key q % old.hashsize) i) t
      → Has key
          (λ q. set q && ltb (key q % old.hashsize) (i + rounds))
          (drain_all beyond key rounds i old.bucket t)
  unfolding drain_all
  drain_all-Has key set old zero i t whole h = Has-congr key _ _ t (λ q. ground arith) h
  drain_all-Has key set old (suc rounds) i t whole h =
      Has-congr key (λ q. set q && ltb (key q % old.hashsize) (i + 1 + rounds)) _ _
        (λ q. ground arith)
        (drain_all-Has key set old rounds (i + 1) (drain beyond key (old.bucket i) t) whole (
          Has-congr key _ _ _ (λ q. ground (arith, whole.placed i q))
            (drain-Has key (old.bucket i) _ t (whole.once i)
              (λ p m. ground (arith, whole.placed i p)) h)))

  prime_positive : (order : ℕ) → 0 < beyond → 0 < prime beyond order
  prime_positive order positive = get_or_positive dll3_hash_primes order beyond refl positive

  -- A rehash to an order whose size is not zero keeps the items of the table, each in the bucket
  -- of the new size.
  pub rehash_to-Has :
      (key : ℕ → ℕ) (set : ℕ → Bool) (order : ℕ) (t : Hash)
      → 0 < prime beyond order
      → Has key set t
      → Has key set (rehash_to beyond key order t)
  unfolding rehash_to has
  rehash_to-Has key set order t sized h =
      Has-congr key _ set _ (λ q. ground (arith, h.sized))
        (drain_all-Has key set t t.hashsize 0 _ h record {
          placed = λ b p. ground arith;
          marked = λ p m. ground arith;
          once = λ b. tt;
          sized = sized;
        })

  pub rehash-Has :
      (key : ℕ → ℕ) (set : ℕ → Bool) (t : Hash)
      → 0 < beyond
      → Has key set t
      → Has key set (rehash beyond key t)
  unfolding rehash
  rehash-Has key set t positive h =
      elim (Bool-cases (ltb 5 (t.cnt / t.hashsize) && ltb t.hashorder dll3_num_hash_primes)) [
        | inl grow ↦
            rw (grow, rehash)
              (rehash_to-Has key set (t.hashorder + 1) t (prime_positive (t.hashorder + 1) positive)
                h)
        | inr stay ↦ elim (Bool-cases ((t.cnt / t.hashsize == 0) && ltb 0 t.hashorder)) [
          | inl shrink ↦
              rw (stay, shrink, rehash)
                (rehash_to-Has key set (t.hashorder - 1) t
                  (prime_positive (t.hashorder - 1) positive) h)
          | inr keep ↦ rw (stay, keep, rehash) h
        ]
      ]

  pub new_hash-Has : (key : ℕ → ℕ) → Has key (λ q. false) (new_hash beyond)
  unfolding new_hash has
  new_hash-Has key = record {
    placed = λ b p. refl;
    marked = λ p m. absurd (false≢true m);
    once = λ b. tt;
    sized = omega arith;
  }

  -- The addition of an item that is not in the table puts it into the bucket that its key selects,
  -- keeps all other items, and leaves no item twice in a bucket, with the rehash that it may
  -- start, where the word behind the table of primes is not zero.
  pub add-Has :
      (key : ℕ → ℕ) (set : ℕ → Bool) (p : ℕ) (t : Hash)
      → 0 < beyond
      → set p ≡ false
      → Has key set t
      → Has key (λ q. set q || (q == p)) (add beyond key p t)
  unfolding add
  add-Has key set p t positive new h =
      rehash-Has key _ (add_item beyond key p t) positive (add_item-Has key set p t new h)

  -- The removal of an item of the table takes out that item and no other, with the rehash that it
  -- may start, where the word behind the table of primes is not zero.
  pub remove-Has :
      (key : ℕ → ℕ) (set : ℕ → Bool) (p : ℕ) (t : Hash)
      → 0 < beyond
      → set p ≡ true
      → Has key set t
      → Has key (λ q. set q && not (q == p)) (remove beyond key p t)
  unfolding remove
  remove-Has key set p t positive old h = rehash-Has key _ _ positive record {
    placed = λ b q. ground (
      arith,
      h.placed b q,
      h.marked p,
      has-erase q p (t.bucket (t.h p)) (h.once (t.h p)),
      h.placed (t.h p) q,
    );
    marked = λ q m. h.marked q (ground arith);
    once = λ b.
        Nodup-if (b == t.h p) _ _ (Nodup-erase p (t.bucket (t.h p)) (h.once (t.h p))) (h.once b);
    sized = h.sized;
  }

-- A look-up in a table that has exactly the items of a list, no two with one key, finds what a
-- walk of the list finds.
pub find_lem :
    (key2hash key : ℕ → ℕ) (xs : List ℕ) (k : ℕ) (t : Hash)
    → ((p q : ℕ) → has p xs ≡ true → has q xs ≡ true → key p ≡ key q → p ≡ q)
    → Has (λ p. key2hash (key p)) (λ q. has q xs) t
    → find key2hash key k t ≡ find_first key k xs
unfolding find
find_lem key2hash key xs k t distinct h =
    elim (Option-cases (find_first key k (t.bucket (key2hash k % t.hashsize)))) [
      | inl absent ↦ elim (Option-cases (find_first key k xs)) [
        | inl none_too ↦ absent ∙ sym none_too
        | inr (p, e) ↦
            let (listed, at) = find_first_sound key k xs p e in
            absurd (
              find_first-none key k (t.bucket (key2hash k % t.hashsize)) p absent
                (h.placed (key2hash k % t.hashsize) p
                  ∙ ground (arith, ap (λ (j : ℕ). key2hash j % t.hashsize) at))
                at)
      ]
      | inr (p, e) ↦
          let (found, at) = find_first_sound key k (t.bucket (key2hash k % t.hashsize)) p e in
          let listed : has p xs ≡ true = ground (arith, h.placed (key2hash k % t.hashsize) p) in
          let (q, e') = find_first_complete key k xs p listed at in
          let (listed', at') = find_first_sound key k xs q e' in
          e ∙ ap some (distinct p q listed listed' (at ∙ sym at')) ∙ sym e'
    ]
