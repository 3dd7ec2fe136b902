-- ===== src/Vfs/Pages/Flush.antt =====
-- aes_vfs/PageCache.cc: `flush`. After it, the file alone shows what the client saw.
use sqlite3gen.Base.{
  ℕ, ◌*◌, ◌≤◌, ◌≡◌, inl, refl, sym, ◌∙◌, ap, subst, Bool, true, false, ◌&&◌, ◌||◌, not, List, [],
  ◌∷◌, arith, ◌==◌,
}
use mathlib.Core.Bool.{false≢true}
use native.Mathlib.Decide.{ℕ_discrete}
use sqlite3gen.Dll.Sequence.{has, find_first}
use sqlite3gen.Vfs.Memory.{Buffer, page_size_disk}
use sqlite3gen.Vfs.Platform.{Mbedtls, IsMbedtls, Posix, IsPosix}
use sqlite3gen.Vfs.Cipher.{PageCipher}
use sqlite3gen.Vfs.Disk.{DiskPage, flush}
use sqlite3gen.Vfs.Disk.Slots.{max_disk_pages, page_offset_lem, slot}
use sqlite3gen.Vfs.Index.{PageIndex, IsPageIndex}
use sqlite3gen.Vfs.Pages.{
  PageCache, number, new_cache, insert_by, sort_by, dirty_pages, write_back, flush_each,
  flush_pages,
}
use sqlite3gen.Vfs.Pages.Invariant.{
  on_disk, view, Inv, SameView, cached, uncached, view-Cached, SameView_refl, SameView_trans,
}
use sqlite3gen.Vfs.Pages.WriteBack.{write_back-Inv, write_back_view, write_back_cleans}

has-insert_by :
    (key : ℕ → ℕ) (q p : ℕ) (xs : List ℕ) → has q (insert_by key p xs) ≡ ((q == p) || has q xs)
unfolding has insert_by
has-insert_by key q p [] = refl
has-insert_by key q p (x ∷ xs) = ground (arith, has-insert_by key q p xs)

-- The sort changes the order only.
has-sort_by : (key : ℕ → ℕ) (q : ℕ) (xs : List ℕ) → has q (sort_by key xs) ≡ has q xs
unfolding has sort_by
has-sort_by key q [] = refl
has-sort_by key q (x ∷ xs) =
    has-insert_by key q x (sort_by key xs) ∙ ap (λ (b : Bool). (q == x) || b) (has-sort_by key q xs)

module _ (m : Mbedtls) (o : Posix) (ix : PageIndex) where
  has-dirty_pages :
      (page : ℕ → DiskPage) (q : ℕ) (xs : List ℕ)
      → has q (dirty_pages m o ix page xs) ≡ (has q xs && (page q).dirty)
  unfolding has dirty_pages
  has-dirty_pages page q [] = refl
  has-dirty_pages page q (x ∷ xs) = elim (ℕ_discrete q x) [
    | yes e ↦ ground (arith, has-dirty_pages page q xs, ap (λ (p : ℕ). (page p).dirty) e)
    | no ne ↦ ground (arith, has-dirty_pages page q xs)
  ]

  stays_clean :
      (p q : ℕ) (s : PageCache m o ix)
      → (s.page q).dirty ≡ false
      → ((write_back m o ix p s).page q).dirty ≡ false
  unfolding write_back flush
  stays_clean p q s h = ground arith

  same_list : (p : ℕ) (s : PageCache m o ix) → (write_back m o ix p s).page_list ≡ s.page_list
  unfolding write_back
  same_list p s = refl

  same_cipher : (p : ℕ) (s : PageCache m o ix) → (write_back m o ix p s).cipher ≡ s.cipher
  unfolding write_back
  same_cipher p s = refl

module _ (m : Mbedtls) (crypto : IsMbedtls m) (o : Posix) (law : IsPosix o) (ix : PageIndex)
    (ixl : IsPageIndex ix) (n : ℕ) where
  pub record Flushed (ps : List ℕ) (s t : PageCache m o ix) : Type 0 where
    pub inv : Inv m o ix law ixl n t
    pub view : SameView m o ix law s t
    pub list : t.page_list ≡ s.page_list
    pub cipher : t.cipher ≡ s.cipher
    pub clean : (p : ℕ) → (has p ps || not (s.page p).dirty) ≡ true → (t.page p).dirty ≡ false

  flush_each-Flushed :
      (ps : List ℕ) (s : PageCache m o ix)
      → Inv m o ix law ixl n s
      → ((p : ℕ) → has p ps ≡ true → has p s.page_list ≡ true)
      → Flushed ps s (flush_each m o ix ps s)
  unfolding flush_each has
  flush_each-Flushed [] s inv listed = record {
    inv = inv;
    view = SameView_refl m o ix law s;
    list = refl;
    cipher = refl;
    clean = λ p h. ground arith;
  }
  flush_each-Flushed (p ∷ ps) s inv listed =
      let s₁ = write_back m o ix p s in
      let here : has p s.page_list ≡ true = listed p (ground arith) in
      let rest =
        flush_each-Flushed ps s₁ (write_back-Inv m crypto o law ix ixl n p s inv here)
          (λ q h. ap (has q) (same_list m o ix p s) ∙ listed q (ground arith)) in
      record {
        inv = rest.inv;
        view =
            SameView_trans m o ix law s s₁ _ (write_back_view m crypto o law ix ixl n p s inv here)
              rest.view;
        list = rest.list ∙ same_list m o ix p s;
        cipher = rest.cipher ∙ same_cipher m o ix p s;
        clean = λ q h. rest.clean q (cleaned q h);
      }
    where
      cleaned :
          (q : ℕ)
          → (has q (p ∷ ps) || not (s.page q).dirty) ≡ true
          → (has q ps || not ((write_back m o ix p s).page q).dirty) ≡ true
      cleaned q h = elim (ℕ_discrete q p) [
        | yes e ↦ ground (
          arith,
          subst (λ (r : ℕ). ((write_back m o ix p s).page r).dirty ≡ false) (sym e)
              (write_back_cleans m o ix p s),
        )
        | no ne ↦ ground (arith, stays_clean m o ix p q s)
      ]

  pub flush_pages-Flushed :
      (s : PageCache m o ix) → Inv m o ix law ixl n s → Flushed s.page_list s (flush_pages m o ix s)
  unfolding flush_pages
  flush_pages-Flushed s inv =
      let all =
        flush_each-Flushed (sort_by (number m o ix s) (dirty_pages m o ix s.page s.page_list)) s inv
          (λ p h. ground (arith, listed p)) in
      record {
        inv = all.inv;
        view = all.view;
        list = all.list;
        cipher = all.cipher;
        clean = λ p h. all.clean p (ground (arith, listed p));
      }
    where
      listed :
          (p : ℕ)
          → has p (sort_by (number m o ix s) (dirty_pages m o ix s.page s.page_list))
            ≡ (has p s.page_list && (s.page p).dirty)
      listed p =
          has-sort_by (number m o ix s) p (dirty_pages m o ix s.page s.page_list)
          ∙ has-dirty_pages m o ix s.page p s.page_list

  -- A cache on a file that holds `n` pages.
  pub new_cache-Inv :
      (c : PageCipher) (f : o.File) (max_pages : ℕ)
      → n ≤ max_disk_pages
      → law.size f ≡ n * page_size_disk
      → Inv m o ix law ixl n (new_cache m o ix c f max_pages)
  unfolding new_cache has
  new_cache-Inv c f max_pages limit whole = record {
    holds = ixl.holds-empty _;
    nodup = tt;
    nodup_lru = tt;
    distinct = λ p q h _ _. absurd (false≢true h);
    allocated = λ p h. absurd (false≢true h);
    lru_listed = λ p h. absurd (false≢true h);
    small = λ p h. absurd (false≢true h);
    clean = λ p h _. absurd (false≢true h);
    below = λ p h _. absurd (false≢true h);
    limit = limit;
    kept = λ q h. inl (omega (arith, page_offset_lem q (omega arith), whole));
    extent = omega (arith, whole);
  }

  -- After a flush of a cache that keeps its invariant, a new cache on the file shows a client, for
  -- every page below 1040448, what the flushed cache showed before the flush, where no call on the
  -- file fails.
  pub new_cache-flush_pages :
      (s : PageCache m o ix) (max_pages : ℕ)
      → Inv m o ix law ixl n s
      → SameView m o ix law s (new_cache m o ix s.cipher (flush_pages m o ix s).file max_pages)
  unfolding new_cache has view find_first
  new_cache-flush_pages s max_pages inv q hq i hi =
      ap (λ (c : PageCipher). slot m o law c t.file q i) (sym done.cipher)
      ∙ stored
      ∙ done.view q hq i hi
    where
      t : PageCache m o ix
      t = flush_pages m o ix s

      done : Flushed s.page_list s t
      done = flush_pages-Flushed s inv

      stored : on_disk m o ix law t q i ≡ view m o ix law t q i
      stored = elim (view-Cached m o ix law t q) [
        | cached a h e v ↦
            let clean = done.clean a (ground (arith, ap (has a) done.list)) in
            sym (
              ap (λ (b : Buffer). b i) v
              ∙ subst (λ (k : ℕ). (t.page a).buffer i ≡ on_disk m o ix law t k i) e
                  (done.inv.clean a h clean i hi))
        | uncached absent v ↦ sym (ap (λ (b : Buffer). b i) v)
      ]
