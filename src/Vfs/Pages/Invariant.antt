-- ===== src/Vfs/Pages/Invariant.antt =====
-- aes_vfs/PageCache.cc: what holds between two calls of the cache, and the file that a client
-- sees through it.
use sqlite3gen.Base.{
  ℕ, ◌*◌, ◌≤◌, ◌<◌, ◌≡◌, ◌≢◌, ◌⊎◌, inl, inr, refl, sym, ap, ◌∙◌, true, false, none, some, List,
  Option-cases,
}
use sqlite3gen.Dll.Sequence.{has, find_first, Nodup, find_first_sound, find_first-none}
use sqlite3gen.Vfs.Memory.{Buffer, Agree, page_size, page_size_disk}
use sqlite3gen.Vfs.Platform.{Mbedtls, Posix, IsPosix}
use sqlite3gen.Vfs.Disk.Slots.{max_disk_pages, IsStored, slot}
use sqlite3gen.Vfs.Index.{PageIndex, IsPageIndex, DistinctKeys}
use sqlite3gen.Vfs.Pages.{PageCache, number}

module _ (m : Mbedtls) (o : Posix) (ix : PageIndex) (law : IsPosix o) where
  abbrev pub on_disk : PageCache m o ix → ℕ → Buffer
  on_disk s q = slot m o law s.cipher s.file q

  -- The contents of page `q` for a client: those of the cached page, else those on disk.
  unfoldable pub view : PageCache m o ix → ℕ → Buffer
  view s q = elim (find_first (number m o ix s) q s.page_list) [
    | some p ↦ (s.page p).buffer
    | none ↦ on_disk s q
  ]

  -- Page `q` is in the file, or a cached page that is still to be written.
  abbrev pub IsKept : PageCache m o ix → ℕ → Type 0
  IsKept s q =
      IsStored m o law s.cipher s.file q
      ⊎ ((p : ℕ) × (has p s.page_list ≡ true)
          × ((s.page p).page_number ≡ q)
          × ((s.page p).dirty ≡ true))

  -- `n` is the number of pages that the client has written, from page 0 on.
  pub record Inv (ixl : IsPageIndex ix) (n : ℕ) (s : PageCache m o ix) : Type 0 where
    pub holds : ixl.Holds (number m o ix s) s.page_list s.page_hash
    pub nodup : Nodup s.page_list
    pub nodup_lru : Nodup s.page_lru
    pub distinct : DistinctKeys (number m o ix s) s.page_list
    pub allocated : (p : ℕ) → has p s.page_list ≡ true → p < s.next_ptr
    pub lru_listed : (p : ℕ) → has p s.page_lru ≡ true → has p s.page_list ≡ true
    pub small : (p : ℕ) → has p s.page_list ≡ true → (s.page p).page_number < max_disk_pages
    pub clean :
        (p : ℕ)
        → has p s.page_list ≡ true
        → (s.page p).dirty ≡ false
        → Agree page_size (s.page p).buffer (on_disk s (s.page p).page_number)
    pub below :
        (p : ℕ) → has p s.page_list ≡ true → (s.page p).dirty ≡ true → (s.page p).page_number < n
    pub limit : n ≤ max_disk_pages
    pub kept : (q : ℕ) → q < n → IsKept s q
    pub extent : law.size s.file ≤ n * page_size_disk

  -- Two states of the cache look alike to a client.
  abbrev pub SameView : PageCache m o ix → PageCache m o ix → Type 0
  SameView s t = (q : ℕ) → q < max_disk_pages → Agree page_size (view t q) (view s q)

  pub data Cached (s : PageCache m o ix) (q : ℕ) : Type 0 where
    cached :
        (p : ℕ)
        → has p s.page_list ≡ true
        → (s.page p).page_number ≡ q
        → view s q ≡ (s.page p).buffer
        → Cached s q
    uncached :
        ((p : ℕ) → has p s.page_list ≡ true → (s.page p).page_number ≢ q)
        → view s q ≡ on_disk s q
        → Cached s q

  pub view-Cached : (s : PageCache m o ix) (q : ℕ) → Cached s q
  unfolding view
  view-Cached s q = elim (Option-cases (find_first (number m o ix s) q s.page_list)) [
    | inl e ↦ uncached (λ p h. find_first-none _ q s.page_list p e h) (rw (e, view) refl)
    | inr (p, e) ↦
        let (h, k) = find_first_sound _ q s.page_list p e in cached p h k (rw (e, view) refl)
  ]

  -- A cached page is what the client sees under its number.
  pub view_at :
      (s : PageCache m o ix) (p q : ℕ)
      → DistinctKeys (number m o ix s) s.page_list
      → has p s.page_list ≡ true
      → (s.page p).page_number ≡ q
      → view s q ≡ (s.page p).buffer
  view_at s p q distinct h e = elim (view-Cached s q) [
    | cached a ha ea v ↦ v ∙ ap (λ (t : ℕ). (s.page t).buffer) (distinct a p ha h (ea ∙ sym e))
    | uncached absent v ↦ absurd (absent p h e)
  ]

  pub view_absent :
      (s : PageCache m o ix) (q : ℕ)
      → ((p : ℕ) → has p s.page_list ≡ true → (s.page p).page_number ≢ q)
      → view s q ≡ on_disk s q
  view_absent s q absent = elim (view-Cached s q) [
    | cached a ha ea v ↦ absurd (absent a ha ea)
    | uncached _ v ↦ v
  ]

  pub SameView_refl : (s : PageCache m o ix) → SameView s s
  SameView_refl s q h i hi = refl

  pub SameView_trans : (s t u : PageCache m o ix) → SameView s t → SameView t u → SameView s u
  SameView_trans s t u a b q h i hi = b q h i hi ∙ a q h i hi

  -- The list of idle pages may be any part of the list of pages.
  pub relink-Inv :
      (ixl : IsPageIndex ix) (n : ℕ) (s : PageCache m o ix) (lru : List ℕ)
      → Inv ixl n s
      → Nodup lru
      → ((p : ℕ) → has p lru ≡ true → has p s.page_list ≡ true)
      → Inv ixl n (record s { page_lru = lru })
  relink-Inv ixl n s lru inv nodup listed = record {
    holds = inv.holds;
    nodup = inv.nodup;
    nodup_lru = nodup;
    distinct = inv.distinct;
    allocated = inv.allocated;
    lru_listed = listed;
    small = inv.small;
    clean = inv.clean;
    below = inv.below;
    limit = inv.limit;
    kept = inv.kept;
    extent = inv.extent;
  }
