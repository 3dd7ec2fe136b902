-- ===== src/Vfs/Pages/WriteBack.antt =====
-- aes_vfs/PageCache.cc: writing one page back keeps the invariant and shows a client no change.
use sqlite3gen.Base.{
  ℕ, ◌+◌, ◌≤◌, ◌<◌, ◌≡◌, ◌≢◌, ◌⊎◌, inl, inr, refl, sym, ◌∙◌, ap, true, false, arith, Bool-cases,
  max, subst,
}
use mathlib.Core.Path.{fun_ext}
use mathlib.Core.Bool.{false≢true}
use native.Mathlib.Decide.{dec_lt, ℕ_discrete}
use sqlite3gen.Dll.Sequence.{has}
use sqlite3gen.Vfs.Memory.{Buffer, Agree, page_size, page_size_disk}
use sqlite3gen.Vfs.Platform.{Mbedtls, IsMbedtls, Posix, IsPosix}
use sqlite3gen.Vfs.Disk.{DiskPage, flush, write, page_offset}
use sqlite3gen.Vfs.Disk.Slots.{max_disk_pages, page_offset_lem, IsStored, slot}
use sqlite3gen.Vfs.Disk.Transfer.{
  Writes, write-Writes, slot-write, slot-write_other, slot-write_beyond,
}
use sqlite3gen.Vfs.Index.{PageIndex, IsPageIndex}
use sqlite3gen.Vfs.Pages.{PageCache, number, write_back, update}
use sqlite3gen.Vfs.Pages.Invariant.{
  on_disk, IsKept, Inv, SameView, cached, uncached, view-Cached, view_at, view_absent,
  SameView_refl,
}

module _ (m : Mbedtls) (o : Posix) (ix : PageIndex) where
  pub write_back_number :
      (p : ℕ) (s : PageCache m o ix) → number m o ix (write_back m o ix p s) ≡ number m o ix s
  unfolding write_back flush
  write_back_number p s = fun_ext λ q. ground arith

  -- A clean page is not written.
  write_back_clean :
      (p : ℕ) (s : PageCache m o ix) → (s.page p).dirty ≡ false → write_back m o ix p s ≡ s
  unfolding write_back flush
  write_back_clean p s h =
      rw h (ap (λ (pages : ℕ → DiskPage). record s { page = pages }) (fun_ext λ q. same q))
    where
      same : (q : ℕ) → update s.page p (record (s.page p) { dirty = false }) q ≡ s.page q
      same q = ground arith

  -- A dirty page is written to its slot.
  write_back_file :
      (p : ℕ) (s : PageCache m o ix)
      → (s.page p).dirty ≡ true
      → (write_back m o ix p s).file ≡ (write m o s.cipher (s.page p) s.file).1
  unfolding write_back flush
  write_back_file p s h = rw (h, flush) refl

  write_back_other :
      (p q : ℕ) (s : PageCache m o ix) → q ≢ p → (write_back m o ix p s).page q ≡ s.page q
  unfolding write_back
  write_back_other p q s h = ground arith

  write_back_self :
      (p : ℕ) (s : PageCache m o ix)
      → (write_back m o ix p s).page p ≡ record (s.page p) { dirty = false }
  unfolding write_back flush
  write_back_self p s = ground arith

module _ (m : Mbedtls) (crypto : IsMbedtls m) (o : Posix) (law : IsPosix o) (ix : PageIndex)
    (ixl : IsPageIndex ix) (n p : ℕ) (s : PageCache m o ix) (inv : Inv m o ix law ixl n s)
    (listed : has p s.page_list ≡ true) (dirty : (s.page p).dirty ≡ true) where
  abbrev after : PageCache m o ix
  after = write_back m o ix p s

  written : Writes m o law s.cipher (s.page p) s.file (write m o s.cipher (s.page p) s.file)
  written = write-Writes m o law s.cipher (s.page p) s.file

  -- The slot written holds the page's buffer.
  slot_self :
      Agree page_size (slot m o law s.cipher after.file (s.page p).page_number) (s.page p).buffer
  slot_self =
      rw (write_back_file m o ix p s dirty) (slot-write m crypto o law s.cipher (s.page p) s.file)

  -- Any other slot that is in the file, or beyond what the client has written, reads as before.
  slot_other :
      (q : ℕ)
      → q < max_disk_pages
      → (s.page p).page_number ≢ q
      → IsStored m o law s.cipher s.file q ⊎ (n ≤ q)
      → Agree page_size (slot m o law s.cipher after.file q) (on_disk m o ix law s q)
  slot_other q hq ne (inl stored) = rw (write_back_file m o ix p s dirty) (
      slot-write_other m crypto o law s.cipher (s.page p) s.file q (inv.small p listed) hq ne
        stored)
  slot_other q hq ne (inr beyond) =
      rw (write_back_file m o ix p s dirty)
        (slot-write_beyond m crypto o law s.cipher (s.page p) s.file n q beyond hq
          (inv.below p listed dirty) inv.extent).1

  -- A listed page that is clean, or a page that is not in the cache, is in one of those two places.
  placed :
      (q : ℕ)
      → ((r : ℕ) → has r s.page_list ≡ true → (s.page r).page_number ≡ q → (s.page r).dirty ≡ false)
      → IsStored m o law s.cipher s.file q ⊎ (n ≤ q)
  placed q clean = elim (dec_lt q n) [
    | yes below ↦ elim (inv.kept q below) [
      | inl stored ↦ inl stored
      | inr (r, h, e, d) ↦ absurd (false≢true (sym (clean r h e) ∙ d))
    ]
    | no above ↦ inr (omega arith)
  ]

  size_after :
      law.size after.file
      ≡ max (law.size s.file) (page_offset (s.page p).page_number + page_size_disk)
  size_after = rw (write_back_file m o ix p s dirty) written.size

  number_after : (q : ℕ) → (after.page q).page_number ≡ (s.page q).page_number
  unfolding write_back flush
  number_after q = ground arith

  clean_self :
      Agree page_size
        (after.page p).buffer
        (slot m o law s.cipher after.file (after.page p).page_number)
  clean_self = rw (write_back_self m o ix p s) (λ i h. sym (slot_self i h))

  clean_same :
      (a : ℕ)
      → a ≡ p
      → Agree page_size
          (after.page a).buffer
          (slot m o law s.cipher after.file (after.page a).page_number)
  clean_same a e =
      subst
        (λ (t : ℕ).
          Agree page_size (after.page t).buffer
            (slot m o law s.cipher after.file (after.page t).page_number))
        (sym e) clean_self

  below_after :
      (a : ℕ)
      → has a s.page_list ≡ true
      → (after.page a).dirty ≡ true
      → (after.page a).page_number < n
  below_after a h d = elim (ℕ_discrete a p) [
    | yes e ↦ absurd (
        false≢true (
          sym (ap (λ (g : DiskPage). g.dirty) (write_back_self m o ix p s))
          ∙ subst (λ (t : ℕ). (after.page t).dirty ≡ true) e d))
    | no ne ↦
        subst (λ (k : ℕ). k < n) (sym (number_after a))
          (inv.below a h
            (sym (ap (λ (g : DiskPage). g.dirty) (write_back_other m o ix p a s ne)) ∙ d))
  ]

  clean_other :
      (a : ℕ)
      → a ≢ p
      → has a s.page_list ≡ true
      → (after.page a).dirty ≡ false
      → Agree page_size
          (after.page a).buffer
          (slot m o law s.cipher after.file (after.page a).page_number)
  clean_other a ne h d = rw (write_back_other m o ix p a s ne) λ i hi.
      inv.clean a h d' i hi
      ∙ sym (slot_other (s.page a).page_number (inv.small a h) apart (placed _ alone) i hi)
    where
      d' : (s.page a).dirty ≡ false
      d' = rw (write_back_other m o ix p a s ne) at d

      apart : (s.page p).page_number ≢ (s.page a).page_number
      apart e = ne (sym (inv.distinct p a listed h e))

      alone :
          (r : ℕ)
          → has r s.page_list ≡ true
          → (s.page r).page_number ≡ (s.page a).page_number
          → (s.page r).dirty ≡ false
      alone r hr e = subst (λ (t : ℕ). (s.page t).dirty ≡ false) (sym (inv.distinct r a hr h e)) d'

  IsKept-after : (q : ℕ) → q < n → IsKept m o ix law after q
  unfolding write_back
  IsKept-after q h = elim (inv.kept q h) [
    | inl stored ↦ inl (omega (arith, size_after))
    | inr (r, hr, e, d) ↦ elim (ℕ_discrete r p) [
      | yes same ↦ inl (
          omega (
            arith,
            size_after,
            ap (λ (t : ℕ). page_offset (s.page t).page_number) same,
            ap page_offset e,
          ))
      | no other ↦ inr (
        r,
        hr,
        number_after r ∙ e,
        ap (λ (g : DiskPage). g.dirty) (write_back_other m o ix p r s other) ∙ d,
      )
    ]
  ]

  write_back_dirty-Inv : Inv m o ix law ixl n after
  unfolding write_back
  write_back_dirty-Inv = record {
    holds =
        ixl.holds_congr (number m o ix s) (number m o ix after) s.page_list s.page_hash
          (λ q _. sym (number_after q)) inv.holds;
    nodup = inv.nodup;
    nodup_lru = inv.nodup_lru;
    distinct = λ a b ha hb e. inv.distinct a b ha hb (sym (number_after a) ∙ e ∙ number_after b);
    allocated = inv.allocated;
    lru_listed = inv.lru_listed;
    small = λ a h. subst (λ (k : ℕ). k < max_disk_pages) (sym (number_after a)) (inv.small a h);
    clean =
        λ a h d. elim (ℕ_discrete a p) [ yes e ↦ clean_same a e | no ne ↦ clean_other a ne h d ];
    below = below_after;
    limit = inv.limit;
    kept = IsKept-after;
    extent = omega (
      arith,
      size_after,
      inv.extent,
      page_offset_lem (s.page p).page_number (inv.small p listed),
      inv.below p listed dirty,
    );
  }

  buffer_after : (a : ℕ) → (after.page a).buffer ≡ (s.page a).buffer
  unfolding write_back flush
  buffer_after a = ground arith

  write_back_dirty_view : SameView m o ix law s after
  unfolding write_back
  write_back_dirty_view q hq = elim (view-Cached m o ix law s q) [
    | cached a h e v ↦ λ i hi.
        ap (λ (b : Buffer). b i)
          (view_at m o ix law after a q write_back_dirty-Inv.distinct h (number_after a ∙ e)
            ∙ buffer_after a
            ∙ sym v)
    | uncached absent v ↦ λ i hi.
        ap (λ (b : Buffer). b i)
          (view_absent m o ix law after q λ a h e. absent a h (sym (number_after a) ∙ e))
        ∙ slot_other q hq (absent p listed) (placed q λ r h e. absurd (absent r h e)) i hi
        ∙ ap (λ (b : Buffer). b i) (sym v)
  ]

module _ (m : Mbedtls) (crypto : IsMbedtls m) (o : Posix) (law : IsPosix o) (ix : PageIndex)
    (ixl : IsPageIndex ix) (n p : ℕ) (s : PageCache m o ix) (inv : Inv m o ix law ixl n s)
    (listed : has p s.page_list ≡ true) where
  pub write_back-Inv : Inv m o ix law ixl n (write_back m o ix p s)
  write_back-Inv = elim (Bool-cases (s.page p).dirty) [
    | inl dirty ↦ write_back_dirty-Inv m crypto o law ix ixl n p s inv listed dirty
    | inr clean ↦ rw (write_back_clean m o ix p s clean) inv
  ]

  -- Writing a listed page back shows a client nothing.
  pub write_back_view : SameView m o ix law s (write_back m o ix p s)
  write_back_view = elim (Bool-cases (s.page p).dirty) [
    | inl dirty ↦ write_back_dirty_view m crypto o law ix ixl n p s inv listed dirty
    | inr clean ↦ rw (write_back_clean m o ix p s clean) (SameView_refl m o ix law s)
  ]

module _ (m : Mbedtls) (o : Posix) (ix : PageIndex) where
  -- A page is clean once it was written back.
  pub write_back_cleans :
      (p : ℕ) (s : PageCache m o ix) → ((write_back m o ix p s).page p).dirty ≡ false
  write_back_cleans p s = ap (λ (g : DiskPage). g.dirty) (write_back_self m o ix p s)
