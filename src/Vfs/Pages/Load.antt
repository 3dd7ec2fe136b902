-- ===== src/Vfs/Pages/Load.antt =====
-- aes_vfs/PageCache.cc: the half of `getPage` that reads a page from disk.
use sqlite3gen.Base.{
  ℕ, ◌<◌, ◌≡◌, ◌≢◌, ◌⊎◌, inl, inr, sym, ◌∙◌, ap, true, false, ◌||◌, arith, Bool-cases, ◌==◌, subst,
}
use mathlib.Core.Bool.{false≢true}
use native.Mathlib.Decide.{ℕ_discrete}
use sqlite3gen.Dll.Sequence.{has, has-add_tail, Nodup-add_tail}
use sqlite3gen.Vfs.Memory.{Buffer, Agree, page_size}
use sqlite3gen.Vfs.Platform.{Mbedtls, IsMbedtls, Posix, IsPosix}
use sqlite3gen.Vfs.Disk.{DiskPage, read, new_page}
use sqlite3gen.Vfs.Disk.Slots.{max_disk_pages, slot}
use sqlite3gen.Vfs.Disk.Transfer.{Same, Reads, read-Reads, slot-Same}
use sqlite3gen.Vfs.Index.{PageIndex, IsPageIndex}
use sqlite3gen.Vfs.Pages.{PageCache, number, load_page}
use sqlite3gen.Vfs.Pages.Invariant.{
  on_disk, Inv, IsKept, SameView, cached, uncached, view-Cached, view_at, view_absent,
}

module _ (m : Mbedtls) (crypto : IsMbedtls m) (o : Posix) (law : IsPosix o) (ix : PageIndex)
    (ixl : IsPageIndex ix) (n : ℕ) (fresh : ℕ → Buffer) (pgno : ℕ) (small : pgno < max_disk_pages)
    (s : PageCache m o ix) (inv : Inv m o ix law ixl n s)
    (absent : (p : ℕ) → has p s.page_list ≡ true → (s.page p).page_number ≢ pgno) where
  abbrev p : ℕ
  p = s.next_ptr

  abbrev t : PageCache m o ix
  t = (load_page m o ix fresh pgno s).1

  abbrev blank : DiskPage
  blank = record { page_number = pgno; buffer = fresh p; dirty = false }

  reads : Reads m o law s.cipher blank s.file (read m o s.cipher blank s.file)
  reads = read-Reads m crypto o law s.cipher blank s.file

  unlisted : has p s.page_list ≡ false
  unlisted = elim (Bool-cases (has p s.page_list)) [
    | inl h ↦ absurd (omega (arith, inv.allocated p h))
    | inr h ↦ h
  ]

  in_list : (a : ℕ) → has a t.page_list ≡ (has a s.page_list || (a == p))
  unfolding load_page
  in_list a = has-add_tail a p s.page_list

  listed : has p t.page_list ≡ true
  listed = ground (arith, in_list p)

  -- A listed item is the new page or an older one.
  either : (a : ℕ) → has a t.page_list ≡ true → (a ≡ p) ⊎ ((has a s.page_list ≡ true) × (a ≢ p))
  either a h = elim (ℕ_discrete a p) [ yes e ↦ inl e | no ne ↦ inr (ground (arith, in_list a), ne) ]

  old : (a : ℕ) → a ≢ p → t.page a ≡ s.page a
  unfolding load_page
  old a ne = ground arith

  new : t.page p ≡ (read m o s.cipher blank s.file).1
  unfolding load_page new_page
  new = ground arith

  number_new : (t.page p).page_number ≡ pgno
  number_new = ap (λ (g : DiskPage). g.page_number) new ∙ reads.number

  number_old : (a : ℕ) → a ≢ p → (t.page a).page_number ≡ (s.page a).page_number
  number_old a ne = ap (λ (g : DiskPage). g.page_number) (old a ne)

  file : Same o law s.file t.file
  unfolding load_page new_page
  file = reads.file

  disk : (q : ℕ) → Agree page_size (slot m o law s.cipher t.file q) (on_disk m o ix law s q)
  disk q = slot-Same m crypto o law s.cipher s.file t.file q file

  not_new : (a : ℕ) → has a s.page_list ≡ true → a ≢ p
  not_new a h e = false≢true (sym unlisted ∙ subst (λ (r : ℕ). has r s.page_list ≡ true) e h)

  -- A property of every listed page, from that of the new one and those of the older ones.
  every :
      (P : ℕ → Type 0)
      → P p
      → ((a : ℕ) → has a s.page_list ≡ true → a ≢ p → P a)
      → (a : ℕ) → has a t.page_list ≡ true
      → P a
  every P fresh_page older a h = elim (either a h) [
    | inl e ↦ subst P (sym e) fresh_page
    | inr (hs, ne) ↦ older a hs ne
  ]

  dirty_old : (a : ℕ) → a ≢ p → (t.page a).dirty ≡ (s.page a).dirty
  dirty_old a ne = ap (λ (g : DiskPage). g.dirty) (old a ne)

  dirty_new : (t.page p).dirty ≡ false
  dirty_new = ap (λ (g : DiskPage). g.dirty) new ∙ reads.clean

  abbrev IsClean : ℕ → Type 0
  IsClean a =
      Agree page_size (t.page a).buffer (slot m o law s.cipher t.file (t.page a).page_number)

  buffer_new : Agree page_size (t.page p).buffer (on_disk m o ix law s pgno)
  buffer_new = rw new reads.buffer

  IsClean-new : IsClean p
  IsClean-new = rw number_new (λ i h. buffer_new i h ∙ sym (disk pgno i h))

  IsClean-old : (a : ℕ) → has a s.page_list ≡ true → a ≢ p → (t.page a).dirty ≡ false → IsClean a
  IsClean-old a h ne d =
      rw (old a ne) λ i hi.
        inv.clean a h (sym (dirty_old a ne) ∙ d) i hi ∙ sym (disk (s.page a).page_number i hi)

  below : (a : ℕ) → has a t.page_list ≡ true → (t.page a).dirty ≡ true → (t.page a).page_number < n
  below =
      every (λ a. (t.page a).dirty ≡ true → (t.page a).page_number < n)
        (λ d. absurd (false≢true (sym dirty_new ∙ d)))
        (λ a h ne d. rw (number_old a ne) (inv.below a h (sym (dirty_old a ne) ∙ d)))

  distinct :
      (a b : ℕ)
      → has a t.page_list ≡ true
      → has b t.page_list ≡ true
      → (t.page a).page_number ≡ (t.page b).page_number
      → a ≡ b
  distinct a b ha hb e = elim (either a ha) [
    | inl ea ↦ elim (either b hb) [
      | inl eb ↦ ea ∙ sym eb
      | inr (hb', nb) ↦ absurd (
          absent b hb' (
            sym (number_old b nb)
            ∙ sym e
            ∙ subst (λ (r : ℕ). (t.page r).page_number ≡ pgno) (sym ea) number_new))
    ]
    | inr (ha', na) ↦ elim (either b hb) [
      | inl eb ↦ absurd (
          absent a ha' (
            sym (number_old a na)
            ∙ e
            ∙ subst (λ (r : ℕ). (t.page r).page_number ≡ pgno) (sym eb) number_new))
      | inr (hb', nb) ↦ inv.distinct a b ha' hb' (sym (number_old a na) ∙ e ∙ number_old b nb)
    ]
  ]

  kept : (q : ℕ) → q < n → IsKept m o ix law t q
  kept q h = elim (inv.kept q h) [
    | inl stored ↦ inl (rw file.size stored)
    | inr (r, hr, e, d) ↦ inr (
      r,
      ground (arith, in_list r),
      number_old r (not_new r hr) ∙ e,
      dirty_old r (not_new r hr) ∙ d,
    )
  ]

  holds : ixl.Holds (number m o ix t) t.page_list t.page_hash
  unfolding load_page
  holds =
      ixl.holds-add (number m o ix t) s.page_list s.page_hash p
        (ixl.holds_congr (number m o ix s) (number m o ix t) s.page_list s.page_hash
          (λ a h. sym (number_old a (not_new a h))) inv.holds)
        inv.nodup unlisted

  pub load_page-Inv : Inv m o ix law ixl n t
  unfolding load_page
  load_page-Inv = record {
    holds = holds;
    nodup = Nodup-add_tail p s.page_list unlisted inv.nodup;
    nodup_lru = inv.nodup_lru;
    distinct = distinct;
    allocated = λ a h. ground (arith, in_list a, inv.allocated a);
    lru_listed = λ a h. ground (arith, in_list a, inv.lru_listed a h);
    small =
        every (λ a. (t.page a).page_number < max_disk_pages)
          (subst (λ (k : ℕ). k < max_disk_pages) (sym number_new) small)
          (λ a h ne. subst (λ (k : ℕ). k < max_disk_pages) (sym (number_old a ne)) (inv.small a h));
    clean = every (λ a. (t.page a).dirty ≡ false → IsClean a) (λ d. IsClean-new) IsClean-old;
    below = below;
    limit = inv.limit;
    kept = kept;
    extent = rw file.size inv.extent;
  }

  pub load_page_view : SameView m o ix law s t
  unfolding load_page
  load_page_view q hq = elim (view-Cached m o ix law s q) [
    | cached a h e v ↦ λ i hi.
        ap (λ (b : Buffer). b i)
          (view_at m o ix law t a q distinct (ground (arith, in_list a))
              (number_old a (not_new a h) ∙ e)
            ∙ ap (λ (g : DiskPage). g.buffer) (old a (not_new a h))
            ∙ sym v)
    | uncached none_listed v ↦ elim (ℕ_discrete q pgno) [
      | yes e ↦ λ i hi.
          ap (λ (b : Buffer). b i) (view_at m o ix law t p q distinct listed (number_new ∙ sym e))
          ∙ buffer_new i hi
          ∙ sym (ap (λ (b : Buffer). b i) (v ∙ ap (on_disk m o ix law s) e))
      | no ne ↦ λ i hi.
          ap (λ (b : Buffer). b i)
            (view_absent m o ix law t q (
              every (λ a. (t.page a).page_number ≢ q) (λ e. ne (sym e ∙ number_new))
                (λ a h na e. none_listed a h (sym (number_old a na) ∙ e))))
          ∙ disk q i hi
          ∙ ap (λ (b : Buffer). b i) (sym v)
    ]
  ]

  abbrev result : ℕ
  result = (load_page m o ix fresh pgno s).0

  pub load_page_new :
      (has result t.page_list ≡ true)
      × (has result t.page_lru ≡ false)
      × ((t.page result).page_number ≡ pgno)
  unfolding load_page
  load_page_new = (listed, idle (Bool-cases (has p s.page_lru)), number_new)
    where
      idle : (has p s.page_lru ≡ true) ⊎ (has p s.page_lru ≡ false) → has p s.page_lru ≡ false
      idle (inl h) = absurd (false≢true (sym unlisted ∙ inv.lru_listed p h))
      idle (inr h) = h

  pub load_page_spares :
      (q : ℕ)
      → (has q s.page_list ≡ true) × (has q s.page_lru ≡ false)
      → ((has q t.page_list ≡ true) × (has q t.page_lru ≡ false)) × (t.page q ≡ s.page q)
  unfolding load_page
  load_page_spares q (h, idle) = ((ground (arith, in_list q), idle), old q (not_new q h))
