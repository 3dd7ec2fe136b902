-- ===== src/Vfs/Cache/Fill.antt =====
-- aes_vfs/DiskCache.cc: the copy of one piece of a `write` into the page that it holds.
use sqlite3gen.Base.{
  ℕ, ◌+◌, ◌≤◌, ◌<◌, ◌≡◌, ◌≢◌, inl, inr, sym, ◌∙◌, ap, subst, true, false, arith, max,
}
use mathlib.Core.Path.{fun_ext}
use native.Mathlib.Decide.{dec_lt, ℕ_discrete}
use sqlite3gen.Dll.Sequence.{has}
use sqlite3gen.Vfs.Memory.{Buffer, Agree, page_size, memcpy}
use sqlite3gen.Vfs.Platform.{Mbedtls, IsMbedtls, Posix, IsPosix}
use sqlite3gen.Vfs.Disk.{DiskPage}
use sqlite3gen.Vfs.Disk.Slots.{max_disk_pages}
use sqlite3gen.Vfs.Index.{PageIndex, IsPageIndex}
use sqlite3gen.Vfs.Pages.{PageCache, number}
use sqlite3gen.Vfs.Pages.Invariant.{
  on_disk, view, IsKept, Inv, cached, uncached, view-Cached, view_at, view_absent,
}
use sqlite3gen.Vfs.Cache.{PgInfo, fill}

module _ (m : Mbedtls) (o : Posix) (ix : PageIndex) where
  pub fill_number :
      (pi : PgInfo) (buf : Buffer) (s : PageCache m o ix)
      → number m o ix (fill m o ix pi buf s) ≡ number m o ix s
  unfolding fill
  fill_number pi buf s = fun_ext λ q. ground arith

  pub fill_other :
      (pi : PgInfo) (buf : Buffer) (s : PageCache m o ix) (q : ℕ)
      → q ≢ pi.pg
      → (fill m o ix pi buf s).page q ≡ s.page q
  unfolding fill
  fill_other pi buf s q h = ground arith

  fill_self :
      (pi : PgInfo) (buf : Buffer) (s : PageCache m o ix)
      → (fill m o ix pi buf s).page pi.pg ≡ record (s.page pi.pg) {
        buffer =
            memcpy (s.page pi.pg).buffer pi.offset_in_page buf pi.offset_in_arg pi.size_in_page;
        dirty = true;
      }
  unfolding fill
  fill_self pi buf s = ground arith

  fill_dirty :
      (pi : PgInfo) (buf : Buffer) (s : PageCache m o ix) (q : ℕ)
      → (s.page q).dirty ≡ true
      → ((fill m o ix pi buf s).page q).dirty ≡ true
  unfolding fill
  fill_dirty pi buf s q h = ground arith

module _ (m : Mbedtls) (crypto : IsMbedtls m) (o : Posix) (law : IsPosix o) (ix : PageIndex)
    (ixl : IsPageIndex ix) (n : ℕ) (pi : PgInfo) (buf : Buffer) (s : PageCache m o ix)
    (inv : Inv m o ix law ixl n s) (listed : has pi.pg s.page_list ≡ true)
    (joined : (s.page pi.pg).page_number ≤ n) where
  abbrev after : PageCache m o ix
  after = fill m o ix pi buf s

  number_at : (q : ℕ) → (after.page q).page_number ≡ (s.page q).page_number
  number_at q = ap (λ (f : ℕ → ℕ). f q) (fill_number m o ix pi buf s)

  clean_is_other : (q : ℕ) → (after.page q).dirty ≡ false → q ≢ pi.pg
  unfolding fill
  clean_is_other q h = ground arith

  clean_after :
      (a : ℕ)
      → has a s.page_list ≡ true
      → (after.page a).dirty ≡ false
      → after.page a ≡ s.page a
      → Agree page_size (after.page a).buffer (on_disk m o ix law s (after.page a).page_number)
  clean_after a h d same =
      subst (λ (g : DiskPage). Agree page_size g.buffer (on_disk m o ix law s g.page_number))
        (sym same) (inv.clean a h (sym (ap (λ (g : DiskPage). g.dirty) same) ∙ d))

  below_after :
      (a : ℕ)
      → has a s.page_list ≡ true
      → (after.page a).dirty ≡ true
      → (after.page a).page_number < max n ((s.page pi.pg).page_number + 1)
  below_after a h d = elim (ℕ_discrete a pi.pg) [
    | yes same ↦ omega (arith, number_at a, ap (λ (t : ℕ). (s.page t).page_number) same)
    | no other ↦
        let below =
          inv.below a h
            (sym (ap (λ (g : DiskPage). g.dirty) (fill_other m o ix pi buf s a other)) ∙ d) in
        omega (arith, number_at a, below)
  ]

  IsKept-after : (q : ℕ) → q < max n ((s.page pi.pg).page_number + 1) → IsKept m o ix law after q
  unfolding fill
  IsKept-after q h = elim (dec_lt q n) [
    | yes old ↦ elim (inv.kept q old) [
      | inl stored ↦ inl stored
      | inr (r, hr, e, d) ↦ inr (r, hr, number_at r ∙ e, fill_dirty m o ix pi buf s r d)
    ]
    | no new ↦ inr (
      pi.pg,
      listed,
      number_at pi.pg ∙ omega (arith, joined),
      ap (λ (g : DiskPage). g.dirty) (fill_self m o ix pi buf s),
    )
  ]

  -- The written page may be the next one after those that the client has written so far.
  pub fill-Inv : Inv m o ix law ixl (max n ((s.page pi.pg).page_number + 1)) after
  unfolding fill
  fill-Inv = record {
    holds =
        subst (λ (f : ℕ → ℕ). ixl.Holds f s.page_list s.page_hash)
          (sym (fill_number m o ix pi buf s)) inv.holds;
    nodup = inv.nodup;
    nodup_lru = inv.nodup_lru;
    distinct = λ a b ha hb e. inv.distinct a b ha hb (sym (number_at a) ∙ e ∙ number_at b);
    allocated = inv.allocated;
    lru_listed = inv.lru_listed;
    small = λ a h. subst (λ (k : ℕ). k < max_disk_pages) (sym (number_at a)) (inv.small a h);
    clean = λ a h d. clean_after a h d (fill_other m o ix pi buf s a (clean_is_other a d));
    below = below_after;
    limit = omega (arith, inv.small pi.pg listed, inv.limit);
    kept = IsKept-after;
    extent = omega (arith, inv.extent);
  }

  -- Every other page shows what it showed.
  pub fill_view :
      (q : ℕ) → q ≢ (s.page pi.pg).page_number → view m o ix law after q ≡ view m o ix law s q
  unfolding fill
  fill_view q ne = elim (view-Cached m o ix law s q) [
    | cached a h e v ↦
        let other : a ≢ pi.pg = λ same. ne (sym e ∙ ap (λ (t : ℕ). (s.page t).page_number) same) in
        view_at m o ix law after a q fill-Inv.distinct h (number_at a ∙ e)
        ∙ ap (λ (g : DiskPage). g.buffer) (fill_other m o ix pi buf s a other)
        ∙ sym v
    | uncached absent v ↦
        view_absent m o ix law after q (λ a h e. absent a h (sym (number_at a) ∙ e)) ∙ sym v
  ]

  -- The page written shows the copy.
  pub fill_view_self :
      view m o ix law after (s.page pi.pg).page_number
      ≡ memcpy (s.page pi.pg).buffer pi.offset_in_page buf pi.offset_in_arg pi.size_in_page
  unfolding fill
  fill_view_self =
      view_at m o ix law after pi.pg (s.page pi.pg).page_number fill-Inv.distinct listed
        (number_at pi.pg)
      ∙ ap (λ (g : DiskPage). g.buffer) (fill_self m o ix pi buf s)
