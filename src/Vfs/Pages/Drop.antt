-- ===== src/Vfs/Pages/Drop.antt =====
-- aes_vfs/PageCache.cc: `releasePage`, and the eviction in it.
use sqlite3gen.Base.{
  ℕ, ◌≡◌, ◌≢◌, inl, inr, refl, sym, ◌∙◌, ap, true, false, ◌||◌, List, ◌∷◌, arith, ◌==◌, subst,
}
use mathlib.Core.Bool.{false≢true}
use native.Mathlib.Decide.{ℕ_discrete}
use sqlite3gen.Dll.Sequence.{has, Nodup, has-erase, Nodup-erase}
use sqlite3gen.Vfs.Memory.{Buffer, Agree, page_size}
use sqlite3gen.Vfs.Platform.{Mbedtls, IsMbedtls, Posix, IsPosix}
use sqlite3gen.Vfs.Disk.{flush}
use sqlite3gen.Vfs.Index.{PageIndex, IsPageIndex}
use sqlite3gen.Vfs.Pages.{PageCache, number, write_back, unlist, drop_page}
use sqlite3gen.Vfs.Pages.Invariant.{
  on_disk, view, Inv, SameView, cached, uncached, view-Cached, view_at, view_absent, SameView_trans,
  relink-Inv,
}
use sqlite3gen.Vfs.Pages.WriteBack.{
  write_back_number, write_back-Inv, write_back_view, write_back_cleans,
}

module _ (m : Mbedtls) (o : Posix) (ix : PageIndex) where
  -- The order of the two halves of a removal does not matter.
  drop_page_lem :
      (p : ℕ) (s : PageCache m o ix)
      → drop_page m o ix p s ≡ unlist m o ix p (write_back m o ix p s)
  unfolding drop_page
  drop_page_lem p s = rw (write_back_number m o ix p s) refl

module _ (m : Mbedtls) (o : Posix) (law : IsPosix o) (ix : PageIndex) (ixl : IsPageIndex ix)
    (n p : ℕ) (s : PageCache m o ix) (inv : Inv m o ix law ixl n s)
    (listed : has p s.page_list ≡ true) (clean : (s.page p).dirty ≡ false)
    (idle : has p s.page_lru ≡ false) where
  abbrev rest : PageCache m o ix
  rest = unlist m o ix p s

  still : (a : ℕ) → has a rest.page_list ≡ true → (has a s.page_list ≡ true) × (a ≢ p)
  unfolding unlist
  still a h = ground (arith, has-erase a p s.page_list inv.nodup)

  stays : (a : ℕ) → has a s.page_list ≡ true → a ≢ p → has a rest.page_list ≡ true
  unfolding unlist
  stays a h ne = ground (arith, has-erase a p s.page_list inv.nodup)

  unlist-Inv : Inv m o ix law ixl n rest
  unfolding unlist
  unlist-Inv = record {
    holds = ixl.holds-remove (number m o ix s) s.page_list s.page_hash p inv.holds inv.nodup listed;
    nodup = Nodup-erase p s.page_list inv.nodup;
    nodup_lru = inv.nodup_lru;
    distinct = λ a b ha hb e. inv.distinct a b (still a ha).0 (still b hb).0 e;
    allocated = λ a h. inv.allocated a (still a h).0;
    lru_listed = λ a h.
        stays a (inv.lru_listed a h)
          (λ e. false≢true (sym idle ∙ subst (λ (t : ℕ). has t s.page_lru ≡ true) e h));
    small = λ a h. inv.small a (still a h).0;
    clean = λ a h d. inv.clean a (still a h).0 d;
    below = λ a h d. inv.below a (still a h).0 d;
    limit = inv.limit;
    kept = λ q h. elim (inv.kept q h) [
      | inl stored ↦ inl stored
      | inr (r, hr, e, d) ↦ inr (
        r,
        stays r hr
            (λ same. false≢true (sym clean ∙ subst (λ (t : ℕ). (s.page t).dirty ≡ true) same d)),
        e,
        d,
      )
    ];
    extent = inv.extent;
  }

  -- The page that left reads from disk, as it did from the cache.
  gone_view :
      (q : ℕ)
      → (s.page p).page_number ≡ q
      → Agree page_size (view m o ix law rest q) (view m o ix law s q)
  unfolding unlist
  gone_view q e i hi =
      ap (λ (b : Buffer). b i)
        (view_absent m o ix law rest q
          λ a h ea. (still a h).1 (inv.distinct a p (still a h).0 listed (ea ∙ sym e)))
      ∙ sym (
          subst (λ (t : ℕ). (s.page p).buffer i ≡ on_disk m o ix law s t i) e
            (inv.clean p listed clean i hi))
      ∙ ap (λ (b : Buffer). b i) (sym (view_at m o ix law s p q inv.distinct listed e))

  unlist_view : SameView m o ix law s rest
  unfolding unlist
  unlist_view q hq = elim (view-Cached m o ix law s q) [
    | cached a h e v ↦ elim (ℕ_discrete a p) [
      | yes same ↦ gone_view q (subst (λ (t : ℕ). (s.page t).page_number ≡ q) same e)
      | no other ↦ λ i hi.
          ap (λ (b : Buffer). b i)
            (view_at m o ix law rest a q unlist-Inv.distinct (stays a h other) e ∙ sym v)
    ]
    | uncached absent v ↦ λ i hi.
        ap (λ (b : Buffer). b i)
          (view_absent m o ix law rest q (λ a h. absent a (still a h).0) ∙ sym v)
  ]

module _ (m : Mbedtls) (crypto : IsMbedtls m) (o : Posix) (law : IsPosix o) (ix : PageIndex)
    (ixl : IsPageIndex ix) (n : ℕ) where
  -- The pages that a caller holds: listed, and not among those that may be dropped.
  abbrev pub IsPinned : PageCache m o ix → ℕ → Type 0
  IsPinned s p = (has p s.page_list ≡ true) × (has p s.page_lru ≡ false)

  -- What a step of the cache that drops pages keeps. `held` are the pages a caller goes on using.
  pub record Keeps (held : ℕ → Type 0) (s t : PageCache m o ix) : Type 0 where
    pub inv : Inv m o ix law ixl n t
    pub view : SameView m o ix law s t
    pub spares : (q : ℕ) → held q → IsPinned t q × (t.page q ≡ s.page q)
    pub bound : t.max_pages ≡ s.max_pages

  drop_page-Inv :
      (p : ℕ) (s : PageCache m o ix)
      → Inv m o ix law ixl n s
      → has p s.page_list ≡ true
      → has p s.page_lru ≡ false
      → Inv m o ix law ixl n (drop_page m o ix p s) × SameView m o ix law s (drop_page m o ix p s)
  unfolding write_back
  drop_page-Inv p s inv listed idle = rw (drop_page_lem m o ix p s) (
    unlist-Inv m o law ix ixl n p w winv listed (write_back_cleans m o ix p s) idle,
    SameView_trans m o ix law s w _ (write_back_view m crypto o law ix ixl n p s inv listed)
        (unlist_view m o law ix ixl n p w winv listed (write_back_cleans m o ix p s) idle),
  )
    where
      w : PageCache m o ix
      w = write_back m o ix p s

      winv : Inv m o ix law ixl n w
      winv = write_back-Inv m crypto o law ix ixl n p s inv listed

  -- Dropping a page touches no other.
  drop_page_spares :
      (p q : ℕ) (s : PageCache m o ix)
      → Inv m o ix law ixl n s
      → q ≢ p
      → IsPinned s q
      → IsPinned (drop_page m o ix p s) q × ((drop_page m o ix p s).page q ≡ s.page q)
  unfolding drop_page flush
  drop_page_spares p q s inv ne (listed, idle) =
      ((ground (arith, has-erase q p s.page_list inv.nodup), idle), ground arith)

  -- The head of the list of idle pages, dropped.
  pub evict_head :
      (p : ℕ) (tail : List ℕ) (s : PageCache m o ix)
      → s.page_lru ≡ p ∷ tail
      → Inv m o ix law ixl n s
      → Keeps (IsPinned s) s (drop_page m o ix p (record s { page_lru = tail }))
  unfolding has view drop_page
  evict_head p tail s e inv = record {
    inv = dropped.0;
    view = dropped.1;
    spares = λ q (listed, idle).
        drop_page_spares p q unlinked inv' (other q idle) (listed, idle_tail q idle);
    bound = refl;
  }
    where
      unlinked : PageCache m o ix
      unlinked = record s { page_lru = tail }

      nodup : Nodup (p ∷ tail)
      nodup = subst Nodup e inv.nodup_lru

      in_tail : (q : ℕ) → has q s.page_lru ≡ ((q == p) || has q tail)
      in_tail q = rw e refl

      other : (q : ℕ) → has q s.page_lru ≡ false → q ≢ p
      other q h = ground (arith, in_tail q)

      idle_tail : (q : ℕ) → has q s.page_lru ≡ false → has q tail ≡ false
      idle_tail q h = ground (arith, in_tail q)

      inv' : Inv m o ix law ixl n unlinked
      inv' =
          relink-Inv m o ix law ixl n s tail inv nodup.1
            λ q h. inv.lru_listed q (ground (arith, in_tail q))

      dropped :
          Inv m o ix law ixl n (drop_page m o ix p unlinked)
          × SameView m o ix law unlinked (drop_page m o ix p unlinked)
      dropped = drop_page-Inv p unlinked inv' (inv.lru_listed p (ground (arith, in_tail p))) nodup.0
