-- ===== src/Vfs/Pages/Release.antt =====
-- aes_vfs/PageCache.cc: `releasePage` bounds the idle pages and shows a client no change.
use sqlite3gen.Base.{
  ℕ, ◌≤◌, ◌≡◌, ◌≢◌, refl, inl, inr, sym, ◌∙◌, ap, true, false, ◌||◌, List, [], ◌∷◌, arith,
  Bool-cases, ◌==◌, ltb, length, subst,
}
use native.Mathlib.Decide.{ℕ_discrete}
use sqlite3gen.Dll.Sequence.{has, add_tail, has-add_tail, Nodup-add_tail}
use sqlite3gen.Vfs.Platform.{Mbedtls, IsMbedtls, Posix, IsPosix}
use sqlite3gen.Vfs.Index.{PageIndex, IsPageIndex}
use sqlite3gen.Vfs.Pages.{PageCache, drop_page, evict, release_page}
use sqlite3gen.Vfs.Pages.Invariant.{view, Inv, SameView, SameView_refl, SameView_trans, relink-Inv}
use sqlite3gen.Vfs.Pages.Drop.{IsPinned, Keeps, evict_head}

module _ (m : Mbedtls) (crypto : IsMbedtls m) (o : Posix) (law : IsPosix o) (ix : PageIndex)
    (ixl : IsPageIndex ix) (n : ℕ) where
  -- `Keeps` and `IsPinned` of this cache.
  abbrev pub Stable : (ℕ → Type 0) → PageCache m o ix → PageCache m o ix → Type 0
  Stable = Keeps m crypto o law ix ixl n

  abbrev pub Pinned : PageCache m o ix → ℕ → Type 0
  Pinned = IsPinned m crypto o law ix ixl n

  -- A first change that alters no object, list or view.
  Keeps_from :
      (held : ℕ → Type 0) (s t u : PageCache m o ix)
      → ((q : ℕ) → held q → Pinned t q × (t.page q ≡ s.page q))
      → SameView m o ix law s t
      → t.max_pages ≡ s.max_pages
      → Stable (Pinned t) t u
      → Stable held s u
  Keeps_from held s t u spared view bound b = record {
    inv = b.inv;
    view = SameView_trans m o ix law s t u view b.view;
    spares = λ q h.
        let (pinned, same) = spared q h in
        let (pinned', same') = b.spares q pinned in (pinned', same' ∙ same);
    bound = b.bound ∙ bound;
  }

  pub Keeps_trans :
      (held : ℕ → Type 0) (s t u : PageCache m o ix)
      → Stable held s t
      → Stable (Pinned t) t u
      → Stable held s u
  Keeps_trans held s t u a b = Keeps_from held s t u a.spares a.view a.bound b

  pub Keeps_refl : (s : PageCache m o ix) → Inv m o ix law ixl n s → Stable (Pinned s) s s
  Keeps_refl s inv = record {
    inv = inv;
    view = SameView_refl m o ix law s;
    spares = λ q h. (h, refl);
    bound = refl;
  }

  -- The eviction loop keeps what the caller holds and leaves at most `max_pages` idle pages.
  abbrev Evicts : PageCache m o ix → PageCache m o ix → Type 0
  Evicts s t = Stable (Pinned s) s t × (length t.page_lru ≤ s.max_pages)

  stop-Evicts :
      (lru : List ℕ) (s : PageCache m o ix)
      → s.page_lru ≡ lru
      → length lru ≤ s.max_pages
      → Inv m o ix law ixl n s
      → Evicts s (record s { page_lru = lru })
  stop-Evicts lru s e h inv =
      subst (Evicts s) (ap (λ (l : List ℕ). record s { page_lru = l }) e)
        (Keeps_refl s inv, omega (arith, ap length e))

  evict-Evicts :
      (lru : List ℕ) (s : PageCache m o ix)
      → s.page_lru ≡ lru
      → Inv m o ix law ixl n s
      → Evicts s (evict m o ix lru s)
  unfolding evict drop_page
  evict-Evicts [] s e inv = stop-Evicts [] s e (omega arith) inv
  evict-Evicts (p ∷ tail) s e inv =
      let next = drop_page m o ix p (record s { page_lru = tail }) in
      let head = evict_head m crypto o law ix ixl n p tail s e inv in
      let tail_Evicts = evict-Evicts tail next refl head.inv in
      elim (Bool-cases (ltb s.max_pages (length (p ∷ tail)))) [
        | inl more ↦ rw more (
          Keeps_trans (Pinned s) s next _ head tail_Evicts.0,
          omega (arith, tail_Evicts.1, head.bound),
        )
        | inr done ↦ rw done (stop-Evicts (p ∷ tail) s e (ground arith) inv)
      ]

  -- The release of a listed page keeps the invariant and the view, drops no page that is held
  -- other than the released one, and leaves at most max_pages idle pages.
  pub release_page-Keeps :
      (p : ℕ) (s : PageCache m o ix)
      → Inv m o ix law ixl n s
      → has p s.page_list ≡ true
      → Stable (λ q. (q ≢ p) × Pinned s q) s (release_page m o ix p s)
        × (length (release_page m o ix p s).page_lru ≤ s.max_pages)
  unfolding release_page view
  release_page-Keeps p s inv listed = elim (Bool-cases (has p s.page_lru)) [
    | inl idle ↦
        rw (idle, release_page)
          (
            Keeps_from (λ q. (q ≢ p) × Pinned s q) s s _ (λ q h. (h.1, refl))
                (SameView_refl m o ix law s) refl (evict-Evicts s.page_lru s refl inv).0,
            (evict-Evicts s.page_lru s refl inv).1,
          )
    | inr held ↦
        rw (held, release_page)
          (
            Keeps_from (λ q. (q ≢ p) × Pinned s q) s idle_p _ (λ q h. (keep q h, refl)) same refl
                (evict-Evicts idle_p.page_lru idle_p refl (inv' held)).0,
            (evict-Evicts idle_p.page_lru idle_p refl (inv' held)).1,
          )
  ]
    where
      idle_p : PageCache m o ix
      idle_p = record s { page_lru = add_tail s.page_lru p }

      same : SameView m o ix law s idle_p
      same q h i hi = refl

      in_lru : (q : ℕ) → has q idle_p.page_lru ≡ (has q s.page_lru || (q == p))
      in_lru q = has-add_tail q p s.page_lru

      keep : (q : ℕ) → (q ≢ p) × Pinned s q → Pinned idle_p q
      keep q (ne, (h, idle)) = (h, ground (arith, in_lru q))

      listed' : (q : ℕ) → has q idle_p.page_lru ≡ true → has q s.page_list ≡ true
      listed' q h = elim (ℕ_discrete q p) [
        | yes e ↦ subst (λ (t : ℕ). has t s.page_list ≡ true) (sym e) listed
        | no ne ↦ inv.lru_listed q (ground (arith, in_lru q))
      ]

      inv' : has p s.page_lru ≡ false → Inv m o ix law ixl n idle_p
      inv' held =
          relink-Inv m o ix law ixl n s (add_tail s.page_lru p) inv
            (Nodup-add_tail p s.page_lru held inv.nodup_lru) listed'
