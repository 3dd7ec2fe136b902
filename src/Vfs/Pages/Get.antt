-- ===== src/Vfs/Pages/Get.antt =====
-- aes_vfs/PageCache.cc: `getPage` gives the page of the number asked for, pinned, and shows a
-- client no change.
use sqlite3gen.Base.{
  ℕ, ◌<◌, ◌≡◌, ◌≢◌, refl, inl, inr, ◌∙◌, subst, true, false, ◌&&◌, not, some, none, arith,
  Bool-cases, Option-cases, ◌==◌,
}
use sqlite3gen.Dll.Sequence.{
  has, erase, find_first, find_first_sound, find_first-none, has-erase, Nodup-erase,
}
use sqlite3gen.Vfs.Memory.{Buffer}
use sqlite3gen.Vfs.Platform.{Mbedtls, IsMbedtls, Posix, IsPosix}
use sqlite3gen.Vfs.Disk.Slots.{max_disk_pages}
use sqlite3gen.Vfs.Index.{PageIndex, IsPageIndex}
use sqlite3gen.Vfs.Pages.{PageCache, number, pin, load_page, get_page}
use sqlite3gen.Vfs.Pages.Invariant.{view, Inv, SameView_refl, relink-Inv}
use sqlite3gen.Vfs.Pages.Drop.{IsPinned, Keeps}
use sqlite3gen.Vfs.Pages.Load.{load_page-Inv, load_page_view, load_page_new, load_page_spares}

module _ (m : Mbedtls) (crypto : IsMbedtls m) (o : Posix) (law : IsPosix o) (ix : PageIndex)
    (ixl : IsPageIndex ix) (n : ℕ) where
  -- What a caller of `getPage` gets: the page of that number, and all that it held before.
  pub record Gets (pgno : ℕ) (s : PageCache m o ix) (r : ℕ × PageCache m o ix) : Type 0 where
    pub keeps : Keeps m crypto o law ix ixl n (IsPinned m crypto o law ix ixl n s) s r.1
    pub pinned : IsPinned m crypto o law ix ixl n r.1 r.0
    pub number : (r.1.page r.0).page_number ≡ pgno

  pin-Gets :
      (p : ℕ) (s : PageCache m o ix)
      → Inv m o ix law ixl n s
      → has p s.page_list ≡ true
      → Gets (s.page p).page_number s (p, pin m o ix p s)
  unfolding pin view
  pin-Gets p s inv listed = elim (Bool-cases (has p s.page_lru)) [
    | inl idle ↦
        rw (idle, pin)
          record {
            keeps = record {
              inv =
                  relink-Inv m o ix law ixl n s (erase p s.page_lru) inv
                    (Nodup-erase p s.page_lru inv.nodup_lru)
                    λ q h. inv.lru_listed q (ground (arith, in_lru q));
              view = λ q h i hi. refl;
              spares = λ q (h, held). ((h, ground (arith, in_lru q)), refl);
              bound = refl;
            };
            pinned = (listed, ground (arith, in_lru p));
            number = refl;
          }
    | inr held ↦
        rw (held, pin)
          record {
            keeps = record {
              inv = inv;
              view = SameView_refl m o ix law s;
              spares = λ q h. (h, refl);
              bound = refl;
            };
            pinned = (listed, held);
            number = refl;
          }
  ]
    where
      in_lru : (q : ℕ) → has q (erase p s.page_lru) ≡ (has q s.page_lru && not (q == p))
      in_lru q = has-erase q p s.page_lru inv.nodup_lru

  -- A call of get_page for a page below 1040448 keeps the invariant, the view and the pages that
  -- the caller holds, and returns a page of that number, which is on the list of pages and not on
  -- the list of idle pages.
  pub get_page-Gets :
      (fresh : ℕ → Buffer) (pgno : ℕ) (s : PageCache m o ix)
      → pgno < max_disk_pages
      → Inv m o ix law ixl n s
      → Gets pgno s (get_page m o ix fresh pgno s)
  unfolding get_page
  get_page-Gets fresh pgno s small inv =
      elim (Option-cases (find_first (number m o ix s) pgno s.page_list)) [
        | inl e ↦
            rw (found ∙ e, get_page)
              record {
                keeps = record {
                  inv = load_page-Inv m crypto o law ix ixl n fresh pgno small s inv (absent e);
                  view = load_page_view m crypto o law ix ixl n fresh pgno small s inv (absent e);
                  spares =
                      load_page_spares m crypto o law ix ixl n fresh pgno small s inv (absent e);
                  bound = unfold load_page in refl;
                };
                pinned = ((new e).0, (new e).1);
                number = (new e).2;
              }
        | inr (p, e) ↦ rw (found ∙ e, get_page) (of_found p e)
      ]
    where
      found :
          ix.find (number m o ix s) pgno s.page_hash ≡ find_first (number m o ix s) pgno s.page_list
      found = ixl.holds-find (number m o ix s) s.page_list s.page_hash pgno inv.holds inv.distinct

      absent :
          find_first (number m o ix s) pgno s.page_list ≡ none
          → (p : ℕ) → has p s.page_list ≡ true
          → (s.page p).page_number ≢ pgno
      absent e p h = find_first-none (number m o ix s) pgno s.page_list p e h

      new :
          (e : find_first (number m o ix s) pgno s.page_list ≡ none)
          → let (p, t) = load_page m o ix fresh pgno s in
            (has p t.page_list ≡ true)
            × (has p t.page_lru ≡ false)
            × ((t.page p).page_number ≡ pgno)
      new e = load_page_new m crypto o law ix ixl n fresh pgno small s inv (absent e)

      of_found :
          (p : ℕ)
          → find_first (number m o ix s) pgno s.page_list ≡ some p
          → Gets pgno s (p, pin m o ix p s)
      of_found p e =
          let (listed, at) = find_first_sound (number m o ix s) pgno s.page_list p e in
          subst (λ (k : ℕ). Gets k s (p, pin m o ix p s)) at (pin-Gets p s inv listed)
