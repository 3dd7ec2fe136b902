-- ===== src/Vfs/Cache/Pieces.antt =====
-- aes_vfs/DiskCache.cc: `getPages` cuts a range into pieces that follow one another, each within
-- one page, and holds the page of each.
use sqlite3gen.Base.{
  ℕ, zero, suc, ◌+◌, ◌-◌, ◌/◌, ◌%◌, ◌<◌, ◌≡◌, ◌≢◌, refl, ◌∙◌, ap, List, [], ◌∷◌, arith, min,
}
use sqlite3gen.Vfs.Memory.{Buffer, page_size}
use sqlite3gen.Vfs.Platform.{Mbedtls, IsMbedtls, Posix, IsPosix}
use sqlite3gen.Vfs.Disk.{DiskPage}
use sqlite3gen.Vfs.Disk.Slots.{max_disk_pages}
use sqlite3gen.Vfs.Index.{PageIndex, IsPageIndex}
use sqlite3gen.Vfs.Pages.{PageCache, get_page}
use sqlite3gen.Vfs.Pages.Invariant.{Inv}
use sqlite3gen.Vfs.Pages.Drop.{IsPinned, Keeps}
use sqlite3gen.Vfs.Pages.Release.{Keeps_refl, Keeps_trans}
use sqlite3gen.Vfs.Pages.Get.{Gets, get_page-Gets}
use sqlite3gen.Vfs.Cache.{PgInfo, share, piece, pages_loop}

pub share_lem : (pos size : ℕ) → share pos size ≡ min (page_size - pos % page_size) size
unfolding share
share_lem pos size = ground arith

positive : (left rounds : ℕ) → (left ≡ 0 → suc rounds ≡ 0) → 0 < left
positive zero rounds h = absurd (omega (arith, h refl))
positive (suc left) rounds h = omega arith

module _ (m : Mbedtls) (crypto : IsMbedtls m) (o : Posix) (law : IsPosix o) (ix : PageIndex)
    (ixl : IsPageIndex ix) where
  -- The pieces make up the range from `pos`, of `size` bytes, whose first byte is byte `off` of
  -- the caller's buffer; each page is held, and has the number that its piece says.
  abbrev pub Covers : PageCache m o ix → (pos size off : ℕ) → List PgInfo → Type 0
  Covers s pos size off [] = size ≡ 0
  Covers s pos size off (pi ∷ pis) =
      (0 < size)
      × (pi ≡ piece pi.pg (pos / page_size) pos size off)
      × IsPinned m crypto o law ix ixl 0 s pi.pg
      × ((s.page pi.pg).page_number ≡ pos / page_size)
      × Covers s (pos + share pos size) (size - share pos size) (off + share pos size) pis

  -- The pieces stay held while the page of an earlier number is given back.
  pub Covers-mono :
      (s t : PageCache m o ix) (p pos size off : ℕ) (pis : List PgInfo)
      → (0 < size → (s.page p).page_number < pos / page_size)
      → ((q : ℕ)
          → q ≢ p
          → IsPinned m crypto o law ix ixl 0 s q
          → IsPinned m crypto o law ix ixl 0 t q × (t.page q ≡ s.page q))
      → Covers s pos size off pis
      → Covers t pos size off pis
  Covers-mono s t p pos size off [] early spares c = c
  Covers-mono s t p pos size off (pi ∷ pis) early spares (some_left, shape, pinned, at, rest) =
      let apart : pi.pg ≢ p = λ e.
        absurd (omega (arith, early some_left, at, ap (λ (r : ℕ). (s.page r).page_number) e)) in
      let (held, same) = spares pi.pg apart pinned in
      (
        some_left,
        shape,
        held,
        ap (λ (g : DiskPage). g.page_number) same ∙ at,
        Covers-mono s t p (pos + share pos size) (size - share pos size) (off + share pos size) pis
            later spares rest,
      )
    where
      later :
          0 < size - share pos size → (s.page p).page_number < (pos + share pos size) / page_size
      later h = omega (arith, early some_left, share_lem pos size)

  module _ (n : ℕ) (fresh : ℕ → Buffer) where
    pub pages_loop-Covers :
        (rounds pgno pos size off : ℕ) (s : PageCache m o ix)
        → (size ≡ 0 → rounds ≡ 0)
        → (0 < size → rounds + pos / page_size ≡ (pos + size - 1) / page_size + 1)
        → (0 < size → pgno ≡ pos / page_size)
        → (0 < size → (pos + size - 1) / page_size < max_disk_pages)
        → Inv m o ix law ixl n s
        → let (pis, t) = pages_loop m o ix fresh rounds pgno pos size off s in
          Covers t pos size off pis
          × Keeps m crypto o law ix ixl n (IsPinned m crypto o law ix ixl n s) s t
    unfolding pages_loop
    pages_loop-Covers zero pgno pos size off s none_left enough number small inv =
        (nothing size enough, Keeps_refl m crypto o law ix ixl n s inv)
      where
        nothing :
            (left : ℕ)
            → (0 < left → 0 + pos / page_size ≡ (pos + left - 1) / page_size + 1)
            → left ≡ 0
        nothing zero h = refl
        nothing (suc left) h = absurd (omega (arith, h (omega arith)))
    pages_loop-Covers (suc rounds) pgno pos size off s none_left enough number small inv =
        let rest =
          pages_loop-Covers rounds (pgno + 1) (pos + w) (size - w) (off + w) s₁ ends goes_on
            (λ h. omega (arith, here, last h)) small' got.keeps.inv in
        let held = rest.1.spares p got.pinned in
        (
          (
            some_left,
            ap (λ (k : ℕ). piece p k pos size off) here,
            held.0,
            ap (λ (g : DiskPage). g.page_number) held.1 ∙ got.number ∙ here,
            rest.0,
          ),
          Keeps_trans m crypto o law ix ixl n (IsPinned m crypto o law ix ixl n s) s s₁ _ got.keeps
              rest.1,
        )
      where
        some_left : 0 < size
        some_left = positive size rounds none_left

        here : pgno ≡ pos / page_size
        here = number some_left

        w : ℕ
        w = share pos size

        p : ℕ
        p = (get_page m o ix fresh pgno s).0

        s₁ : PageCache m o ix
        s₁ = (get_page m o ix fresh pgno s).1

        got : Gets m crypto o law ix ixl n pgno s (get_page m o ix fresh pgno s)
        got =
            get_page-Gets m crypto o law ix ixl n fresh pgno s
              (omega (arith, here, some_left, small some_left)) inv

        last : 0 < size - w → (pos + w) / page_size ≡ pos / page_size + 1
        last h = omega (arith, share_lem pos size)

        done : size - w ≡ 0 → (pos + size - 1) / page_size ≡ pos / page_size
        done h = omega (arith, some_left, share_lem pos size)

        ends : size - w ≡ 0 → rounds ≡ 0
        ends h = omega (arith, some_left, enough some_left, done h)

        goes_on :
            0 < size - w
            → rounds + (pos + w) / page_size ≡ (pos + w + (size - w) - 1) / page_size + 1
        goes_on h = omega (arith, enough some_left, last h, share_lem pos size)

        small' : 0 < size - w → (pos + w + (size - w) - 1) / page_size < max_disk_pages
        small' h = omega (arith, small some_left, share_lem pos size)
