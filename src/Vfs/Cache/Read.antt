-- ===== src/Vfs/Cache/Read.antt =====
-- aes_vfs/DiskCache.cc: `read` fills the caller's buffer from the file that a client sees.
use sqlite3gen.Base.{
  ℕ, ◌+◌, ◌-◌, ◌/◌, ◌%◌, ◌^◌, ◌≤◌, ◌<◌, ◌≡◌, ◌≢◌, refl, ◌∙◌, ap, subst, List, [], ◌∷◌, arith, ltb,
  leb, ◌&&◌, if◌then◌else◌,
}
use native.Mathlib.Decide.{dec_lt}
use sqlite3gen.Vfs.Memory.{Buffer, page_size, memcpy}
use sqlite3gen.Vfs.Platform.{Mbedtls, IsMbedtls, Posix, IsPosix}
use sqlite3gen.Vfs.Disk.Slots.{max_disk_pages}
use sqlite3gen.Vfs.Index.{PageIndex, IsPageIndex}
use sqlite3gen.Vfs.Pages.{PageCache, release_page}
use sqlite3gen.Vfs.Pages.Invariant.{view, Inv, SameView, SameView_trans, view_at}
use sqlite3gen.Vfs.Pages.Drop.{IsPinned, Keeps}
use sqlite3gen.Vfs.Pages.Release.{release_page-Keeps}
use sqlite3gen.Vfs.Cache.{PgInfo, share, DiskCache, get_pages, read_each, read}
use sqlite3gen.Vfs.Cache.Pieces.{share_lem, Covers, Covers-mono, pages_loop-Covers}

module _ (m : Mbedtls) (crypto : IsMbedtls m) (o : Posix) (law : IsPosix o) (ix : PageIndex)
    (ixl : IsPageIndex ix) where
  -- Byte `j` of the file that a client sees.
  abbrev pub byte_at : PageCache m o ix → ℕ → ℕ
  byte_at s j = view m o ix law s (j / page_size) (j % page_size)

  -- The buffer `b` overwritten from byte `off` by the `size` bytes of the file from `pos`.
  abbrev pub Filled : PageCache m o ix → (pos size off : ℕ) → (before after : Buffer) → Type 0
  Filled s pos size off before after =
      (j : ℕ)
      → after j
        ≡ (if leb off j && ltb j (off + size) then byte_at s (pos + (j - off)) else before j)

  Filled-before :
      (s t : PageCache m o ix) (pos size : ℕ) (before after : Buffer)
      → (pos + size - 1) / page_size < max_disk_pages
      → SameView m o ix law s t
      → Filled t pos size 0 before after
      → Filled s pos size 0 before after
  Filled-before s t pos size before after small same filled j = elim (dec_lt j size) [
    | yes h ↦
        let at = same ((pos + j) / page_size) (omega arith) ((pos + j) % page_size) (omega arith) in
        filled j ∙ ground (arith, at)
    | no h ↦ filled j ∙ ground arith
  ]

  module _ (s t : PageCache m o ix) (pos size off : ℕ) (page : Buffer)
      (small : pos / page_size < max_disk_pages)
      (shown : view m o ix law s (pos / page_size) ≡ page) where
    abbrev w : ℕ
    w = share pos size

    -- The bytes of the piece lie in the page of `pos`.
    in_page : (k : ℕ) → k < w → page (k + pos % page_size) ≡ byte_at s (pos + k)
    in_page k h =
        let same_page : (pos + k) / page_size ≡ pos / page_size =
          omega (arith, share_lem pos size) in
        let at : (pos + k) % page_size ≡ k + pos % page_size = omega (arith, share_lem pos size) in
        rw (same_page) (rw at (rw shown refl))

    module _ (last : 0 < size → (pos + size - 1) / page_size < max_disk_pages)
        (same : SameView m o ix law s t) (buf out : Buffer)
        (rest : Filled t
          (pos + w)
          (size - w)
          (off + w)
          (memcpy buf off page (pos % page_size) w)
          out) where
      later : (k : ℕ) → w ≤ k → k < size → byte_at t (pos + w + (k - w)) ≡ byte_at s (pos + k)
      later k h lt =
          let at : pos + w + (k - w) ≡ pos + k = omega arith in
          let end : (pos + size - 1) / page_size < max_disk_pages = last (omega arith) in
          rw at (same ((pos + k) / page_size) (omega arith) ((pos + k) % page_size) (omega arith))

      fits : w ≤ size
      fits = omega (arith, share_lem pos size)

      -- One piece and then the rest fill the range.
      piece-Filled : Filled s pos size off buf out
      unfolding memcpy
      piece-Filled j = elim (dec_lt j off) [
        | yes before ↦ rest j ∙ ground arith
        | no from ↦ elim (dec_lt j (off + w)) [
          | yes here ↦
              let got = in_page (j - off) (omega arith) in rest j ∙ ground (arith, got, fits)
          | no beyond ↦ elim (dec_lt j (off + size)) [
            | yes more ↦
                let index : j - (off + w) ≡ j - off - w = omega arith in
                let got =
                  ap (λ (k : ℕ). byte_at t (pos + w + k)) index
                  ∙ later (j - off) (omega arith) (omega arith) in
                rest j ∙ ground (arith, got, fits)
            | no past ↦ rest j ∙ ground (arith, fits)
          ]
        ]
      ]

  module _ (n : ℕ) where
    pub read_each-Filled :
        (pis : List PgInfo) (pos size off : ℕ) (buf : Buffer) (s : PageCache m o ix)
        → (0 < size → (pos + size - 1) / page_size < max_disk_pages)
        → Covers m crypto o law ix ixl s pos size off pis
        → Inv m o ix law ixl n s
        → let (buf', t) = read_each m o ix pis buf s in
          Filled s pos size off buf buf' × Inv m o ix law ixl n t × SameView m o ix law s t
    unfolding read_each
    read_each-Filled [] pos size off buf s small done inv =
        (λ j. ground (arith, done), inv, λ q h i hi. refl)
    read_each-Filled (pi ∷ pis) pos size off buf s small (some_left, shape, pinned, at, rest) inv =
        let (filled, inv', same) =
          read_each-Filled pis (pos + w) (size - w) (off + w) buf₁ s₁ small' covers kept.inv in
        (
          piece-Filled s s₁ pos size off (s.page p).buffer (page_small) shown small kept.view buf _
              (subst
                (λ (b : Buffer).
                  Filled s₁ (pos + w) (size - w) (off + w) b (read_each m o ix pis buf₁ s₁).0)
                copied filled),
          inv',
          SameView_trans m o ix law s s₁ _ kept.view same,
        )
      where
        w : ℕ
        w = share pos size

        p : ℕ
        p = pi.pg

        s₁ : PageCache m o ix
        s₁ = release_page m o ix p s

        buf₁ : Buffer
        buf₁ = memcpy buf pi.offset_in_arg (s.page p).buffer pi.offset_in_page pi.size_in_page

        kept :
            Keeps m crypto o law ix ixl n (λ q. (q ≢ p) × IsPinned m crypto o law ix ixl n s q) s s₁
        kept = (release_page-Keeps m crypto o law ix ixl n p s inv pinned.0).0

        small' : 0 < size - w → (pos + w + (size - w) - 1) / page_size < max_disk_pages
        small' h = omega (arith, small some_left, share_lem pos size)

        early : 0 < size - w → (s.page p).page_number < (pos + w) / page_size
        early h = omega (arith, at, share_lem pos size)

        page_small : pos / page_size < max_disk_pages
        page_small = omega (arith, small some_left)

        shown : view m o ix law s (pos / page_size) ≡ (s.page p).buffer
        shown = view_at m o ix law s p (pos / page_size) inv.distinct pinned.0 at

        copied : buf₁ ≡ memcpy buf off (s.page p).buffer (pos % page_size) w
        copied =
            ap
              (λ (x : PgInfo).
                memcpy buf x.offset_in_arg (s.page p).buffer x.offset_in_page x.size_in_page)
              shape

        covers : Covers m crypto o law ix ixl s₁ (pos + w) (size - w) (off + w) pis
        covers =
            Covers-mono m crypto o law ix ixl s s₁ p (pos + w) (size - w) (off + w) pis early
              (λ q ne h. kept.spares q (ne, h)) rest

    -- A read of a range of at least one byte that ends below page 1040448, on a cache that keeps
    -- its invariant, returns the size, fills the first bytes of the buffer with the range of the
    -- file that a client sees and leaves the rest of the buffer; the invariant holds after it, and
    -- the view and the file size stay.
    pub read-Filled :
        (fresh : ℕ → Buffer) (pos size : ℕ) (buf : Buffer) (d : DiskCache m o ix)
        → 0 < size
        → (pos + size - 1) / page_size < max_disk_pages
        → Inv m o ix law ixl n d.pc
        → let (got, buf', d') = read m o ix fresh pos buf size d in
          (got ≡ size)
          × Filled d.pc pos size 0 buf buf'
          × Inv m o ix law ixl n d'.pc
          × SameView m o ix law d.pc d'.pc
          × (d'.file_size ≡ d.file_size)
    unfolding read get_pages
    read-Filled fresh pos size buf d some small inv =
        let start = pos / page_size in
        let (covers, keeps) =
          pages_loop-Covers m crypto o law ix ixl n fresh ((pos + size - 1) / page_size + 1 - start)
            (start % 2 ^ 32) pos size 0 d.pc (λ e. absurd (omega arith)) (λ h. omega arith)
            (λ h. omega arith) (λ h. small) inv in
        let (filled, inv', same) =
          read_each-Filled _ pos size 0 buf _ (λ h. small) covers keeps.inv in
        (
          refl,
          Filled-before d.pc _ pos size buf _ small keeps.view filled,
          inv',
          SameView_trans m o ix law d.pc _ _ keeps.view same,
          refl,
        )
