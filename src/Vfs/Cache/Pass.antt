-- ===== src/Vfs/Cache/Pass.antt =====
-- aes_vfs/DiskCache.cc: the loop of `write` over the pieces of the range.
use sqlite3gen.Base.{
  ℕ, ◌+◌, ◌-◌, ◌*◌, ◌/◌, ◌%◌, ◌≤◌, ◌<◌, ◌≡◌, ◌≢◌, sym, ◌∙◌, ap, subst, List, [], ◌∷◌, arith, ltb,
  if◌then◌else◌, max,
}
use native.Mathlib.Decide.{dec_lt, ℕ_discrete}
use sqlite3gen.Vfs.Memory.{Buffer, page_size, memcpy}
use sqlite3gen.Vfs.Platform.{Mbedtls, IsMbedtls, Posix, IsPosix}
use sqlite3gen.Vfs.Disk.Slots.{max_disk_pages}
use sqlite3gen.Vfs.Index.{PageIndex, IsPageIndex}
use sqlite3gen.Vfs.Pages.{PageCache, release_page}
use sqlite3gen.Vfs.Pages.Invariant.{view, Inv, view_at}
use sqlite3gen.Vfs.Pages.Drop.{IsPinned, Keeps}
use sqlite3gen.Vfs.Pages.Release.{release_page-Keeps}
use sqlite3gen.Vfs.Cache.{PgInfo, share, piece, fill, write_each}
use sqlite3gen.Vfs.Cache.Pieces.{share_lem, Covers, Covers-mono}
use sqlite3gen.Vfs.Cache.Fill.{fill-Inv, fill_other, fill_view, fill_view_self}
use sqlite3gen.Vfs.Cache.Reach.{last_page, reach, highest_of, Overwritten}

module _ (m : Mbedtls) (crypto : IsMbedtls m) (o : Posix) (law : IsPosix o) (ix : PageIndex)
    (ixl : IsPageIndex ix) where
  pub record Wrote (n pos size off highest : ℕ) (buf : Buffer) (s : PageCache m o ix)
      (r : ℕ × PageCache m o ix) : Type 0 where
    pub inv : Inv m o ix law ixl (reach n pos size) r.1
    pub view : Overwritten m o law ix s r.1 pos size off buf
    pub top : r.0 ≡ highest_of highest pos size

  -- The first piece, copied, and its page given back.
  module _ (n pos size off p : ℕ) (buf : Buffer) (s : PageCache m o ix) (some_left : 0 < size)
      (pinned : IsPinned m crypto o law ix ixl 0 s p)
      (at : (s.page p).page_number ≡ pos / page_size) (joined : pos / page_size ≤ n)
      (inv : Inv m o ix law ixl n s) where
    abbrev first : PgInfo
    first = piece p (pos / page_size) pos size off

    abbrev w : ℕ
    w = share pos size

    abbrev filled : PageCache m o ix
    filled = fill m o ix first buf s

    abbrev released : PageCache m o ix
    released = release_page m o ix p filled

    filled-Inv : Inv m o ix law ixl (max n (pos / page_size + 1)) filled
    filled-Inv =
        subst (λ (k : ℕ). Inv m o ix law ixl (max n (k + 1)) filled) at
          (fill-Inv m crypto o law ix ixl n first buf s inv pinned.0 (omega (arith, at, joined)))

    kept :
        Keeps m crypto o law ix ixl
          (max n (pos / page_size + 1))
          (λ q. (q ≢ p) × IsPinned m crypto o law ix ixl 0 filled q)
          filled
          released
    unfolding fill
    kept = (release_page-Keeps m crypto o law ix ixl _ p filled filled-Inv pinned.0).0

    filled_here :
        (q i : ℕ)
        → q ≡ pos / page_size
        → (view m o ix law filled q i ≡ memcpy (s.page p).buffer (pos % page_size) buf off w i)
          × (view m o ix law s q i ≡ (s.page p).buffer i)
    filled_here q i same = (
      ap (λ (k : ℕ). view m o ix law filled k i) (same ∙ sym at)
          ∙ ap (λ (b : Buffer). b i)
              (fill_view_self m crypto o law ix ixl n first buf s inv pinned.0
                (omega (arith, at, joined))),
      ap (λ (b : Buffer). b i) (view_at m o ix law s p q inv.distinct pinned.0 (at ∙ sym same)),
    )

    filled_view : Overwritten m o law ix s filled pos w off buf
    unfolding memcpy
    filled_view q i hq hi = elim (ℕ_discrete q (pos / page_size)) [
      | yes same ↦ elim (dec_lt (q * page_size + i) pos) [
        | yes before ↦ ground (arith, filled_here q i same)
        | no from ↦
            let index : q * page_size + i - pos ≡ i - pos % page_size = omega arith in
            ground (arith, filled_here q i same, ap (λ (k : ℕ). buf (k + off)) index)
      ]
      | no other ↦
          let kept =
            ap (λ (b : Buffer). b i)
              (fill_view m crypto o law ix ixl n first buf s inv pinned.0
                (omega (arith, at, joined)) q (λ e. other (e ∙ at))) in
          ground (arith, kept, share_lem pos size)
    ]

    -- The rest of the range, written after it.
    rest_view :
        (t : PageCache m o ix)
        → Overwritten m o law ix released t (pos + w) (size - w) (off + w) buf
        → Overwritten m o law ix s t pos size off buf
    rest_view t rest q i hq hi = elim (dec_lt (q * page_size + i) (pos + w)) [
      | yes first ↦
          ground
            (arith, rest q i hq hi, kept.view q hq i hi, filled_view q i hq hi, share_lem pos size)
      | no later ↦
          let index : q * page_size + i - (pos + w) + (off + w) ≡ q * page_size + i - pos + off =
            omega arith in
          ground (
            arith,
            rest q i hq hi,
            kept.view q hq i hi,
            filled_view q i hq hi,
            share_lem pos size,
            ap buf index,
          )
    ]

  pub write_each-Wrote :
      (n pos size off highest : ℕ) (buf : Buffer) (pis : List PgInfo) (s : PageCache m o ix)
      → (0 < size → pos / page_size ≤ n)
      → (0 < size → last_page pos size < max_disk_pages)
      → Covers m crypto o law ix ixl s pos size off pis
      → Inv m o ix law ixl n s
      → Wrote n pos size off highest buf s (write_each m o ix pis buf highest s)
  unfolding write_each fill
  write_each-Wrote n pos size off highest buf [] s joined small done inv = record {
    inv = subst (λ (k : ℕ). Inv m o ix law ixl k s) (ground (arith, done)) inv;
    view = λ q i hq hi. ground (arith, done);
    top = ground (arith, done);
  }
  write_each-Wrote n pos size off highest buf (pi ∷ pis) s joined small
        (some_left, shape, pinned, at, rest) inv =
      let ih =
        write_each-Wrote (max n (k + 1)) (pos + w) (size - w) (off + w)
          (if ltb highest k then k else highest) buf pis t joined' small' covers kept'.inv in
      subst
        (λ (x : PgInfo).
          Wrote n pos size off highest buf s (write_each m o ix (x ∷ pis) buf highest s))
        (sym shape)
        record {
          inv =
              subst
                (λ (r : ℕ).
                  Inv m o ix law ixl r
                    (write_each m o ix pis buf (if ltb highest k then k else highest) t).1)
                reached ih.inv;
          view =
              rest_view n pos size off p buf s some_left pinned at (joined some_left) inv _ ih.view;
          top = ih.top ∙ topped;
        }
    where
      p : ℕ
      p = pi.pg

      k : ℕ
      k = pos / page_size

      w : ℕ
      w = share pos size

      one : PgInfo
      one = piece p k pos size off

      t : PageCache m o ix
      t = release_page m o ix p (fill m o ix one buf s)

      kept' :
          Keeps m crypto o law ix ixl
            (max n (k + 1))
            (λ q. (q ≢ p) × IsPinned m crypto o law ix ixl 0 (fill m o ix one buf s) q)
            (fill m o ix one buf s)
            t
      kept' = kept n pos size off p buf s some_left pinned at (joined some_left) inv

      last_eq : last_page (pos + w) (size - w) ≡ last_page pos size
      last_eq = ap (λ (j : ℕ). (j - 1) / page_size) (omega (arith, share_lem pos size))

      last_at : k ≤ last_page pos size
      last_at = omega (arith, some_left)

      last_one : size - w ≡ 0 → last_page pos size ≡ k
      last_one h = omega (arith, some_left, share_lem pos size)

      reached : reach (max n (k + 1)) (pos + w) (size - w) ≡ reach n pos size
      reached = elim (dec_lt 0 (size - w)) [
        | yes more ↦ ground (arith, some_left, last_eq, last_at)
        | no end ↦ let only = last_one (omega arith) in ground (arith, some_left, only)
      ]

      topped :
          highest_of (if ltb highest k then k else highest) (pos + w) (size - w)
          ≡ highest_of highest pos size
      topped = elim (dec_lt 0 (size - w)) [
        | yes more ↦ ground (arith, some_left, last_eq, last_at)
        | no end ↦ let only = last_one (omega arith) in ground (arith, some_left, only)
      ]

      joined' : 0 < size - w → (pos + w) / page_size ≤ max n (k + 1)
      joined' h = omega (arith, share_lem pos size)

      small' : 0 < size - w → last_page (pos + w) (size - w) < max_disk_pages
      small' h = omega (arith, small some_left, share_lem pos size)

      early : 0 < size - w → (s.page p).page_number < (pos + w) / page_size
      early h = omega (arith, at, share_lem pos size)

      held :
          (q : ℕ)
          → q ≢ p
          → IsPinned m crypto o law ix ixl 0 s q
          → IsPinned m crypto o law ix ixl 0 t q × (t.page q ≡ s.page q)
      held q ne h =
          let (stays, same) = kept'.spares q (ne, h) in
          (stays, same ∙ fill_other m o ix one buf s q ne)

      covers : Covers m crypto o law ix ixl t (pos + w) (size - w) (off + w) pis
      covers =
          Covers-mono m crypto o law ix ixl s t p (pos + w) (size - w) (off + w) pis early held rest
