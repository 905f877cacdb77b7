-- ===== src/Ranges/First.antt =====
-- main.go's `rangeToCIDR`: one round of the outer loop.
use mathlib.Core.Path.{subst}
use georoute.Base.{
  ℕ, suc, ◌+◌, ◌-◌, ◌*◌, ◌/◌, ◌<◌, ◌≤◌, ◌≡◌, sym, ap, ◌∙◌, true, false, Bool-cases, inl, inr, ◌&&◌,
  leb, List, [], ◌∷◌, arith,
}
use georoute.Netip.{Addr, Prefix, width, block, masked, prefix_from, IsAddr, IsMasked}
use georoute.Netip.Rank.{rank, first, size, lim, spans}
use georoute.Netip.Block.{size-pos}
use georoute.Aggregate.{can_merge, parent}
use georoute.Aggregate.Dedup.{Ordered}
use georoute.Aggregate.Merging.{
  masked-IsMasked, can_merge-parts, Unmergeable, Merged, can_merge-Merged,
}
use georoute.Aggregate.Canonical.{Normal, spans_head}
use georoute.Ranges.{find_mask, first_block}
use georoute.Ranges.Mask.{BlockAt, single-BlockAt, find_mask-Longest}

-- Both ends are zone-free addresses of one family.
pub record IsRange (start end_addr : Addr) : Type 0 where
  pub valid_start : IsAddr start
  pub valid_end : IsAddr end_addr
  pub family : start.is4 ≡ end_addr.is4

-- The first prefix of a range: it starts there, ends inside, and no larger one does.
pub record FirstBlock (start end_addr : Addr) (p : Prefix) : Type 0 where
  pub masks : IsMasked p
  pub starts : p.addr ≡ start
  pub ends : p.addr.num + size p ≤ end_addr.num + 1
  pub longest : (t : ℕ) → p.bits ≡ suc t → BlockAt start end_addr t → ⊥

pub first_block-FirstBlock :
    (start end_addr : Addr)
    → IsRange start end_addr
    → start.num ≤ end_addr.num
    → FirstBlock start end_addr (first_block start end_addr)
unfolding first_block masked
first_block-FirstBlock start end_addr v h =
    let m =
      find_mask-Longest start end_addr v.valid_start v.valid_end v.family h (width start.is4)
        (single-BlockAt start end_addr v.valid_start v.valid_end v.family h) in
    record {
      masks =
          masked-IsMasked (prefix_from start (find_mask start end_addr (width start.is4)))
            m.fits.in_range v.valid_start.fits;
      starts = ground (arith, m.fits.starts, v.valid_start.zone_free);
      ends = omega (arith, m.fits.starts, m.fits.ends);
      longest = m.longest;
    }

module _ (start end_addr : Addr) (v : IsRange start end_addr) (p : Prefix)
    (f : FirstBlock start end_addr p) where
  -- A merge with the next block would have been a larger first block.
  parent-BlockAt :
      (q : Prefix)
      → Merged p q
      → 0 < p.bits
      → lim q ≤ rank end_addr + 1
      → BlockAt start end_addr (p.bits - 1)
  unfolding parent masked
  parent-BlockAt q g pos h =
      let n = p.bits - 1 in
      let fam = ap (λ (a : Addr). a.is4) f.starts ∙ v.family in
      let floor : p.addr.num / block p.addr.is4 n * block p.addr.is4 n ≡ p.addr.num =
        ground (arith, g.start) in
      let top : p.addr.num + block p.addr.is4 n ≤ end_addr.num + 1 =
        ground (arith, g.start, g.stop, fam) in
      record {
        in_range = subst (λ (a : Addr). n ≤ width a.is4) f.starts (omega (arith, f.masks.in_range));
        starts = subst (λ (a : Addr). a.num / block a.is4 n * block a.is4 n ≡ a.num) f.starts floor;
        ends = subst (λ (a : Addr). a.num + block a.is4 n ≤ end_addr.num + 1) f.starts top;
      }

  not-can_merge :
      (q : Prefix)
      → IsMasked q
      → lim p ≤ first q
      → lim q ≤ rank end_addr + 1
      → can_merge p q ≡ false
  not-can_merge q mq h k = elim (Bool-cases (can_merge p q)) [
    | inl together ↦
        let (eb, pos, fam, num) = can_merge-parts p q together in
        absurd (
          f.longest (p.bits - 1) (omega arith)
            (parent-BlockAt q (can_merge-Merged p q f.masks mq h together) pos k))
    | inr separate ↦ separate
  ]

-- What the loop returns from `start` on.
pub record RangeOf (start end_addr : Addr) (out : List Prefix) : Type 0 where
  pub normal : Normal (rank start) out
  pub spanned : (r : ℕ) → spans out r ≡ (leb (rank start) r && leb r (rank end_addr))

-- Behind the end there is nothing.
pub past_end : (start end_addr : Addr) → rank end_addr < rank start → RangeOf start end_addr []
past_end start end_addr h = record {
  normal = record { masks = tt; ordered = tt; reduced = tt };
  spanned = λ r. ground arith;
}

module _ (start end_addr : Addr) (v : IsRange start end_addr) (p : Prefix)
    (f : FirstBlock start end_addr p) where
  pub lim-rank : (lim p ≤ rank end_addr + 1) × (first p ≡ rank start)
  lim-rank =
      let fam = ap (λ (a : Addr). a.is4) f.starts ∙ v.family in
      (ground (arith, f.ends), ap rank f.starts)

  -- The block that ends the family ends the range.
  pub last_block : rank end_addr < lim p → RangeOf start end_addr (p ∷ [])
  last_block h = record {
    normal = record {
      masks = (f.masks, tt);
      ordered = (omega (arith, lim-rank), tt);
      reduced = (tt, tt);
    };
    spanned = λ r. ground (arith, lim-rank);
  }

  unmergeable :
      (next : Addr) (out : List Prefix)
      → rank next ≡ lim p
      → RangeOf next end_addr out
      → Unmergeable p out
  unmergeable next [] e g = tt
  unmergeable next (q ∷ l) e g =
      let last = lim q - 1 in
      let held = spans_head q l last (omega (arith, size-pos q)) (omega (arith, size-pos q)) in
      let inside : (leb (rank next) last && leb last (rank end_addr)) ≡ true =
        sym (g.spanned last) ∙ held in
      not-can_merge start end_addr v p f q g.normal.masks.0 (omega (arith, g.normal.ordered.0))
        (ground (arith, size-pos q))

  -- A block and the range behind it.
  pub next_block :
      (next : Addr) (out : List Prefix)
      → rank next ≡ lim p
      → RangeOf next end_addr out
      → RangeOf start end_addr (p ∷ out)
  next_block next out e g = record {
    normal = record {
      masks = (f.masks, g.normal.masks);
      ordered = (omega (arith, lim-rank), subst (λ (t : ℕ). Ordered t out) e g.normal.ordered);
      reduced = (unmergeable next out e g, g.normal.reduced);
    };
    spanned = λ r. ground (arith, lim-rank, e, g.spanned r, size-pos p);
  }
