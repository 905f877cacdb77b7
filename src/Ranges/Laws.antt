-- ===== src/Ranges/Laws.antt =====
-- main.go's `rangeToCIDR` as a whole.
use native.Mathlib.Decide.{dec_lt}
use native.Mathlib.Nat.{mod-eq_of_lt, mod_self}
use mathlib.Core.Path.{subst}
use georoute.Base.{
  ℕ, zero, suc, ◌+◌, ◌%◌, ◌^◌, ◌<◌, ◌≤◌, ◌≡◌, sym, ap, ◌∙◌, Bool, false, not, Bool-cases, inl, inr,
  ◌⊎◌, ◌&&◌, ltb, leb, same, All, length, List, [], ◌∷◌, Option, none, some, arith,
}
use georoute.Netip.{
  Addr, Prefix, width, compare_addr, is_gt, last_addr, next_addr, covers, IsAddr, IsMasked,
}
use georoute.Netip.Rank.{rank, lim, spans, compare_addr-rank}
use georoute.Netip.Block.{size-pos, IsMasked-top, covers-spans}
use georoute.Netip.LastAddr.{last_addr_lem}
use georoute.Aggregate.Dedup.{Ordered}
use georoute.Aggregate.Merging.{Ordered-from}
use georoute.Aggregate.Canonical.{Normal, spans_of_covers}
use georoute.Aggregate.Minimal.{Normal-minimal}
use georoute.Ranges.{first_block, range_loop, room, range_to_cidr}
use georoute.Ranges.First.{
  IsRange, first_block-FirstBlock, RangeOf, past_end, last_block, next_block,
}

-- `Next` of the last address of a family is invalid, and of any other the address behind it.
pub next_addr_lem :
    (a : Addr)
    → IsAddr a
    → ((next_addr a ≡ none) × (a.num + 1 ≡ 2 ^ width a.is4))
      ⊎ ((next_addr a ≡ some (record a { num = a.num + 1 })) × (a.num + 1 < 2 ^ width a.is4))
unfolding next_addr
next_addr_lem a v = elim (dec_lt (a.num + 1) (2 ^ width a.is4)) [
  | yes low ↦ inr (ground (arith, mod-eq_of_lt low), low)
  | no top ↦
      let e : a.num + 1 ≡ 2 ^ width a.is4 = omega (arith, v.fits) in
      inl (ground (arith, ap (λ (t : ℕ). t % 2 ^ width a.is4) e, mod_self (2 ^ width a.is4)), e)
]

pub last-IsAddr : (p : Prefix) → IsMasked p → IsAddr (last_addr p)
last-IsAddr p m =
    let (fam, num, zone) = last_addr_lem p m in
    record { fits = rw fam (omega (arith, num, IsMasked-top p m)); zone_free = zone }

-- The test of the loop, on a range.
range_test :
    (start end_addr : Addr)
    → IsRange start end_addr
    → is_gt (compare_addr start end_addr) ≡ ltb end_addr.num start.num
range_test start end_addr v =
    ground (arith, compare_addr-rank start end_addr v.valid_start v.valid_end, v.family)

-- The outcome of a loop that had enough fuel.
pub record Finished (start end_addr : Addr) (res : Option (List Prefix)) : Type 0 where
  pub out : List Prefix
  pub returns : res ≡ some out
  pub is_range : RangeOf start end_addr out

module _ (start end_addr : Addr) (v : IsRange start end_addr) (h : start.num ≤ end_addr.num) where
  -- One round, given what the remaining rounds return.
  round-Finished :
      (fuel : ℕ)
      → ((next : Addr)
          → IsRange next end_addr
          → room next < room start
          → Finished next end_addr (range_loop fuel next end_addr))
      → Finished start end_addr (range_loop (suc fuel) start end_addr)
  unfolding range_loop
  round-Finished fuel rec =
      let p = first_block start end_addr in
      let f = first_block-FirstBlock start end_addr v h in
      let (fam, num, zone) = last_addr_lem p f.masks in
      let goes : is_gt (compare_addr start end_addr) ≡ false =
        range_test start end_addr v ∙ ground arith in
      let same_num = ap (λ (a : Addr). a.num) f.starts in
      let same_is4 = fam ∙ ap (λ (a : Addr). a.is4) f.starts in
      let at : rank (last_addr p) + 1 ≡ lim p = ground (arith, fam, num) in
      elim (next_addr_lem (last_addr p) (last-IsAddr p f.masks)) [
        | inl (e, top) ↦ record {
          out = p ∷ [];
          returns = ground (arith, goes, e);
          is_range =
              last_block start end_addr v p f ground
                (arith, at, top, same_is4, v.family, v.valid_end.fits);
        }
        | inr (e, low) ↦
            let next = record (last_addr p) { num = (last_addr p).num + 1 } in
            let w : IsRange next end_addr = record {
              valid_start = record { fits = low; zone_free = zone };
              valid_end = v.valid_end;
              family = same_is4 ∙ v.family;
            } in
            let r = rec next w (
              omega (
                arith,
                ap width same_is4,
                ap (λ (b : Bool). 2 ^ width b) same_is4,
                num,
                same_num,
                size-pos p,
                low,
              )) in
            record {
              out = p ∷ r.out;
              returns = ground (arith, goes, e, r.returns);
              is_range = next_block start end_addr v p f next r.out ground (arith, at) r.is_range;
            }
      ]

-- With as much fuel as addresses are left the loop returns, and its result is the range.
pub range_loop-Finished :
    (fuel : ℕ) (start end_addr : Addr)
    → IsRange start end_addr
    → room start ≤ fuel
    → Finished start end_addr (range_loop fuel start end_addr)
range_loop-Finished zero start end_addr v h = absurd (omega (arith, v.valid_start.fits))
range_loop-Finished (suc fuel) start end_addr v h = elim (dec_lt end_addr.num start.num) [
  | yes past ↦ record {
    out = [];
    returns = unfold range_loop in ground (arith, range_test start end_addr v);
    is_range = past_end start end_addr (ground arith);
  }
  | no ahead ↦
      round-Finished start end_addr v (omega arith) fuel
        (λ next w less. range_loop-Finished fuel next end_addr w (omega arith))
]

-- The fuel given, the addresses left in the family, is enough.
range_to_cidr-RangeOf :
    (start end_addr : Addr)
    → IsRange start end_addr
    → start.num ≤ end_addr.num
    → RangeOf start end_addr (range_to_cidr start end_addr)
unfolding range_to_cidr
range_to_cidr-RangeOf start end_addr v h =
    let r = range_loop-Finished (room start) start end_addr v (omega arith) in
    subst (RangeOf start end_addr)
      (ground (arith, range_test start end_addr v, v.family, r.returns)) r.is_range

-- Ends of two families, or in descending order, give no prefixes.
range_to_cidr_empty :
    (start end_addr : Addr)
    → IsAddr start
    → IsAddr end_addr
    → (same start.is4 end_addr.is4 && leb start.num end_addr.num) ≡ false
    → range_to_cidr start end_addr ≡ []
unfolding range_to_cidr
range_to_cidr_empty start end_addr vs ve h = ground (arith, compare_addr-rank start end_addr vs ve)

-- What both outcomes have in common.
range_to_cidr_lem :
    (start end_addr : Addr)
    → IsAddr start
    → IsAddr end_addr
    → Normal 0 (range_to_cidr start end_addr)
      × ((r : ℕ)
          → spans (range_to_cidr start end_addr) r
            ≡ (same start.is4 end_addr.is4 && leb (rank start) r && leb r (rank end_addr)))
range_to_cidr_lem start end_addr vs ve =
    elim (Bool-cases (same start.is4 end_addr.is4 && leb start.num end_addr.num)) [
      | inl ahead ↦
          let v : IsRange start end_addr = record {
            valid_start = vs;
            valid_end = ve;
            family = ground arith;
          } in
          let g = range_to_cidr-RangeOf start end_addr v (ground arith) in
          (
            record {
              masks = g.normal.masks;
              ordered =
                  Ordered-from 0 (rank start) (range_to_cidr start end_addr) (omega arith)
                    g.normal.ordered;
              reduced = g.normal.reduced;
            },
            λ r. ground (arith, g.spanned r),
          )
      | inr empty ↦
          rw (range_to_cidr_empty start end_addr vs ve empty)
            (record { masks = tt; ordered = tt; reduced = tt }, λ r. ground arith)
    ]

-- For two zone-free ends the prefixes hold a zone-free address exactly when both ends are of one
-- family and the address is not before the start nor behind the end, as `Addr.Compare` orders them.
pub range_to_cidr-covers :
    (start end_addr a : Addr)
    → IsAddr start
    → IsAddr end_addr
    → IsAddr a
    → covers (range_to_cidr start end_addr) a ≡ (
        same start.is4 end_addr.is4
        && not (is_gt (compare_addr start a))
        && not (is_gt (compare_addr a end_addr)))
range_to_cidr-covers start end_addr a vs ve va =
    let (n, spanned) = range_to_cidr_lem start end_addr vs ve in
    covers-spans (range_to_cidr start end_addr) a n.masks va
    ∙ spanned (rank a)
    ∙ ground (arith, compare_addr-rank start a vs va, compare_addr-rank a end_addr va ve)

-- For two zone-free ends the prefixes are masked, ascending and disjoint, and no list of masked
-- prefixes that covers the same zone-free addresses is shorter.
pub range_to_cidr_minimal :
    (start end_addr : Addr) (m : List Prefix)
    → IsAddr start
    → IsAddr end_addr
    → All IsMasked m
    → ((a : Addr) → IsAddr a → covers m a ≡ covers (range_to_cidr start end_addr) a)
    → All IsMasked (range_to_cidr start end_addr)
      × Ordered 0 (range_to_cidr start end_addr)
      × (length (range_to_cidr start end_addr) ≤ length m)
range_to_cidr_minimal start end_addr m vs ve hm e =
    let (n, spanned) = range_to_cidr_lem start end_addr vs ve in
    (
      n.masks,
      n.ordered,
      Normal-minimal (range_to_cidr start end_addr) m n hm
          (spans_of_covers (range_to_cidr start end_addr) m n.masks hm (λ a v. sym (e a v))),
    )
