-- ===== src/Ranges/Mask.antt =====
-- main.go's `rangeToCIDR`: the inner loop.
use native.Mathlib.Nat.{sub_self, div-one}
use georoute.Base.{
  ℕ, zero, suc, ◌+◌, ◌*◌, ◌/◌, ◌^◌, ◌≤◌, ◌≡◌, sym, ap, ◌∙◌, true, false, Bool-cases, inl, inr,
  compare, arith,
}
use georoute.Netip.{
  Addr, width, block, compare_addr, is_gt, addr_eq, prefix_from, masked, last_addr, IsAddr,
  IsMasked,
}
use georoute.Netip.Rank.{compare_addr-rank}
use georoute.Netip.Block.{IsMasked-top}
use georoute.Netip.LastAddr.{last_addr_lem}
use georoute.Aggregate.Merging.{masked-IsMasked}
use georoute.Ranges.{find_mask}

-- A block of this length starts at `start` and ends by `end_addr`.
pub record BlockAt (start end_addr : Addr) (mask : ℕ) : Type 0 where
  pub in_range : mask ≤ width start.is4
  pub starts : start.num / block start.is4 mask * block start.is4 mask ≡ start.num
  pub ends : start.num + block start.is4 mask ≤ end_addr.num + 1

module _ (start end_addr : Addr) (vs : IsAddr start) (ve : IsAddr end_addr)
    (family : start.is4 ≡ end_addr.is4) (ascending : start.num ≤ end_addr.num) where
  -- A single address is such a block.
  pub single-BlockAt : BlockAt start end_addr (width start.is4)
  single-BlockAt =
      let one : block start.is4 (width start.is4) ≡ 1 =
        ap (λ (t : ℕ). 2 ^ t) (sub_self (width start.is4)) in
      record {
        in_range = omega arith;
        starts = ap (λ (t : ℕ). start.num / t * t) one ∙ omega (arith, div-one start.num);
        ends = omega (arith, one);
      }

  candidate-IsMasked : (t : ℕ) → t ≤ width start.is4 → IsMasked (masked (prefix_from start t))
  candidate-IsMasked t h = masked-IsMasked (prefix_from start t) h vs.fits

  -- The last address of the block tried, and its order against the end of the range.
  candidate_last :
      (t : ℕ)
      → t ≤ width start.is4
      → let last = last_addr (masked (prefix_from start t)) in
        (last.num + 1 ≡ start.num / block start.is4 t * block start.is4 t + block start.is4 t)
        × (compare_addr last end_addr ≡ compare last.num end_addr.num)
  unfolding masked
  candidate_last t h =
      let c = masked (prefix_from start t) in
      let m = candidate-IsMasked t h in
      let (fam, num, zone) = last_addr_lem c m in
      let v : IsAddr (last_addr c) = record {
        fits = rw fam (omega (arith, num, IsMasked-top c m));
        zone_free = zone;
      } in
      (num, compare_addr-rank (last_addr c) end_addr v ve ∙ ground (arith, fam))

  -- Both tests of the loop pass exactly at such a block.
  tests_pass :
      (t : ℕ)
      → t ≤ width start.is4
      → addr_eq (masked (prefix_from start t)).addr start ≡ true
      → is_gt (compare_addr (last_addr (masked (prefix_from start t))) end_addr) ≡ false
      → BlockAt start end_addr t
  unfolding addr_eq masked
  tests_pass t h a b =
      let (num, order) = candidate_last t h in
      let starts : start.num / block start.is4 t * block start.is4 t ≡ start.num = ground arith in
      record { in_range = h; starts = starts; ends = ground arith }

  tests_fail :
      (t : ℕ)
      → t ≤ width start.is4
      → BlockAt start end_addr t
      → (addr_eq (masked (prefix_from start t)).addr start ≡ true)
        × (is_gt (compare_addr (last_addr (masked (prefix_from start t))) end_addr) ≡ false)
  unfolding addr_eq masked
  tests_fail t h b =
      let (num, order) = candidate_last t h in (ground (arith, vs.zone_free), ground arith)

  tried :
      (t u : ℕ)
      → suc t ≡ suc u
      → BlockAt start end_addr u
      → (addr_eq (masked (prefix_from start t)).addr start ≡ true)
        × (is_gt (compare_addr (last_addr (masked (prefix_from start t))) end_addr) ≡ false)
  tried t u e c = let e' : t ≡ u = omega arith in rw e' (tests_fail u c.in_range c)

  -- The mask found is such a block's, and the next shorter one is not.
  pub record Longest (mask : ℕ) : Type 0 where
    pub fits : BlockAt start end_addr mask
    pub longest : (t : ℕ) → mask ≡ suc t → BlockAt start end_addr t → ⊥

  pub find_mask-Longest :
      (mask : ℕ) → BlockAt start end_addr mask → Longest (find_mask start end_addr mask)
  unfolding find_mask
  find_mask-Longest zero b = record { fits = b; longest = λ t e c. cc }
  find_mask-Longest (suc t) b =
      let p = masked (prefix_from start t) in
      elim (Bool-cases (addr_eq p.addr start)) [
        | inr moved ↦
            rw moved (record { fits = b; longest = λ u e c. cc (sym moved ∙ (tried t u e c).0) })
        | inl stays ↦ rw stays (elim (Bool-cases (is_gt (compare_addr (last_addr p) end_addr))) [
          | inl beyond ↦
              rw beyond
                (record { fits = b; longest = λ u e c. cc (sym beyond ∙ (tried t u e c).1) })
          | inr inside ↦
              rw inside
                (find_mask-Longest t (tests_pass t (omega (arith, b.in_range)) stays inside))
        ])
      ]
