-- ===== src/Aggregate/Canonical.antt =====
-- main.go's `aggregate`: its result as a normal form.
use native.Mathlib.Decide.{dec_lt}
use mathlib.Core.Path.{ap₂, subst}
use georoute.Base.{
  ℕ, ◌+◌, ◌-◌, ◌^◌, ◌<◌, ◌≤◌, ◌≡◌, refl, sym, ap, ◌∙◌, true, false, List, [], ◌∷◌, All, Bool-cases,
  inl, inr, ltb, if◌then◌else◌, arith,
}
use georoute.Netip.{Addr, Prefix, width, covers, IsAddr, IsMasked}
use georoute.Netip.Rank.{rank, first, lim, spans}
use georoute.Netip.Block.{size-pos, IsMasked-Aligned, IsMasked-top, covers-spans}
use georoute.Aggregate.Dedup.{Ordered}
use georoute.Aggregate.Merging.{IsReduced}
use georoute.Aggregate.Filling.{Ordered-below, Ordered-behind, base, Filled, fills-Filled}

-- Masked, ascending, disjoint and reduced.
pub record Normal (lo : ℕ) (l : List Prefix) : Type 0 where
  pub masks : All IsMasked l
  pub ordered : Ordered lo l
  pub reduced : IsReduced l

pub spans_head :
    (p : Prefix) (l : List Prefix) (r : ℕ) → first p ≤ r → r < lim p → spans (p ∷ l) r ≡ true
spans_head p l r h k = ground arith

rank-base : (p : Prefix) → first p ≡ base p.addr.is4 + p.addr.num
rank-base p = ground arith

-- The head of one normal list is no longer than that of another that spans as much.
module _ (lo : ℕ) (p q : Prefix) (l m : List Prefix) (nl : Normal lo (p ∷ l))
    (nm : Normal lo (q ∷ m)) (e : (r : ℕ) → spans (p ∷ l) r ≡ spans (q ∷ m) r) where
  first-le : first p ≤ first q
  first-le = elim (Bool-cases (ltb (first q) (first p))) [
    | inl less ↦
        let below =
          Ordered-below (first p) (p ∷ l) (first q) (omega arith, nl.ordered.1) (ground arith) in
        let held = spans_head q m (first q) (omega arith) (omega (arith, size-pos q)) in
        absurd (cc (sym held ∙ sym (e (first q)) ∙ below))
    | inr ge ↦ ground arith
  ]

  heads-Filled : Filled p.addr.is4 p.addr.num (width p.addr.is4 - p.bits) (q ∷ m)
  heads-Filled =
      fills-Filled p.addr.is4 (width p.addr.is4 - p.bits) p.addr.num (q ∷ m) (omega arith)
        (IsMasked-top p nl.masks.0) (IsMasked-Aligned p nl.masks.0) nm.masks
        (omega (arith, first-le, rank-base p), nm.ordered.1) nm.reduced
        (λ r low high.
          sym (e r) ∙ spans_head p l r (omega (arith, rank-base p)) (omega (arith, rank-base p)))

-- What lies above the end of the first block is spanned by the rest.
tails-spans :
    (lo : ℕ) (p q : Prefix) (l m : List Prefix)
    → Normal lo (p ∷ l)
    → Normal lo (q ∷ m)
    → lim p ≡ lim q
    → ((r : ℕ) → spans (p ∷ l) r ≡ spans (q ∷ m) r)
    → (r : ℕ) → spans l r ≡ spans m r
tails-spans lo p q l m nl nm lims e r = elim (Bool-cases (ltb r (lim p))) [
  | inl low ↦
      Ordered-below (lim p) l r nl.ordered.1 (ground arith)
      ∙ sym (Ordered-below (lim q) m r nm.ordered.1 (ground arith))
  | inr high ↦ sym (Ordered-behind p l r (ground arith)) ∙ e r ∙ Ordered-behind q m r (ground arith)
]

tail-Normal : (lo : ℕ) (p : Prefix) (l : List Prefix) → Normal lo (p ∷ l) → Normal (lim p) l
tail-Normal lo p l n = record { masks = n.masks.1; ordered = n.ordered.1; reduced = n.reduced.1 }

Prefix-eq :
    (p q : Prefix)
    → IsMasked p
    → IsMasked q
    → p.addr.is4 ≡ q.addr.is4
    → p.addr.num ≡ q.addr.num
    → p.bits ≡ q.bits
    → p ≡ q
Prefix-eq p q mp mq f e b = ground (arith, mp.valid.zone_free, mq.valid.zone_free)

-- Two normal lists that span the same ranks are equal.
pub Normal-unique :
    (lo : ℕ) (l m : List Prefix)
    → Normal lo l
    → Normal lo m
    → ((r : ℕ) → spans l r ≡ spans m r)
    → l ≡ m
Normal-unique lo [] [] nl nm e = refl
Normal-unique lo [] (q ∷ m) nl nm e =
    cc
      (sym (spans_head q m (first q) (omega arith) (omega (arith, size-pos q))) ∙ sym (e (first q)))
Normal-unique lo (p ∷ l) [] nl nm e =
    cc (sym (spans_head p l (first p) (omega arith) (omega (arith, size-pos p))) ∙ e (first p))
Normal-unique lo (p ∷ l) (q ∷ m) nl nm e =
    let (fam, num, b) = heads-Filled lo p q l m nl nm e in
    let (fam', num', b') = heads-Filled lo q p m l nm nl (λ r. sym (e r)) in
    let bits : p.bits ≡ q.bits =
      omega (arith, b, b', ap width fam, nl.masks.0.in_range, nm.masks.0.in_range) in
    let same : p ≡ q = Prefix-eq p q nl.masks.0 nm.masks.0 (sym fam) (sym num) bits in
    let lims : lim p ≡ lim q = ap lim same in
    let nm' : Normal (lim p) m = subst (λ (t : ℕ). Normal t m) (sym lims) (tail-Normal lo q m nm) in
    ap₂ ◌∷◌ same
      (Normal-unique (lim p) l m (tail-Normal lo p l nl) nm' (tails-spans lo p q l m nl nm lims e))

-- The zone-free address at a rank.
addr_at : ℕ → Addr
addr_at r =
    if ltb r (2 ^ 32)
    then record { is4 = true; num = r; zone = [] }
    else record { is4 = false; num = r - 2 ^ 32; zone = [] }

addr_at_lem : (r : ℕ) → r < 2 ^ 32 + 2 ^ 128 → IsAddr (addr_at r) × (rank (addr_at r) ≡ r)
unfolding addr_at
addr_at_lem r h = ground arith

spans_bounded :
    (l : List Prefix) (r : ℕ) → All IsMasked l → 2 ^ 32 + 2 ^ 128 ≤ r → spans l r ≡ false
spans_bounded [] r m h = refl
spans_bounded (p ∷ l) r m h = ground (arith, IsMasked-top p m.0, spans_bounded l r m.1 h)

-- Lists that cover the same addresses span the same ranks.
pub spans_of_covers :
    (l m : List Prefix)
    → All IsMasked l
    → All IsMasked m
    → ((a : Addr) → IsAddr a → covers l a ≡ covers m a)
    → (r : ℕ) → spans l r ≡ spans m r
spans_of_covers l m hl hm e r = elim (dec_lt r (2 ^ 32 + 2 ^ 128)) [
  | yes low ↦
      let (v, at) = addr_at_lem r low in
      ap (spans l) (sym at)
      ∙ sym (covers-spans l (addr_at r) hl v)
      ∙ e (addr_at r) v
      ∙ covers-spans m (addr_at r) hm v
      ∙ ap (spans m) at
  | no high ↦ spans_bounded l r hl (omega arith) ∙ sym (spans_bounded m r hm (omega arith))
]
