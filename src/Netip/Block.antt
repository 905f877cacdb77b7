-- ===== src/Netip/Block.antt =====
-- A masked prefix (net/netip) as an interval of ranks.
use native.Mathlib.Nat.{sub-zero, suc-mul}
use georoute.Base.{
  ℕ, suc, ◌+◌, ◌-◌, ◌*◌, ◌/◌, ◌^◌, ◌<◌, ◌≤◌, ◌≡◌, refl, sym, ap, ◌∙◌, ◌⊎◌, Bool, true, false, List,
  [], ◌∷◌, ◌&&◌, leb, ◌==◌, All, arith,
}
use georoute.Base.Blocks.{pow-pos, pow-split, Aligned, Aligned-step, Aligned-mul, Aligned-div_iff}
use georoute.Netip.{Addr, Prefix, width, block, contains, covers, IsAddr, IsMasked}
use georoute.Netip.Rank.{rank, first, size, lim, within, spans}

pub size-pos : (p : Prefix) → 0 < size p
size-pos p = pow-pos (width p.addr.is4 - p.bits)

pub IsMasked-Aligned : (p : Prefix) → IsMasked p → Aligned p.addr.num (size p)
IsMasked-Aligned p m = (p.addr.num / size p, sym m.cleared)

-- The block ends within its family.
pub IsMasked-top : (p : Prefix) → IsMasked p → p.addr.num + size p ≤ 2 ^ width p.addr.is4
IsMasked-top p m =
    Aligned-step p.addr.num (2 ^ width p.addr.is4) (size p) (IsMasked-Aligned p m)
      (
        2 ^ (p.bits - 0),
        ap (λ (t : ℕ). 2 ^ t) (sym (sub-zero (width p.addr.is4)))
            ∙ pow-split (width p.addr.is4) 0 p.bits (omega arith) m.in_range,
      )
      m.valid.fits

quotient_within :
    (p : Prefix) (a : Addr)
    → IsMasked p
    → IsAddr a
    → p.addr.is4 ≡ a.is4
    → (a.num / size p == p.addr.num / size p) ≡ within p (rank a)
quotient_within p a m v e =
    let (f, g) = Aligned-div_iff p.addr.num (size p) a.num (size-pos p) (IsMasked-Aligned p m) in
    ground (arith, f, g)

-- `Contains` is membership of the rank in the interval.
pub contains-within :
    (p : Prefix) (a : Addr) → IsMasked p → IsAddr a → contains p a ≡ within p (rank a)
unfolding contains
contains-within p a m v = ground (arith, quotient_within p a m v, IsMasked-top p m)

-- The test that a list of masked prefixes covers an address, in ranks.
pub covers-spans :
    (l : List Prefix) (a : Addr) → All IsMasked l → IsAddr a → covers l a ≡ spans l (rank a)
unfolding covers
covers-spans [] a m v = refl
covers-spans (p ∷ l) a m v = ground (arith, contains-within p a m.0 v, covers-spans l a m.1 v)

-- Block starts of the longer prefix's size, in one family.
Aligned-shorter :
    (d p : Prefix)
    → IsMasked d
    → IsMasked p
    → d.addr.is4 ≡ p.addr.is4
    → d.bits ≤ p.bits
    → Aligned d.addr.num (size p) × (Aligned (d.addr.num + size d) (size p))
Aligned-shorter d p md mp e h =
    let t = 2 ^ (p.bits - d.bits) in
    let split : size d ≡ t * size p =
      ap (λ (b : Bool). block b d.bits) e
      ∙ pow-split (width p.addr.is4) d.bits p.bits h mp.in_range in
    let (k, start) = IsMasked-Aligned d md in
    let at : d.addr.num ≡ k * (t * size p) = start ∙ ap (λ (u : ℕ). k * u) split in
    (
      Aligned-mul d.addr.num t (size p) (k, at),
      Aligned-mul (d.addr.num + size d) t (size p) (suc k, omega (arith, suc-mul k (t * size p))),
    )

contains_family : (p : Prefix) (a : Addr) → contains p a ≡ true → p.addr.is4 ≡ a.is4
unfolding contains
contains_family p a c = ground arith

-- A prefix that starts inside a shorter one lies inside it.
pub nested :
    (d p : Prefix)
    → IsMasked d
    → IsMasked p
    → d.bits ≤ p.bits
    → contains d p.addr ≡ true
    → (first d ≤ first p) × (lim p ≤ lim d)
nested d p md mp h c =
    let e = contains_family d p.addr c in
    let inside : within d (first p) ≡ true = sym (contains-within d p.addr md mp.valid) ∙ c in
    ground (
      arith,
      Aligned-step p.addr.num (d.addr.num + size d) (size p) (IsMasked-Aligned p mp)
          (Aligned-shorter d p md mp e h).1,
    )

module _ (d p : Prefix) (md : IsMasked d) (mp : IsMasked p) where
  apart_same : p.bits ≤ d.bits → p.addr.is4 ≡ d.addr.is4 → first d < first p → lim d ≤ first p
  apart_same h e lt = ground (
    arith,
    Aligned-step d.addr.num p.addr.num (size d) (IsMasked-Aligned d md)
        (Aligned-shorter p d mp md e h).0,
  )

  apart_family : (p.addr.is4 ≡ d.addr.is4 → ⊥) → first d < first p → lim d ≤ first p
  apart_family ne lt = ground (arith, IsMasked-top d md)

  -- Two prefixes in the order of the sort of which the first does not hold the second are apart.
  pub apart :
      (first d < first p) ⊎ ((first d ≡ first p) × (d.bits ≤ p.bits))
      → (leb d.bits p.bits && contains d p.addr) ≡ false
      → lim d ≤ first p
  apart o c = ground (arith, contains-within d p.addr md mp.valid, apart_same, apart_family)
