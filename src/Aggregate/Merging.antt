-- ===== src/Aggregate/Merging.antt =====
-- main.go's `aggregate`: the merging, and `canMerge`.
use native.Mathlib.Nat.{pow-suc, div-mul-le_self}
use mathlib.Core.Path.{ap₂, subst}
use mathlib.Core.WellFounded.{Acc}
use mathlib.Core.Logic.{dite}
use georoute.Base.{
  Shorter, ℕ, ◌+◌, ◌-◌, ◌*◌, ◌/◌, ◌^◌, ◌<◌, ◌≤◌, ◌≡◌, refl, sym, ap, ◌∙◌, inl, inr, Bool, true,
  false, List, [], ◌∷◌, ◌||◌, All, Bool-cases, arith,
}
use georoute.Base.Blocks.{Aligned, Aligned-floor, floor-Aligned, siblings}
use georoute.Netip.{Prefix, width, block, masked, prefix_from, IsMasked}
use georoute.Netip.Rank.{first, size, lim, within, spans}
use georoute.Netip.Block.{size-pos, IsMasked-Aligned}
use georoute.Aggregate.{
  parent, can_merge, merge_pass, merge_pass-Shorter, merge_loop, Bool-discrete,
}
use georoute.Aggregate.Dedup.{Ordered}

-- `Masked` gives a masked prefix, whatever the bits behind the length were.
pub masked-IsMasked :
    (p : Prefix)
    → p.bits ≤ width p.addr.is4
    → p.addr.num < 2 ^ width p.addr.is4
    → IsMasked (masked p)
unfolding masked
masked-IsMasked p h v = record {
  in_range = h;
  valid = record { fits = omega (arith, div-mul-le_self p.addr.num (size p)); zone_free = refl };
  cleared = floor-Aligned (p.addr.num / size p * size p) (size p) (size-pos p) (Aligned-floor _ _);
}

pub can_merge-parts :
    (p q : Prefix)
    → can_merge p q ≡ true
    → (p.bits ≡ q.bits)
      × (0 < p.bits)
      × (p.addr.is4 ≡ q.addr.is4)
      × ((parent p).addr.num ≡ (parent q).addr.num)
unfolding can_merge
can_merge-parts p q h = ground arith

pub parent-size :
    (p : Prefix) → p.bits ≤ width p.addr.is4 → 0 < p.bits → size (parent p) ≡ size p * 2
unfolding parent
parent-size p h pos = ap (λ (k : ℕ). 2 ^ k) (omega arith) ∙ pow-suc 2 (width p.addr.is4 - p.bits)

pub parent-IsMasked : (p : Prefix) → IsMasked p → IsMasked (parent p)
unfolding parent
parent-IsMasked p m = masked-IsMasked (prefix_from p.addr (p.bits - 1)) (omega arith) m.valid.fits

-- What a merge of two neighbours does, in ranks.
pub record Merged (p q : Prefix) : Type 0 where
  pub masks : IsMasked (parent p)
  pub start : first (parent p) ≡ first p
  pub stop : lim (parent p) ≡ lim q
  pub meet : lim p ≡ first q

-- The arithmetic of a merge, in the family's own numbers.
merge_numbers :
    (p q : Prefix)
    → IsMasked p
    → IsMasked q
    → lim p ≤ first q
    → can_merge p q ≡ true
    → ((parent p).addr.num ≡ p.addr.num) × (q.addr.num ≡ p.addr.num + size p)
unfolding parent
merge_numbers p q mp mq h c =
    let (eb, pos, ef, en) = can_merge-parts p q c in
    let sizes : size q ≡ size p = ap₂ block (sym ef) (sym eb) in
    let twice : size (parent p) ≡ size p * 2 = parent-size p mp.in_range pos in
    let twice_q : size (parent q) ≡ size p * 2 =
      parent-size q mq.in_range (omega arith) ∙ ap (λ (t : ℕ). t * 2) sizes in
    let floor_p = ap (λ (t : ℕ). p.addr.num / t * t) twice in
    let floor_q = ap (λ (t : ℕ). q.addr.num / t * t) twice_q in
    let (start, next) =
      siblings p.addr.num q.addr.num (size p) (size-pos p) (IsMasked-Aligned p mp)
        (subst (Aligned q.addr.num) sizes (IsMasked-Aligned q mq)) (ground (arith, size-pos p))
        (sym floor_p ∙ en ∙ floor_q) in
    (floor_p ∙ start, next)

pub can_merge-Merged :
    (p q : Prefix) → IsMasked p → IsMasked q → lim p ≤ first q → can_merge p q ≡ true → Merged p q
unfolding parent
can_merge-Merged p q mp mq h c =
    let (eb, pos, ef, en) = can_merge-parts p q c in
    let sizes : size q ≡ size p = ap₂ block (sym ef) (sym eb) in
    let twice : size (parent p) ≡ size p * 2 = parent-size p mp.in_range pos in
    let (start, next) = merge_numbers p q mp mq h c in
    record {
      masks = parent-IsMasked p mp;
      start = ground arith;
      stop = ground arith;
      meet = ground arith;
    }

or_assoc : (a b c : Bool) → ((a || b) || c) ≡ (a || (b || c))
or_assoc a b c = ground arith

-- What a round returns on ascending disjoint blocks.
pub record Passed (lo : ℕ) (l out : List Prefix) : Type 0 where
  pub masks : All IsMasked out
  pub ordered : Ordered lo out
  pub spanned : (r : ℕ) → spans out r ≡ spans l r

joined :
    (p q : Prefix)
    → Merged p q
    → first p < lim p
    → first q < lim q
    → (r : ℕ) → within (parent p) r ≡ (within p r || within q r)
joined p q m hp hq r = ground (arith, m.start, m.stop, m.meet)

pub Ordered-from : (lo lo' : ℕ) (l : List Prefix) → lo ≤ lo' → Ordered lo' l → Ordered lo l
Ordered-from lo lo' [] h o = tt
Ordered-from lo lo' (p ∷ l) h o = (omega arith, o.1)

spans_joined :
    (p q : Prefix) (out l : List Prefix) (r : ℕ)
    → within (parent p) r ≡ (within p r || within q r)
    → spans out r ≡ spans l r
    → spans (parent p ∷ out) r ≡ spans (p ∷ q ∷ l) r
spans_joined p q out l r h e = rw (h, e) (or_assoc (within p r) (within q r) (spans l r))

merge_pass-Passed :
    (lo : ℕ) (l : List Prefix) → All IsMasked l → Ordered lo l → Passed lo l (merge_pass l).0
unfolding merge_pass
merge_pass-Passed lo [] m o = record { masks = tt; ordered = tt; spanned = λ r. refl }
merge_pass-Passed lo (p ∷ []) m o = record { masks = m; ordered = o; spanned = λ r. refl }
merge_pass-Passed lo (p ∷ q ∷ l) m o = elim (Bool-cases (can_merge p q)) [
  | inl together ↦
      let g = can_merge-Merged p q m.0 m.1.0 o.1.0 together in
      let rec = merge_pass-Passed (lim q) l m.1.1 o.1.1 in
      rw (together, merge_pass)
        (record {
          masks = (g.masks, rec.masks);
          ordered = (
            omega (arith, o.0, g.start),
            Ordered-from (lim (parent p)) (lim q) _ (omega (arith, g.stop)) rec.ordered,
          );
          spanned = λ r.
              spans_joined p q _ _ r
                (joined p q g (ground (arith, size-pos p)) (ground (arith, size-pos q)) r)
                (rec.spanned r);
        })
  | inr separate ↦
      let rec = merge_pass-Passed (lim p) (q ∷ l) m.1 o.1 in
      rw (separate, merge_pass)
        (record {
          masks = (m.0, rec.masks);
          ordered = (o.0, rec.ordered);
          spanned = λ r. ap (λ (b : Bool). within p r || b) (rec.spanned r);
        })
]

abbrev pub Unmergeable : Prefix → List Prefix → Type 0
Unmergeable p [] = Unit
Unmergeable p (q ∷ _) = can_merge p q ≡ false

-- No two neighbours could be merged.
abbrev pub IsReduced : List Prefix → Type 0
IsReduced [] = Unit
IsReduced (p ∷ l) = Unmergeable p l × IsReduced l

-- A round without a change returns its list, which is then reduced.
merge_pass_unchanged :
    (l : List Prefix) → (merge_pass l).1 ≡ false → ((merge_pass l).0 ≡ l) × IsReduced l
unfolding merge_pass
merge_pass_unchanged [] h = (refl, tt)
merge_pass_unchanged (p ∷ []) h = (refl, (tt, tt))
merge_pass_unchanged (p ∷ q ∷ l) h = elim (Bool-cases (can_merge p q)) [
  | inl together ↦ cc (rw (together, merge_pass) at h)
  | inr separate ↦
      let (e, red) = merge_pass_unchanged (q ∷ l) (rw (separate, merge_pass) at h) in
      (rw (separate, merge_pass) (ap (λ (t : List Prefix). p ∷ t) e), (separate, red))
]

-- What the outer loop returns.
pub record Reduction (lo : ℕ) (l out : List Prefix) : Type 0 where
  pub passed : Passed lo l out
  pub reduced : IsReduced out

Passed-trans : (lo : ℕ) (l m out : List Prefix) → Passed lo l m → Passed lo m out → Passed lo l out
Passed-trans lo l m out h k = record {
  masks = k.masks;
  ordered = k.ordered;
  spanned = λ r. k.spanned r ∙ h.spanned r;
}

-- Both ways out of a round, given what the remaining rounds return.
round-Reduction :
    (lo : ℕ) (l : List Prefix) (later : (merge_pass l).1 ≡ true → List Prefix)
    (d : Dec ((merge_pass l).1 ≡ true))
    → All IsMasked l
    → Ordered lo l
    → ((h : (merge_pass l).1 ≡ true) → Reduction lo (merge_pass l).0 (later h))
    → Reduction lo l (dite d later (λ _. (merge_pass l).0))
round-Reduction lo l later (yes h) m o rec = record {
  passed = Passed-trans lo l (merge_pass l).0 (later h) (merge_pass-Passed lo l m o) (rec h).passed;
  reduced = (rec h).reduced;
}
round-Reduction lo l later (no h) m o rec =
    let (e, red) = merge_pass_unchanged l (ground arith) in
    record { passed = merge_pass-Passed lo l m o; reduced = rw e red }

pub merge_loop-Reduction :
    (lo : ℕ) (l : List Prefix) (w : Acc Shorter l)
    → All IsMasked l
    → Ordered lo l
    → Reduction lo l (merge_loop l w)
unfolding merge_loop
merge_loop-Reduction lo l (Acc.intro _ smaller) m o =
    let pass = merge_pass-Passed lo l m o in
    round-Reduction lo l _ (Bool-discrete (merge_pass l).1 true) m o (λ h.
      merge_loop-Reduction lo (merge_pass l).0 (smaller (merge_pass l).0 (merge_pass-Shorter l h))
        pass.masks pass.ordered)
