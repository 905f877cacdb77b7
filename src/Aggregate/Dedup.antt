-- ===== src/Aggregate/Dedup.antt =====
-- main.go's `aggregate`: the deduplication.
use georoute.Base.{
  ℕ, ◌≤◌, ◌≡◌, refl, inl, inr, Bool, true, false, List, [], ◌∷◌, ◌||◌, All, Bool-cases, arith,
}
use georoute.Netip.{Prefix, IsMasked}
use georoute.Netip.Rank.{first, lim, within, spans}
use georoute.Netip.Block.{nested, apart}
use georoute.Aggregate.{covered_by, dedup_from, dedup}
use georoute.Aggregate.Sorting.{Precedes, SortedFrom, IsSorted, Precedes-trans}

-- Each block starts at `lo` or above it, and the next one behind its end.
abbrev pub Ordered : ℕ → List Prefix → Type 0
Ordered lo [] = Unit
Ordered lo (p ∷ l) = (lo ≤ first p) × Ordered (lim p) l

-- A skipped prefix lies inside the one that was kept.
covered_by-nested :
    (d p : Prefix)
    → IsMasked d
    → IsMasked p
    → covered_by d p ≡ true
    → (first d ≤ first p) × (lim p ≤ lim d)
unfolding covered_by
covered_by-nested d p md mp h = ground (arith, nested d p md mp)

not_covered_by-apart :
    (d p : Prefix)
    → IsMasked d
    → IsMasked p
    → Precedes d p
    → covered_by d p ≡ false
    → lim d ≤ first p
unfolding covered_by
not_covered_by-apart d p md mp o h = apart d p md mp o h

-- What the loop returns behind `d`.
pub record Deduped (d : Prefix) (l out : List Prefix) : Type 0 where
  pub masks : All IsMasked out
  pub ordered : Ordered (lim d) out
  pub spanned : (r : ℕ) → (within d r || spans out r) ≡ (within d r || spans l r)

-- A prefix inside `d` adds nothing to it.
absorbs :
    (d p : Prefix) (l : List Prefix) (r : ℕ)
    → first d ≤ first p
    → lim p ≤ lim d
    → (within d r || spans (p ∷ l) r) ≡ (within d r || spans l r)
absorbs d p l r h k = ground arith

SortedFrom-skip : (d p : Prefix) (l : List Prefix) → Precedes d p → SortedFrom p l → SortedFrom d l
SortedFrom-skip d p [] h s = tt
SortedFrom-skip d p (q ∷ l) h s = (Precedes-trans d p q h s.0, s.1)

swap_or : (a b c c' : Bool) → (b || c) ≡ (b || c') → (a || (b || c)) ≡ (a || (b || c'))
swap_or a b c c' h = ground arith

dedup_from_lem :
    (d : Prefix) (l : List Prefix)
    → IsMasked d
    → All IsMasked l
    → SortedFrom d l
    → Deduped d l (dedup_from d l)
unfolding dedup_from
dedup_from_lem d [] md ml s = record { masks = tt; ordered = tt; spanned = λ r. refl }
dedup_from_lem d (p ∷ l) md ml s = elim (Bool-cases (covered_by d p)) [
  | inl skip ↦
      let rec = dedup_from_lem d l md ml.1 (SortedFrom-skip d p l s.0 s.1) in
      let (lo, hi) = covered_by-nested d p md ml.0 skip in
      rw (skip, dedup_from)
        (record {
          masks = rec.masks;
          ordered = rec.ordered;
          spanned = λ r. rw (absorbs d p l r lo hi) (rec.spanned r);
        })
  | inr keep ↦
      let rec = dedup_from_lem p l ml.0 ml.1 s.1 in
      rw (keep, dedup_from)
        (record {
          masks = (ml.0, rec.masks);
          ordered = (not_covered_by-apart d p md ml.0 s.0 keep, rec.ordered);
          spanned = λ r. swap_or (within d r) (within p r) _ _ (rec.spanned r);
        })
]

-- The deduplicated list: masked, ascending, disjoint, and spanning what the sorted list spans.
pub dedup_lem :
    (l : List Prefix)
    → All IsMasked l
    → IsSorted l
    → All IsMasked (dedup l) × Ordered 0 (dedup l) × ((r : ℕ) → spans (dedup l) r ≡ spans l r)
unfolding dedup
dedup_lem [] m s = (tt, tt, λ r. refl)
dedup_lem (p ∷ l) m s =
    let rec = dedup_from_lem p l m.0 m.1 s in
    ((m.0, rec.masks), (omega arith, rec.ordered), rec.spanned)
