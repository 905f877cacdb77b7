-- ===== src/Aggregate/Sorting.antt =====
-- main.go's `aggregate`: the sort.
use georoute.Base.{
  ℕ, ◌<◌, ◌≤◌, ◌≡◌, refl, ◌⊎◌, inl, inr, true, false, List, [], ◌∷◌, ◌||◌, All, Bool-cases, arith,
}
use georoute.Netip.{Prefix, IsMasked}
use georoute.Netip.Rank.{first, within, spans, compare_addr-rank}
use georoute.Aggregate.{less, insert, sort_slice}

-- The order of the sort: by rank, and shorter prefixes first.
abbrev pub Precedes : Prefix → Prefix → Type 0
Precedes p q = (first p < first q) ⊎ ((first p ≡ first q) × (p.bits ≤ q.bits))

-- Ascending, behind a prefix `d`.
abbrev pub SortedFrom : Prefix → List Prefix → Type 0
SortedFrom d [] = Unit
SortedFrom d (p ∷ l) = Precedes d p × SortedFrom p l

abbrev pub IsSorted : List Prefix → Type 0
IsSorted [] = Unit
IsSorted (p ∷ l) = SortedFrom p l

pub Precedes-trans : (p q r : Prefix) → Precedes p q → Precedes q r → Precedes p r
Precedes-trans p q r h k = ground arith

less-Precedes : (p q : Prefix) → IsMasked p → IsMasked q → less p q ≡ true → Precedes p q
unfolding less
less-Precedes p q mp mq h = ground (arith, compare_addr-rank p.addr q.addr mp.valid mq.valid)

not_less-Precedes : (p q : Prefix) → IsMasked p → IsMasked q → less p q ≡ false → Precedes q p
unfolding less
not_less-Precedes p q mp mq h = ground (arith, compare_addr-rank p.addr q.addr mp.valid mq.valid)

insert-SortedFrom :
    (d p : Prefix) (l : List Prefix)
    → IsMasked p
    → All IsMasked l
    → Precedes d p
    → SortedFrom d l
    → SortedFrom d (insert p l)
unfolding insert
insert-SortedFrom d p [] mp ml h s = (h, tt)
insert-SortedFrom d p (q ∷ l) mp ml h s = elim (Bool-cases (less q p)) [
  | inl lt ↦ rw lt (s.0, insert-SortedFrom q p l mp ml.1 (less-Precedes q p ml.0 mp lt) s.1)
  | inr ge ↦ rw ge (h, (not_less-Precedes q p ml.0 mp ge, s.1))
]

insert-IsSorted :
    (p : Prefix) (l : List Prefix)
    → IsMasked p
    → All IsMasked l
    → IsSorted l
    → IsSorted (insert p l)
unfolding insert
insert-IsSorted p [] mp ml s = tt
insert-IsSorted p (q ∷ l) mp ml s = elim (Bool-cases (less q p)) [
  | inl lt ↦ rw lt (insert-SortedFrom q p l mp ml.1 (less-Precedes q p ml.0 mp lt) s)
  | inr ge ↦ rw ge (not_less-Precedes q p ml.0 mp ge, s)
]

insert-All :
    (p : Prefix) (l : List Prefix) → IsMasked p → All IsMasked l → All IsMasked (insert p l)
unfolding insert
insert-All p [] mp ml = (mp, tt)
insert-All p (q ∷ l) mp ml = elim (Bool-cases (less q p)) [
  | inl lt ↦ rw lt (ml.0, insert-All p l mp ml.1)
  | inr ge ↦ rw ge (mp, ml)
]

insert-spans :
    (p : Prefix) (l : List Prefix) (r : ℕ) → spans (insert p l) r ≡ (within p r || spans l r)
unfolding insert
insert-spans p [] r = refl
insert-spans p (q ∷ l) r = ground (arith, insert-spans p l r)

pub sort_slice-All : (l : List Prefix) → All IsMasked l → All IsMasked (sort_slice l)
unfolding sort_slice
sort_slice-All [] m = tt
sort_slice-All (p ∷ l) m = insert-All p (sort_slice l) m.0 (sort_slice-All l m.1)

pub sort_slice-IsSorted : (l : List Prefix) → All IsMasked l → IsSorted (sort_slice l)
unfolding sort_slice
sort_slice-IsSorted [] m = tt
sort_slice-IsSorted (p ∷ l) m =
    insert-IsSorted p (sort_slice l) m.0 (sort_slice-All l m.1) (sort_slice-IsSorted l m.1)

pub sort_slice-spans : (l : List Prefix) (r : ℕ) → spans (sort_slice l) r ≡ spans l r
unfolding sort_slice
sort_slice-spans [] r = refl
sort_slice-spans (p ∷ l) r = rw (insert-spans, sort_slice-spans l r)
