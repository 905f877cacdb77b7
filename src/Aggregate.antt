-- ===== src/Aggregate.antt =====
-- main.go: `aggregate` and `canMerge`, the minimal covering set of a prefix list.
pub mod Sorting
pub mod Dedup
pub mod Merging
pub mod Filling
pub mod Canonical
pub mod Laws
pub mod Minimal
use mathlib.Core.WellFounded.{Acc}
use mathlib.Core.Logic.{dite}
use georoute.Base.{
  ◌-◌, ◌≤◌, ◌≡◌, Bool, true, false, not, ◌&&◌, List, [], ◌∷◌, arith, leb, ltb, ◌==◌, same,
  if◌then◌else◌, length, Shorter, Shorter-wf, Ordering,
}
use georoute.Netip.{Prefix, compare_addr, addr_eq, masked, contains, prefix_from}

-- The comparison handed to `sort.Slice`: by address, then shorter prefixes first.
unfoldable pub less : Prefix → Prefix → Bool
unfolding compare_addr
less p q = elim (compare_addr p.addr q.addr) [
  | Ordering.eq ↦ ltb p.bits q.bits
  | Ordering.lt ↦ true
  | Ordering.gt ↦ false
]

unfoldable pub insert : Prefix → List Prefix → List Prefix
insert p [] = p ∷ []
insert p (q ∷ l) = if less q p then q ∷ insert p l else p ∷ q ∷ l

-- `sort.Slice(in, less)`: the order is total on masked prefixes, so every sort gives this list.
unfoldable pub sort_slice : List Prefix → List Prefix
unfolding insert
sort_slice [] = []
sort_slice (p ∷ l) = insert p (sort_slice l)

-- The test of the deduplication: the last prefix kept holds this one.
unfoldable pub covered_by : Prefix → Prefix → Bool
unfolding contains
covered_by d p = leb d.bits p.bits && contains d p.addr

-- The deduplication loop behind its first round; `d` is `deduped[n-1]`.
unfoldable pub dedup_from : Prefix → List Prefix → List Prefix
dedup_from d [] = []
dedup_from d (p ∷ l) =
    let skip = covered_by d p in
    let rest = dedup_from (if skip then d else p) l in if skip then rest else p ∷ rest

unfoldable pub dedup : List Prefix → List Prefix
unfolding dedup_from
dedup [] = []
dedup (p ∷ l) = p ∷ dedup_from p l

-- `netip.PrefixFrom(p.Addr(), p.Bits()-1).Masked()`, for a prefix of length above 0.
unfoldable pub parent : Prefix → Prefix
unfolding masked
parent p = masked (prefix_from p.addr (p.bits - 1))

-- `==` on prefixes.
unfoldable prefix_eq : Prefix → Prefix → Bool
unfolding addr_eq
prefix_eq p q = addr_eq p.addr q.addr && p.bits == q.bits

unfoldable pub can_merge : Prefix → Prefix → Bool
unfolding prefix_eq
can_merge a b =
    if not (a.bits == b.bits)
    then false
    else if a.bits == 0
    then false
    else if not (same a.addr.is4 b.addr.is4)
    then false
    else prefix_eq (parent a) (parent b) && contains (parent a) a.addr && contains (parent a) b.addr

-- One round of the outer loop: the inner loop over `i`, and the flag `changed`.
unfoldable pub merge_pass : List Prefix → List Prefix × Bool
merge_pass [] = ([], false)
merge_pass (p ∷ []) = (p ∷ [], false)
merge_pass (p ∷ q ∷ l) = elim (can_merge p q) [
  | true ↦ (parent p ∷ (merge_pass l).0, true)
  | false ↦ (p ∷ (merge_pass (q ∷ l)).0, (merge_pass (q ∷ l)).1)
]

pub Bool-discrete : Discrete Bool
Bool-discrete = hlevel

merge_pass_shorter :
    (l : List Prefix)
    → (length (merge_pass l).0 ≤ length l) × ((merge_pass l).1 ≡ true → Shorter (merge_pass l).0 l)
unfolding merge_pass
merge_pass_shorter [] = (omega arith, λ h. cc)
merge_pass_shorter (p ∷ []) = (omega arith, λ h. cc)
merge_pass_shorter (p ∷ q ∷ l) = ground (arith, merge_pass_shorter l, merge_pass_shorter (q ∷ l))

-- A round that changes anything leaves fewer prefixes, so the outer loop ends.
pub merge_pass-Shorter : (l : List Prefix) → (merge_pass l).1 ≡ true → Shorter (merge_pass l).0 l
merge_pass-Shorter l = (merge_pass_shorter l).1

-- The outer loop: it stops after a round without a change.
unfoldable pub merge_loop : (l : List Prefix) → Acc Shorter l → List Prefix
merge_loop l (Acc.intro _ smaller) =
    dite (Bool-discrete (merge_pass l).1 true)
      (λ h. merge_loop (merge_pass l).0 (smaller (merge_pass l).0 (merge_pass-Shorter l h)))
      (λ _. (merge_pass l).0)

unfoldable pub aggregate : List Prefix → List Prefix
unfolding sort_slice less dedup covered_by merge_loop merge_pass can_merge parent contains
    Shorter-wf Bool-discrete
aggregate [] = []
aggregate (p ∷ l) =
    let deduped = dedup (sort_slice (p ∷ l)) in merge_loop deduped (Shorter-wf.apply deduped)
