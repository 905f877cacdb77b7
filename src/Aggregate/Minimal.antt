-- ===== src/Aggregate/Minimal.antt =====
-- main.go's `aggregate`: the length of its result.
use georoute.Base.{
  ℕ, suc, ◌≤◌, ◌≡◌, refl, sym, ap, ◌∙◌, true, List, [], ◌∷◌, length, All, Shorter, Shorter-wf,
  arith,
}
use mathlib.Core.Logic.{dite}
use mathlib.Core.WellFounded.{Acc}
use georoute.Netip.{Addr, Prefix, covers, IsAddr, IsMasked}
use georoute.Netip.Rank.{spans}
use georoute.Aggregate.{
  insert, sort_slice, dedup_from, dedup, merge_pass, merge_pass-Shorter, merge_loop, aggregate,
  Bool-discrete,
}
use georoute.Aggregate.Canonical.{Normal, Normal-unique}
use georoute.Aggregate.Laws.{aggregate-Reduction, aggregate-Normal, aggregate_canonical}

length-insert : (p : Prefix) (l : List Prefix) → length (insert p l) ≡ suc (length l)
unfolding insert
length-insert p [] = refl
length-insert p (q ∷ l) = ground (arith, length-insert p l)

length-sort_slice : (l : List Prefix) → length (sort_slice l) ≡ length l
unfolding sort_slice
length-sort_slice [] = refl
length-sort_slice (p ∷ l) = length-insert p (sort_slice l) ∙ ap suc (length-sort_slice l)

length-dedup_from : (d : Prefix) (l : List Prefix) → length (dedup_from d l) ≤ length l
unfolding dedup_from
length-dedup_from d [] = omega arith
length-dedup_from d (p ∷ l) = ground (arith, length-dedup_from d l, length-dedup_from p l)

length-dedup : (l : List Prefix) → length (dedup l) ≤ length l
unfolding dedup
length-dedup [] = omega arith
length-dedup (p ∷ l) = omega (arith, length-dedup_from p l)

length-merge_pass : (l : List Prefix) → length (merge_pass l).0 ≤ length l
unfolding merge_pass
length-merge_pass [] = omega arith
length-merge_pass (p ∷ []) = omega arith
length-merge_pass (p ∷ q ∷ l) = ground (arith, length-merge_pass l, length-merge_pass (q ∷ l))

length_round :
    (l : List Prefix) (later : (merge_pass l).1 ≡ true → List Prefix)
    (d : Dec ((merge_pass l).1 ≡ true))
    → ((h : (merge_pass l).1 ≡ true) → length (later h) ≤ length (merge_pass l).0)
    → length (dite d later (λ _. (merge_pass l).0)) ≤ length l
length_round l later (yes h) rec = omega (arith, length-merge_pass l, rec h)
length_round l later (no h) rec = length-merge_pass l

length-merge_loop : (l : List Prefix) (w : Acc Shorter l) → length (merge_loop l w) ≤ length l
unfolding merge_loop
length-merge_loop l (Acc.intro _ smaller) =
    length_round l _ (Bool-discrete (merge_pass l).1 true)
      (λ h. length-merge_loop (merge_pass l).0 (smaller (merge_pass l).0 (merge_pass-Shorter l h)))

-- Aggregation never lengthens a list.
length-aggregate : (l : List Prefix) → length (aggregate l) ≤ length l
unfolding aggregate
length-aggregate [] = omega arith
length-aggregate (p ∷ l) =
    let deduped = dedup (sort_slice (p ∷ l)) in
    omega (
      arith,
      length-merge_loop deduped (Shorter-wf.apply deduped),
      length-dedup (sort_slice (p ∷ l)),
      length-sort_slice (p ∷ l),
    )

-- A normal list is the shortest of those that span its ranks.
pub Normal-minimal :
    (l m : List Prefix)
    → Normal 0 l
    → All IsMasked m
    → ((r : ℕ) → spans l r ≡ spans m r)
    → length l ≤ length m
Normal-minimal l m n hm e =
    let same =
      Normal-unique 0 l (aggregate m) n (aggregate-Normal m hm)
        (λ r. e r ∙ sym ((aggregate-Reduction m hm).passed.spanned r)) in
    omega (arith, ap length same, length-aggregate m)

-- For masked prefixes `aggregate` returns a shortest cover: every list of masked prefixes that covers
-- the same zone-free addresses is at least as long.
pub aggregate_minimal :
    (l m : List Prefix)
    → All IsMasked l
    → All IsMasked m
    → ((a : Addr) → IsAddr a → covers m a ≡ covers l a)
    → length (aggregate l) ≤ length m
aggregate_minimal l m hl hm e =
    omega
      (arith, ap length (aggregate_canonical l m hl hm (λ a v. sym (e a v))), length-aggregate m)
