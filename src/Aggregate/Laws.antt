-- ===== src/Aggregate/Laws.antt =====
-- main.go's `aggregate` as a whole.
use georoute.Base.{◌≡◌, refl, sym, ◌∙◌, List, [], ◌∷◌, All, Shorter-wf}
use georoute.Netip.{Addr, Prefix, covers, IsAddr, IsMasked}
use georoute.Netip.Rank.{rank}
use georoute.Netip.Block.{covers-spans}
use georoute.Aggregate.{sort_slice, dedup, aggregate}
use georoute.Aggregate.Sorting.{sort_slice-All, sort_slice-IsSorted, sort_slice-spans}
use georoute.Aggregate.Dedup.{Ordered, dedup_lem}
use georoute.Aggregate.Canonical.{Normal, Normal-unique, spans_of_covers}
use georoute.Aggregate.Merging.{Reduction, IsReduced, merge_loop-Reduction}

pub aggregate-Reduction : (l : List Prefix) → All IsMasked l → Reduction 0 l (aggregate l)
unfolding aggregate
aggregate-Reduction [] m = record {
  passed = record { masks = tt; ordered = tt; spanned = λ r. refl };
  reduced = tt;
}
aggregate-Reduction (p ∷ l) m =
    let sorted = sort_slice (p ∷ l) in
    let (masks, ordered, spanned) =
      dedup_lem sorted (sort_slice-All (p ∷ l) m) (sort_slice-IsSorted (p ∷ l) m) in
    let rest =
      merge_loop-Reduction 0 (dedup sorted) (Shorter-wf.apply (dedup sorted)) masks ordered in
    record {
      passed = record {
        masks = rest.passed.masks;
        ordered = rest.passed.ordered;
        spanned = λ r. rest.passed.spanned r ∙ spanned r ∙ sort_slice-spans (p ∷ l) r;
      };
      reduced = rest.reduced;
    }

pub aggregate-Normal : (l : List Prefix) → All IsMasked l → Normal 0 (aggregate l)
aggregate-Normal l m =
    let r = aggregate-Reduction l m in
    record { masks = r.passed.masks; ordered = r.passed.ordered; reduced = r.reduced }

-- Aggregation changes no address's membership: for masked prefixes and a zone-free address in
-- range, some prefix of the result holds the address exactly when some prefix of the input does.
pub aggregate-covers :
    (l : List Prefix) (a : Addr) → All IsMasked l → IsAddr a → covers (aggregate l) a ≡ covers l a
aggregate-covers l a m v =
    let r = aggregate-Reduction l m in
    covers-spans (aggregate l) a r.passed.masks v
    ∙ r.passed.spanned (rank a)
    ∙ sym (covers-spans l a m v)

-- For masked prefixes the result consists of masked prefixes in ascending order, each of which
-- ends before the next begins.
pub aggregate-Ordered :
    (l : List Prefix) → All IsMasked l → All IsMasked (aggregate l) × Ordered 0 (aggregate l)
aggregate-Ordered l m = let r = aggregate-Reduction l m in (r.passed.masks, r.passed.ordered)

-- The result leaves nothing to merge: it is masked, ascending and disjoint, and `canMerge` refuses
-- every two neighbours of it.
aggregate-IsReduced : (l : List Prefix) → All IsMasked l → IsReduced (aggregate l)
aggregate-IsReduced l m = (aggregate-Reduction l m).reduced

-- Lists of masked prefixes that cover the same zone-free addresses are aggregated to one list:
-- the result depends on the set of addresses alone.
pub aggregate_canonical :
    (l m : List Prefix)
    → All IsMasked l
    → All IsMasked m
    → ((a : Addr) → IsAddr a → covers l a ≡ covers m a)
    → aggregate l ≡ aggregate m
aggregate_canonical l m hl hm e =
    Normal-unique 0 (aggregate l) (aggregate m) (aggregate-Normal l hl) (aggregate-Normal m hm)
      (λ r.
        (aggregate-Reduction l hl).passed.spanned r
        ∙ spans_of_covers l m hl hm e r
        ∙ sym ((aggregate-Reduction m hm).passed.spanned r))

-- Aggregating twice is aggregating once.
aggregate_idempotent : (l : List Prefix) → All IsMasked l → aggregate (aggregate l) ≡ aggregate l
aggregate_idempotent l m =
    aggregate_canonical (aggregate l) l (aggregate-Ordered l m).0 m
      (λ a v. aggregate-covers l a m v)
