-- ===== src/Feeds/Laws.antt =====
-- main.go's `parsePrefixes` in front of `aggregate`.
use georoute.Base.{
  ℕ, zero, suc, ◌+◌, ◌^◌, ◌≤◌, ◌<◌, ◌≡◌, refl, sym, ◌∙◌, ap, Bool, true, false, inl, inr, ◌||◌,
  Option, none, some, List, [], ◌∷◌, ◌++◌, All, All-append, arith, if◌then◌else◌, any-append, take,
  drop, not, same,
}
use georoute.Netip.{Bytes, Addr, Prefix, width, is_nil, IsMasked, IsAddr, covers}
use georoute.Netip.Parse.{parse_addr, parse_prefix}
use georoute.Netip.{compare_addr, is_gt, prefix_from, last_addr, next_addr}
use georoute.Text.{bytes, index_byte, trim_space, contains_str}
use georoute.Aggregate.{aggregate}
use georoute.Aggregate.Laws.{aggregate-covers}
use georoute.Netip.{contains}
use georoute.Aggregate.Merging.{masked-IsMasked}
use georoute.Ranges.{find_mask, first_block, range_loop, range_to_cidr, room}
use mathlib.Core.Option
use georoute.Ranges.Laws.{next_addr_lem, last-IsAddr}
use georoute.Feeds.{parse_entry, parse_range, range_of, parse_prefixes}
use georoute.Feeds.Valid.{Fits, parse_addr-Fits, parse_prefix-Valid, or_skip-IsMasked}

-- The ranges that are parsed are masked too, also where an end has a zone.
find_mask-bound : (start end_addr : Addr) (m : ℕ) → find_mask start end_addr m ≤ m
unfolding find_mask
find_mask-bound start end_addr zero = omega arith
find_mask-bound start end_addr (suc m) = ground (arith, find_mask-bound start end_addr m)

first_block-IsMasked :
    (start end_addr : Addr)
    → start.num < 2 ^ width start.is4
    → IsMasked (first_block start end_addr)
unfolding first_block
first_block-IsMasked start end_addr h =
    masked-IsMasked (prefix_from start (find_mask start end_addr (width start.is4)))
      (find_mask-bound start end_addr (width start.is4)) h

next_fits : (a b : Addr) → IsAddr a → next_addr a ≡ some b → b.num < 2 ^ width b.is4
next_fits a b v e = elim (next_addr_lem a v) [
  | inl (n, _) ↦ cc (e, n)
  | inr (q, lt) ↦ rw (← ap (λ o. Option.get_or o a) (sym q ∙ e)) lt
]

abbrev Masks : Option (List Prefix) → Type 0
Masks none = Unit {0}
Masks (some l) = All IsMasked l

map-Masks :
    (p : Prefix) (o : Option (List Prefix))
    → IsMasked p
    → Masks o
    → Masks (Option.map (λ l. p ∷ l) o)
map-Masks p none m h = tt
map-Masks p (some l) m h = (m, h)

past_end :
    (b : Bool) (o : Option (List Prefix)) → Masks o → Masks (elim b [ true ↦ some [] | false ↦ o ])
past_end true o h = tt
past_end false o h = h

after_block :
    (p : Prefix) (o : Option Addr) (rest : Addr → Option (List Prefix))
    → IsMasked p
    → ((b : Addr) → o ≡ some b → Masks (rest b))
    → Masks (elim o [ none ↦ some (p ∷ []) | some b ↦ Option.map (λ l. p ∷ l) (rest b) ])
after_block p none rest m h = (m, tt)
after_block p (some b) rest m h = map-Masks p (rest b) m (h b refl)

range_loop-Masks :
    (fuel : ℕ) (start end_addr : Addr)
    → start.num < 2 ^ width start.is4
    → Masks (range_loop fuel start end_addr)
unfolding range_loop
range_loop-Masks zero start end_addr h = tt
range_loop-Masks (suc fuel) start end_addr h =
    let p = first_block start end_addr in
    let m = first_block-IsMasked start end_addr h in
    past_end (is_gt (compare_addr start end_addr)) _ (
      after_block p (next_addr (last_addr p)) (λ b. range_loop fuel b end_addr) m
        (λ b e. range_loop-Masks fuel b end_addr (next_fits (last_addr p) b (last-IsAddr p m) e)))

get-Masks : (o : Option (List Prefix)) → Masks o → All IsMasked (Option.get_or o [])
get-Masks none h = tt
get-Masks (some l) h = h

if-All :
    (b : Bool) (x y : List Prefix)
    → All IsMasked x
    → All IsMasked y
    → All IsMasked (if b then x else y)
if-All true x y h k = h
if-All false x y h k = k

range-IsMasked :
    (start end_addr : Addr)
    → start.num < 2 ^ width start.is4
    → All IsMasked (range_to_cidr start end_addr)
unfolding range_to_cidr
range-IsMasked start end_addr h =
    if-All (not (same start.is4 end_addr.is4) || is_gt (compare_addr start end_addr)) [] _ tt (
      get-Masks (range_loop (room start) start end_addr)
        (range_loop-Masks (room start) start end_addr h))

range_of-IsMasked : (o p : Option Addr) → Fits o → All IsMasked (range_of o p)
range_of-IsMasked (some a) (some b) h = range-IsMasked a b h
range_of-IsMasked (some a) none h = tt
range_of-IsMasked none none h = tt
range_of-IsMasked none (some b) h = tt

parse_range-IsMasked : (s : Bytes) → All IsMasked (parse_range s)
unfolding parse_range
parse_range-IsMasked s = dashed (index_byte s b'-')
  where
    dashed :
        (o : Option ℕ)
        → All IsMasked (elim o [
          | none ↦ []
          | some at ↦
              range_of
                (parse_addr (trim_space (take at s)))
                (parse_addr (trim_space (drop (at + 1) s)))
        ])
    dashed none = tt
    dashed (some at) = range_of-IsMasked _ _ (parse_addr-Fits (trim_space (take at s)))

parse_entry-IsMasked : (s : Bytes) → All IsMasked (parse_entry s)
unfolding parse_entry
parse_entry-IsMasked s = if-All (is_nil s) [] _ tt (
    if-All (contains_str s (bytes "-")) _ _ (parse_range-IsMasked s)
      (or_skip-IsMasked (parse_prefix s) (parse_prefix-Valid s)))

-- Every prefix that is parsed from a feed is masked, whatever its texts say.
parse_prefixes-IsMasked : (raw : List Bytes) → All IsMasked (parse_prefixes raw)
unfolding parse_prefixes
parse_prefixes-IsMasked [] = tt
parse_prefixes-IsMasked (s ∷ l) =
    All-append IsMasked (parse_entry (trim_space s)) (parse_prefixes l)
      (parse_entry-IsMasked (trim_space s)) (parse_prefixes-IsMasked l)

-- The aggregated feed holds a zone-free address exactly when some prefix that is parsed from it, or
-- one of the masked extras, does.
pub feed_aggregate-covers :
    (raw : List Bytes) (extras : List Prefix) (a : Addr)
    → All IsMasked extras
    → IsAddr a
    → covers (aggregate (parse_prefixes raw ++ extras)) a
      ≡ (covers (parse_prefixes raw) a || covers extras a)
unfolding covers
feed_aggregate-covers raw extras a m v =
    aggregate-covers (parse_prefixes raw ++ extras) a
      (All-append IsMasked (parse_prefixes raw) extras (parse_prefixes-IsMasked raw) m) v
    ∙ any-append (λ p. contains p a) (parse_prefixes raw) extras
