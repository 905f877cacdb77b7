-- ===== src/Examples/Prefixes.antt =====
-- Runs of main.go's `aggregate`, `rangeToCIDR` and `lastAddr`, and texts of prefixes.
use georoute.Base.{
  ℕ, ◌+◌, ◌*◌, ◌^◌, ◌≤◌, ◌<◌, ◌≡◌, refl, sym, ap, ◌∙◌, true, false, not, ◌&&◌, List, [], ◌∷◌, All,
  arith, length, same, compare,
}
use georoute.Netip.{Addr, Prefix, IsAddr, IsMasked, covers, compare_addr, is_gt}
use georoute.Netip.Rank.{rank, compare_addr-rank}
use georoute.Netip.Format.{prefix_string, string6}
use georoute.Text.{bytes}
use georoute.Aggregate.{aggregate}
use georoute.Aggregate.Dedup.{Ordered}
use georoute.Aggregate.Laws.{aggregate-covers, aggregate-Ordered, aggregate_canonical}
use georoute.Aggregate.Minimal.{aggregate_minimal}
use georoute.Ranges.{range_to_cidr, range_loop}
use georoute.Ranges.First.{IsRange}
use georoute.Ranges.Laws.{
  Finished, range_loop-Finished, range_to_cidr-covers, range_to_cidr_minimal,
}
use georoute.Examples.{v4, net}

v4_text :
    prefix_string (record { addr = record { is4 = true; num = 0x0a000100; zone = [] }; bits = 24 })
    ≡ bytes "10.0.1.0/24"
unfolding prefix_string
v4_text = refl

v6_text :
    prefix_string
      (record { addr = record { is4 = false; num = 0x2a02_0006 * 2 ^ 96; zone = [] }; bits = 32 })
    ≡ bytes "2a02:6::/32"
unfolding prefix_string
v6_text = refl

v6_inner : string6 (0x2001_0db8 * 2 ^ 96 + 0x1_0000_0001) ≡ bytes "2001:db8::1:0:1"
unfolding string6
v6_inner = refl

-- 10.0.0.128/25 and 10.0.0.0/25, the halves of 10.0.0.0/24.
abbrev halves : List Prefix
halves = net 0x0a000080 25 ∷ net 0x0a000000 25 ∷ []

abbrev whole : List Prefix
whole = net 0x0a000000 24 ∷ []

IsAddr-ok : (n : ℕ) → n < 2 ^ 32 → IsAddr (v4 n)
IsAddr-ok n h = record { fits = h; zone_free = refl }

halves-IsMasked : All IsMasked halves
halves-IsMasked = (
  record { in_range = omega arith; valid = IsAddr-ok 0x0a000080 (omega arith); cleared = refl },
  (
    record { in_range = omega arith; valid = IsAddr-ok 0x0a000000 (omega arith); cleared = refl },
    tt,
  ),
)

whole-IsMasked : All IsMasked whole
whole-IsMasked = (
  record { in_range = omega arith; valid = IsAddr-ok 0x0a000000 (omega arith); cleared = refl },
  tt,
)

merges : aggregate halves ≡ whole
unfolding aggregate
merges = refl

halves-whole : (a : Addr) → IsAddr a → covers halves a ≡ covers whole a
halves-whole a v = sym (aggregate-covers halves a halves-IsMasked v) ∙ ap (λ l. covers l a) merges

aggregate-covers_example : covers (aggregate halves) (v4 0x0a000081) ≡ covers halves (v4 0x0a000081)
aggregate-covers_example =
    aggregate-covers halves (v4 0x0a000081) halves-IsMasked (IsAddr-ok 0x0a000081 (omega arith))

aggregate_minimal_example : length (aggregate halves) ≤ length whole
aggregate_minimal_example =
    aggregate_minimal halves whole halves-IsMasked whole-IsMasked (λ a v. sym (halves-whole a v))

aggregate_canonical_example : aggregate halves ≡ aggregate whole
aggregate_canonical_example =
    aggregate_canonical halves whole halves-IsMasked whole-IsMasked halves-whole

aggregate-Ordered_example : All IsMasked (aggregate halves) × Ordered 0 (aggregate halves)
aggregate-Ordered_example = aggregate-Ordered halves halves-IsMasked

-- 10.0.0.1-10.0.0.6
abbrev six : List Prefix
six = net 0x0a000001 32 ∷ net 0x0a000002 31 ∷ net 0x0a000004 31 ∷ net 0x0a000006 32 ∷ []

six-IsMasked : All IsMasked six
six-IsMasked = (
  record { in_range = omega arith; valid = IsAddr-ok 0x0a000001 (omega arith); cleared = refl },
  (
    record { in_range = omega arith; valid = IsAddr-ok 0x0a000002 (omega arith); cleared = refl },
    (
      record { in_range = omega arith; valid = IsAddr-ok 0x0a000004 (omega arith); cleared = refl },
      (
        record {
          in_range = omega arith;
          valid = IsAddr-ok 0x0a000006 (omega arith);
          cleared = refl;
        },
        tt,
      ),
    ),
  ),
)

low_end : IsAddr (v4 0x0a000001)
low_end = IsAddr-ok 0x0a000001 (omega arith)

high_end : IsAddr (v4 0x0a000006)
high_end = IsAddr-ok 0x0a000006 (omega arith)

range_to_cidr-covers_example :
    covers (range_to_cidr (v4 0x0a000001) (v4 0x0a000006)) (v4 0x0a000003) ≡ (
      same true true
      && not (is_gt (compare_addr (v4 0x0a000001) (v4 0x0a000003)))
      && not (is_gt (compare_addr (v4 0x0a000003) (v4 0x0a000006))))
range_to_cidr-covers_example =
    range_to_cidr-covers (v4 0x0a000001) (v4 0x0a000006) (v4 0x0a000003) low_end high_end
      (IsAddr-ok 0x0a000003 (omega arith))

-- 255.255.255.250-255.255.255.253: six addresses are left.
last-IsRange : IsRange (v4 0xfffffffa) (v4 0xfffffffd)
last-IsRange = record {
  valid_start = IsAddr-ok 0xfffffffa (omega arith);
  valid_end = IsAddr-ok 0xfffffffd (omega arith);
  family = refl;
}

range_loop-Finished_example :
    Finished (v4 0xfffffffa) (v4 0xfffffffd) (range_loop 6 (v4 0xfffffffa) (v4 0xfffffffd))
range_loop-Finished_example =
    range_loop-Finished 6 (v4 0xfffffffa) (v4 0xfffffffd) last-IsRange (omega arith)

six_range : range_to_cidr (v4 0x0a000001) (v4 0x0a000006) ≡ six
unfolding range_to_cidr
six_range = refl

range_to_cidr_minimal_example :
    All IsMasked (range_to_cidr (v4 0x0a000001) (v4 0x0a000006))
    × Ordered 0 (range_to_cidr (v4 0x0a000001) (v4 0x0a000006))
    × (length (range_to_cidr (v4 0x0a000001) (v4 0x0a000006)) ≤ length six)
range_to_cidr_minimal_example =
    range_to_cidr_minimal (v4 0x0a000001) (v4 0x0a000006) six low_end high_end six-IsMasked
      (λ a v. ap (λ l. covers l a) (sym six_range))

compare_addr-rank_example :
    compare_addr (v4 0x0a000001) (v4 0x0a000006)
    ≡ compare (rank (v4 0x0a000001)) (rank (v4 0x0a000006))
compare_addr-rank_example = compare_addr-rank (v4 0x0a000001) (v4 0x0a000006) low_end high_end
