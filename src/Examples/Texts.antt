-- ===== src/Examples/Texts.antt =====
-- Runs of the parsers of feeds and extras files.
use georoute.Base.{
  Option, ◌≡◌, ◌||◌, refl, false, none, some, List, [], ◌∷◌, ◌++◌, ◌*◌, ◌+◌, ◌^◌, arith,
}
use georoute.Netip.{Bytes, covers, masked}
use georoute.Netip.Parse.{parse_addr, parse_prefix}
use georoute.Text.{bytes, trim_space, skip_space, space_length, index_byte, has_prefix}
use georoute.Errors.{ok}
use georoute.Aggregate.{aggregate}
use georoute.Feeds.{parse_prefixes, scan_extras, extras_line, matches_family}
use georoute.Feeds.Laws.{feed_aggregate-covers}
use georoute.Errors.{Error}
use georoute.Feeds.Extras.{Scanned, scan_extras-Scanned}
use georoute.Examples.{v4, net}

parses_v6 :
    parse_addr (bytes "2001:db8::1")
    ≡ some (record { is4 = false; num = 0x2001_0db8 * 2 ^ 96 + 1; zone = [] })
unfolding parse_addr
parses_v6 = refl

parses_mapped :
    parse_addr (bytes "::ffff:1.2.3.4")
    ≡ some (record { is4 = false; num = 0xffff_0102_0304; zone = [] })
unfolding parse_addr
parses_mapped = refl

refuses_zero : parse_prefix (bytes "10.0.0.0/08") ≡ none
unfolding parse_prefix
refuses_zero = refl

abbrev feed : List Bytes
feed = bytes " 10.0.0.0/25" ∷ bytes "10.0.0.128-10.0.0.255" ∷ bytes "bad" ∷ []

feed_aggregate-covers_example :
    covers (aggregate (parse_prefixes feed ++ [])) (v4 0x0a000001)
    ≡ (covers (parse_prefixes feed) (v4 0x0a000001) || covers [] (v4 0x0a000001))
feed_aggregate-covers_example =
    feed_aggregate-covers feed [] (v4 0x0a000001) tt
      (record { fits = omega arith; zone_free = refl })

abbrev lines : List Bytes
lines = bytes "# ours" ∷ bytes "10.1.2.3/8 # all" ∷ []

scans : scan_extras 4 0 lines none ≡ ok (net 0x0a000000 8 ∷ [])
unfolding scan_extras extras_line parse_prefix trim_space skip_space space_length index_byte
    matches_family masked has_prefix
scans = refl

scan_extras-Scanned_example :
    (◌≡◌ {A = Option Error} none none) × Scanned 4 0 lines (net 0x0a000000 8 ∷ [])
scan_extras-Scanned_example = scan_extras-Scanned 4 0 lines none scans
