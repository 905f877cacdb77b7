-- ===== src/Feeds/Valid.antt =====
-- The addresses and prefixes that main.go and extras.go parse.
use georoute.Base.{
  ℕ, ◌+◌, ◌*◌, ◌^◌, ◌≤◌, ◌<◌, Bool, true, false, Bool-cases, inl, inr, ◌&&◌, Option, none, some,
  List, [], ◌∷◌, ◌==◌, All, leb, arith, if◌then◌else◌, take, drop,
}
use georoute.Netip.{Bytes, Addr, Prefix, width, is_nil, IsMasked}
use georoute.Netip.Parse.{
  parse_addr, parse_as, parse_ipv4, parse_ipv6, parse_prefix, parse_split, checked_prefix,
  number_of_groups, four, with_zone, parse_zoned, expanded, last_slash, ipv6_text,
}
use georoute.Text.{index_byte}
use georoute.Aggregate.Merging.{masked-IsMasked}
use georoute.Feeds.{or_skip}

-- The number of an address is one of its family.
abbrev pub Fits : Option Addr → Type 0
Fits none = Unit {0}
Fits (some a) = a.num < 2 ^ width a.is4

groups_fit : (l : List ℕ) (acc : ℕ) → number_of_groups l acc < 2 ^ 128
unfolding number_of_groups
groups_fit [] acc = omega arith
groups_fit (g ∷ l) acc = groups_fit l (acc * 2 ^ 16 + g)

four-Fits : (o : Option ℕ) → Fits (four o)
four-Fits none = tt
four-Fits (some n) = omega arith

zone-Fits : (zone : Bytes) (o : Option (List ℕ)) → Fits (with_zone zone o)
zone-Fits zone none = tt
zone-Fits zone (some l) = groups_fit l 0

if-Fits : (b : Bool) (x y : Option Addr) → Fits x → Fits y → Fits (if b then x else y)
if-Fits true x y h k = h
if-Fits false x y h k = k

zoned-Fits : (s : Bytes) (o : Option ℕ) → Fits (parse_zoned s o)
zoned-Fits s none = zone-Fits [] (expanded (ipv6_text s))
zoned-Fits s (some at) =
    let zone = drop (at + 1) s in
    let text = expanded (ipv6_text (take at s)) in
    if-Fits (is_nil zone) none (with_zone zone text) tt (zone-Fits zone text)

parse_ipv6-Fits : (s : Bytes) → Fits (parse_ipv6 s)
unfolding parse_ipv6
parse_ipv6-Fits s = zoned-Fits s (index_byte s b'%')

parse_as-Fits : (s t : Bytes) → Fits (parse_as s t)
unfolding parse_as
parse_as-Fits s [] = tt
parse_as-Fits s (c ∷ t) = if-Fits (c == b'.') _ _ (four-Fits (parse_ipv4 s)) (
    if-Fits (c == b':') _ _ (parse_ipv6-Fits s) (if-Fits (c == b'%') none _ tt (parse_as-Fits s t)))

pub parse_addr-Fits : (s : Bytes) → Fits (parse_addr s)
unfolding parse_addr
parse_addr-Fits s = parse_as-Fits s s

-- A parsed prefix, where there is one, has a length of its family, and its address fits.
abbrev pub Valid : Option Prefix → Type 0
Valid none = Unit {0}
Valid (some p) = (p.bits ≤ width p.addr.is4) × (p.addr.num < 2 ^ width p.addr.is4)

checked-Valid : (o : Option Addr) (b : Option ℕ) → Fits o → Valid (checked_prefix o b)
checked-Valid none none h = tt
checked-Valid none (some b) h = tt
checked-Valid (some a) none h = tt
checked-Valid (some a) (some bits) h = elim (Bool-cases (is_nil a.zone && leb bits (width a.is4))) [
  | inr n ↦ rw n tt
  | inl y ↦ rw y (ground arith, h)
]

split-Valid : (s : Bytes) (o : Option ℕ) → Valid (parse_split s o)
split-Valid s none = tt
split-Valid s (some at) = checked-Valid _ _ (parse_addr-Fits _)

pub parse_prefix-Valid : (s : Bytes) → Valid (parse_prefix s)
unfolding parse_prefix
parse_prefix-Valid s = split-Valid s (last_slash s)

pub or_skip-IsMasked : (o : Option Prefix) → Valid o → All IsMasked (or_skip o)
or_skip-IsMasked none h = tt
or_skip-IsMasked (some p) h = (masked-IsMasked p h.0 h.1, tt)
