-- ===== src/Netip.antt =====
-- What the program uses of Go's net/netip: addresses, prefixes, comparison, masking, containment
-- (main.go: lastAddr, canMerge and the calls of netip in rangeToCIDR and aggregate).
-- An address is its family, its number and its IPv6 zone; `netip.Prefix` values that the program
-- makes are valid, so the length is a plain number, and `IsMasked` states its range.
pub mod Rank
pub mod Block
pub mod LastAddr
pub mod Format
pub mod Parse
pub mod RoundTrip
use georoute.Base.{
  ℕ, zero, suc, ◌+◌, ◌-◌, ◌*◌, ◌/◌, ◌%◌, ◌^◌, ◌<◌, ◌≤◌, ◌≡◌, Bool, true, false, not, ◌&&◌, ◌||◌,
  Option, none, some, List, [], ◌∷◌, compare, Ordering, ◌==◌, same, if◌then◌else◌, any,
}

-- Go strings and byte slices.
abbrev pub Bytes : Type 0
Bytes = List ℕ

pub record Addr : Type 0 where
  pub is4 : Bool
  pub num : ℕ
  pub zone : Bytes

pub record Prefix : Type 0 where
  pub addr : Addr
  pub bits : ℕ

-- `Addr.BitLen` of a family.
abbrev pub width : Bool → ℕ
width true = 32
width false = 128

-- The numbers that a prefix of this family and length spans.
abbrev pub block : Bool → ℕ → ℕ
block v4 bits = 2 ^ (width v4 - bits)

abbrev and_then : Ordering → Ordering → Ordering
and_then Ordering.eq o = o
and_then Ordering.lt o = Ordering.lt
and_then Ordering.gt o = Ordering.gt

-- `strings.Compare`
unfoldable pub compare_bytes : Bytes → Bytes → Ordering
compare_bytes [] [] = Ordering.eq
compare_bytes [] (y ∷ ys) = Ordering.lt
compare_bytes (x ∷ xs) [] = Ordering.gt
compare_bytes (x ∷ xs) (y ∷ ys) = and_then (compare x y) (compare_bytes xs ys)

-- `Addr.Compare`: by bit length, then by number, then (IPv6 only) by zone.
unfoldable pub compare_addr : Addr → Addr → Ordering
unfolding compare_bytes
compare_addr a b =
    and_then (compare (width a.is4) (width b.is4))
      (and_then (compare a.num b.num) (if a.is4 then Ordering.eq else compare_bytes a.zone b.zone))

abbrev is_lt : Ordering → Bool
is_lt Ordering.lt = true
is_lt _ = false

abbrev pub is_gt : Ordering → Bool
is_gt Ordering.gt = true
is_gt _ = false

abbrev is_eq : Ordering → Bool
is_eq Ordering.eq = true
is_eq _ = false

-- `==` on addresses, which are comparable values.
unfoldable pub addr_eq : Addr → Addr → Bool
unfolding compare_bytes
addr_eq a b = same a.is4 b.is4 && a.num == b.num && is_eq (compare_bytes a.zone b.zone)

-- `netip.PrefixFrom`: an IPv6 zone is dropped.
abbrev pub prefix_from : Addr → ℕ → Prefix
prefix_from a n = record { addr = record a { zone = [] }; bits = n }

-- `Prefix.Masked`: the bits behind the length are cleared.
unfoldable pub masked : Prefix → Prefix
masked p =
    let s = block p.addr.is4 p.bits in
    record {
      addr = record { is4 = p.addr.is4; num = p.addr.num / s * s; zone = [] };
      bits = p.bits;
    }

abbrev pub is_nil : Bytes → Bool
is_nil [] = true
is_nil (_ ∷ _) = false

-- `Prefix.Contains`: never an address with a zone or of the other family.
unfoldable pub contains : Prefix → Addr → Bool
contains p a =
    let s = block p.addr.is4 p.bits in
    is_nil a.zone && same p.addr.is4 a.is4 && a.num / s == p.addr.num / s

-- `bytes16[i/8] |= 1 << (7 - i%8)` on the sixteen bytes read as one big-endian number; `k` is
-- 127 - i.
unfoldable pub set_bit : ℕ → ℕ → ℕ
set_bit n k = if n / 2 ^ k % 2 == 1 then n else n + 2 ^ k

-- The loop of `lastAddr` over the last `k` of the 128 bits, most significant first.
unfoldable pub set_low : ℕ → ℕ → ℕ
unfolding set_bit
set_low zero n = n
set_low (suc k) n = set_low k (set_bit n k)

abbrev pub mapped : ℕ
mapped = 0xffff * 2 ^ 32

-- `Addr.As16`: an IPv4 address becomes ::ffff:a.b.c.d.
abbrev as16 : Addr → ℕ
as16 a = if a.is4 then mapped + a.num else a.num

-- `lastAddr`: `AddrFrom16`, and for IPv4 `Unmap`, which keeps the low 32 bits.
unfoldable pub last_addr : Prefix → Addr
unfolding set_low
last_addr p =
    let v4 = p.addr.is4 in
    let bits = if v4 then p.bits + 96 else p.bits in
    let filled = set_low (128 - bits) (as16 p.addr) in
    record { is4 = v4; num = if v4 then filled % 2 ^ 32 else filled; zone = [] }

-- `Addr.Next`: none behind the last address of the family.
unfoldable pub next_addr : Addr → Option Addr
next_addr a =
    if (a.num + 1) % 2 ^ width a.is4 == 0 then none else some (record a { num = a.num + 1 })

-- A zone-free address whose number fits its family.
pub record IsAddr (a : Addr) : Type 0 where
  pub fits : a.num < 2 ^ width a.is4
  pub zone_free : a.zone ≡ []

-- A valid prefix with no bits set behind its length.
pub record IsMasked (p : Prefix) : Type 0 where
  pub in_range : p.bits ≤ width p.addr.is4
  pub valid : IsAddr p.addr
  pub cleared : p.addr.num / block p.addr.is4 p.bits * block p.addr.is4 p.bits ≡ p.addr.num

-- Some prefix of the list holds the address.
unfoldable pub covers : List Prefix → Addr → Bool
covers l a = any (λ p. contains p a) l
