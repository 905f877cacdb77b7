-- ===== src/Netip/Parse.antt =====
-- `netip.ParseAddr` and `netip.ParsePrefix`; none where they return an error.
use georoute.Base.{
  ℕ, zero, suc, ◌+◌, ◌-◌, ◌*◌, ◌/◌, ◌%◌, ◌^◌, Bool, true, false, not, ◌&&◌, ◌||◌, Option, none,
  some, List, [], ◌∷◌, ◌++◌, ◌==◌, leb, ltb, if◌then◌else◌, length, take, drop,
}
use georoute.Netip.{Bytes, Addr, Prefix, width, is_nil}
use georoute.Text.{index_byte}

abbrev pub is_digit : ℕ → Bool
is_digit c = leb b'0' c && leb c b'9'

-- The loop of `parseIPv4Fields`: the value and the digits of the field so far, the number of the
-- fields that are complete and the number that they spell.
unfoldable pub ipv4_loop : Bytes → ℕ → ℕ → ℕ → ℕ → Option ℕ
ipv4_loop [] value digits fields acc =
    if digits == 0 || not (fields == 3) then none else some (acc * 256 + value)
ipv4_loop (c ∷ s) value digits fields acc =
    let grown = ipv4_loop s (value * 10 + (c - b'0')) (digits + 1) fields acc in
    let closed = ipv4_loop s 0 0 (fields + 1) (acc * 256 + value) in
    if is_digit c
    then (if digits == 1 && value == 0 || ltb 255 (value * 10 + (c - b'0')) then none else grown)
    else if c == b'.'
    then (if digits == 0 || fields == 3 then none else closed)
    else none

unfoldable pub parse_ipv4 : Bytes → Option ℕ
unfolding ipv4_loop
parse_ipv4 s = ipv4_loop s 0 0 0 0

abbrev hex_value : ℕ → Option ℕ
hex_value c =
    if is_digit c
    then some (c - b'0')
    else if leb b'a' c && leb c b'f'
    then some (c - b'a' + 10)
    else if leb b'A' c && leb c b'F'
    then some (c - b'A' + 10)
    else none

-- The hexadecimal digits in front: their number, what they spell, and the rest; none where they are
-- more than four.
unfoldable hex_field : ℕ → ℕ → ℕ → Bytes → Option (ℕ × ℕ × Bytes)
hex_field fuel off acc [] = some (off, acc, [])
hex_field fuel off acc (c ∷ s) = elim (hex_value c) [
  | none ↦ some (off, acc, c ∷ s)
  | some d ↦ elim fuel [ zero ↦ none | suc k ↦ hex_field k (off + 1) (acc * 16 + d) s ]
]

-- What the loop of `parseIPv6` has: the 16-bit groups, and where the `::` stood.
pub record Groups : Type 0 where
  pub groups : List ℕ
  pub ellipsis : Option ℕ

abbrev is_none {ℓ} : {A : Type ℓ} → Option A → Bool
is_none none = true
is_none (some _) = false

-- The embedded IPv4 address that ends a text.
abbrev embedded : Groups → Option ℕ → Option Groups
embedded g none = none
embedded g (some n) =
    if is_none g.ellipsis && not (length g.groups == 6) || ltb 6 (length g.groups)
    then none
    else some (record g { groups = g.groups ++ n / 2 ^ 16 ∷ n % 2 ^ 16 ∷ [] })

-- The loop of `parseIPv6`, for at most as many groups as the fuel; text that is left is garbage.
unfoldable pub ipv6_loop : ℕ → Bytes → Groups → Option Groups
unfolding hex_field parse_ipv4
ipv6_loop zero [] g = some g
ipv6_loop zero (c ∷ s) g = none
ipv6_loop (suc k) s g = elim (hex_field 4 0 0 s) [
  | none ↦ none
  | some (zero, _, _) ↦ none
  | some (suc off, acc, []) ↦ some (record g { groups = g.groups ++ acc ∷ [] })
  | some (suc off, acc, c ∷ []) ↦ if c == b'.' then embedded g (parse_ipv4 s) else none
  | some (suc off, acc, c ∷ d ∷ r) ↦
      let more = record g { groups = g.groups ++ acc ∷ [] } in
      let marked = record more { ellipsis = some (length g.groups + 1) } in
      if c == b'.'
      then embedded g (parse_ipv4 s)
      else if not (c == b':')
      then none
      else if d == b':'
      then (if not (is_none g.ellipsis)
          then none
          else elim r [ [] ↦ some marked | ◌∷◌ e q ↦ ipv6_loop k (e ∷ q) marked ])
      else ipv6_loop k (d ∷ r) more
]

abbrev zeros : ℕ → List ℕ
zeros zero = []
zeros (suc n) = 0 ∷ zeros n

abbrev expanded_at : List ℕ → Option ℕ → Option (List ℕ)
expanded_at l none = if length l == 8 then some l else none
expanded_at l (some at) =
    if length l == 8 then none else some (take at l ++ (zeros (8 - length l) ++ drop at l))

-- The eight groups: the `::` stands for at least one group of zeros, and is needed for fewer.
abbrev pub expanded : Option Groups → Option (List ℕ)
expanded none = none
expanded (some g) = expanded_at g.groups g.ellipsis

-- The sixteen bytes as one number.
unfoldable pub number_of_groups : List ℕ → ℕ → ℕ
number_of_groups [] acc = acc % 2 ^ 128
number_of_groups (g ∷ l) acc = number_of_groups l (acc * 2 ^ 16 + g)

abbrev pub with_zone : Bytes → Option (List ℕ) → Option Addr
with_zone zone none = none
with_zone zone (some l) = some (record { is4 = false; num = number_of_groups l 0; zone = zone })

abbrev pub ipv6_text : Bytes → Option Groups
ipv6_text (x ∷ y ∷ s) =
    if x == b':' && y == b':'
    then elim s [
      | [] ↦ some (record { groups = []; ellipsis = some 0 })
      | ◌∷◌ c r ↦ ipv6_loop 8 (c ∷ r) (record { groups = []; ellipsis = some 0 })
    ]
    else ipv6_loop 8 (x ∷ y ∷ s) (record { groups = []; ellipsis = none })
ipv6_text s = ipv6_loop 8 s (record { groups = []; ellipsis = none })

abbrev pub parse_zoned : Bytes → Option ℕ → Option Addr
parse_zoned s none = with_zone [] (expanded (ipv6_text s))
parse_zoned s (some at) =
    if is_nil (drop (at + 1) s)
    then none
    else with_zone (drop (at + 1) s) (expanded (ipv6_text (take at s)))

unfoldable pub parse_ipv6 : Bytes → Option Addr
unfolding ipv6_loop number_of_groups index_byte
parse_ipv6 s = parse_zoned s (index_byte s b'%')

abbrev pub four : Option ℕ → Option Addr
four none = none
four (some n) = some (record { is4 = true; num = n % 2 ^ 32; zone = [] })

-- `netip.ParseAddr`: the first of `.`, `:` and `%` tells the family.
unfoldable pub parse_as : Bytes → Bytes → Option Addr
unfolding parse_ipv4 parse_ipv6
parse_as s [] = none
parse_as s (c ∷ t) =
    let later = parse_as s t in
    if c == b'.'
    then four (parse_ipv4 s)
    else if c == b':'
    then parse_ipv6 s
    else if c == b'%'
    then none
    else later

unfoldable pub parse_addr : Bytes → Option Addr
unfolding parse_as
parse_addr s = parse_as s s

-- `strings.LastIndexByte(s, '/')`
unfoldable pub last_slash : Bytes → Option ℕ
last_slash [] = none
last_slash (c ∷ s) = elim (last_slash s) [
  | some n ↦ some (n + 1)
  | none ↦ if c == b'/' then some 0 else none
]

-- The digits of a length; none for anything else.
unfoldable pub parse_digits : Bytes → ℕ → Option ℕ
parse_digits [] acc = some acc
parse_digits (c ∷ s) acc =
    let rest = parse_digits s (acc * 10 + (c - b'0')) in if is_digit c then rest else none

-- The length behind the slash: digits, without a sign and a leading zero.
abbrev pub parse_bits : Bytes → Option ℕ
parse_bits [] = none
parse_bits (c ∷ []) = parse_digits (c ∷ []) 0
parse_bits (c ∷ d ∷ s) = if leb b'1' c && leb c b'9' then parse_digits (c ∷ d ∷ s) 0 else none

abbrev pub checked_prefix : Option Addr → Option ℕ → Option Prefix
checked_prefix (some a) (some bits) =
    if is_nil a.zone && leb bits (width a.is4)
    then some (record { addr = a; bits = bits })
    else none
checked_prefix _ _ = none

abbrev pub parse_split : Bytes → Option ℕ → Option Prefix
parse_split s none = none
parse_split s (some at) = checked_prefix (parse_addr (take at s)) (parse_bits (drop (at + 1) s))

-- `netip.ParsePrefix`
unfoldable pub parse_prefix : Bytes → Option Prefix
unfolding parse_addr last_slash parse_digits
parse_prefix s = parse_split s (last_slash s)
