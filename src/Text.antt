-- ===== src/Text.antt =====
-- What the program uses of Go's strings, strconv and fmt, over byte strings.
pub mod Search
use Prim.Native.Char.{code}
use Prim.Native.String.{String}
use mathlib.Core.Option
use georoute.Base.{
  ℕ, zero, suc, ◌+◌, ◌-◌, ◌/◌, ◌%◌, Bool, true, false, ◌&&◌, ◌||◌, Option, none, some, List, [],
  ◌∷◌, ◌++◌, ◌==◌, leb, ltb, if◌then◌else◌, length, take, drop,
}
use georoute.Netip.{Bytes}

-- The bytes of a literal; every literal of the program that is used here is ASCII.
abbrev pub bytes : String → Bytes
bytes String.[] = []
bytes (String.◌∷◌ c s) = code c ∷ bytes s

-- `==` on strings.
unfoldable pub bytes_eq : Bytes → Bytes → Bool
bytes_eq [] [] = true
bytes_eq [] (_ ∷ _) = false
bytes_eq (_ ∷ _) [] = false
bytes_eq (x ∷ xs) (y ∷ ys) = x == y && bytes_eq xs ys

-- `strings.HasPrefix(s, sub)`
unfoldable pub has_prefix : Bytes → Bytes → Bool
has_prefix s [] = true
has_prefix [] (_ ∷ _) = false
has_prefix (x ∷ s) (y ∷ sub) = x == y && has_prefix s sub

-- `strings.Index(s, sub)`; none where Go returns -1.
unfoldable pub index : Bytes → Bytes → Option ℕ
unfolding has_prefix
index [] sub = if has_prefix [] sub then some 0 else none
index (x ∷ s) sub = if has_prefix (x ∷ s) sub then some 0 else Option.map suc (index s sub)

-- `strings.Contains`
unfoldable pub contains_str : Bytes → Bytes → Bool
unfolding index
contains_str s sub = elim (index s sub) [ none ↦ false | some _ ↦ true ]

-- `strings.IndexByte(s, c)`
unfoldable pub index_byte : Bytes → ℕ → Option ℕ
index_byte [] c = none
index_byte (x ∷ s) c = if x == c then some 0 else Option.map suc (index_byte s c)

-- ASCII white space.
abbrev pub is_space : ℕ → Bool
is_space c = c == b' ' || leb 9 c && leb c 13

-- Whether two or three bytes spell one of the other spaces of Unicode: U+0085, U+00A0, U+1680, U+2000
-- to U+200A, U+2028, U+2029, U+202F, U+205F and U+3000.
abbrev is_space2 : ℕ → ℕ → Bool
is_space2 c d = c == 194 && (d == 133 || d == 160)

abbrev is_space3 : ℕ → ℕ → ℕ → Bool
is_space3 c d e =
    c == 225 && (d == 154 && e == 128)
    || c == 226
      && (d == 128 && (leb 128 e && leb e 138 || (e == 168 || (e == 169 || e == 175)))
          || d == 129 && e == 159)
    || c == 227 && (d == 128 && e == 128)

abbrev wide_space : ℕ → Bytes → ℕ
wide_space c [] = 0
wide_space c (d ∷ []) = if is_space2 c d then 2 else 0
wide_space c (d ∷ e ∷ s) = if is_space2 c d then 2 else if is_space3 c d e then 3 else 0

-- How many bytes the white space has that a text starts with, `c` first.
unfoldable pub space_length : ℕ → Bytes → ℕ
space_length c s = if ltb c 128 then (if is_space c then 1 else 0) else wide_space c s

-- The text behind its white space, of which `k` bytes are still to come.
unfoldable pub skip_space : Bytes → ℕ → Bytes
skip_space [] k = []
skip_space (c ∷ s) k = elim k [
  | suc n ↦ skip_space s n
  | zero ↦ elim (space_length c s) [ zero ↦ c ∷ s | suc n ↦ skip_space s n ]
]

unfoldable pub trim_left : Bytes → Bytes
trim_left s = skip_space s 0

-- The text up to white space that goes to its end.
unfoldable pub trim_right : Bytes → Bytes
trim_right [] = []
trim_right (c ∷ s) =
    let rest = trim_right s in elim (skip_space (c ∷ s) 0) [ [] ↦ [] | ◌∷◌ d r ↦ c ∷ rest ]

-- `strings.TrimSpace`
unfoldable pub trim_space : Bytes → Bytes
unfolding trim_left trim_right
trim_space s = trim_right (trim_left s)

-- `strings.TrimRight(s, "\n")`
unfoldable pub trim_newlines : Bytes → Bytes
trim_newlines [] = []
trim_newlines (c ∷ s) =
    let rest = trim_newlines s in
    elim rest [ [] ↦ if c == b'\n' then [] else c ∷ [] | ◌∷◌ d r ↦ c ∷ d ∷ r ]

-- `strings.Join`
unfoldable pub join : List Bytes → Bytes → Bytes
join [] sep = []
join (s ∷ []) sep = s
join (s ∷ t ∷ l) sep = s ++ (sep ++ join (t ∷ l) sep)

-- `strings.Split(s, "\n")` and the like, at one separator byte.
unfoldable pub split_byte : ℕ → Bytes → List Bytes
split_byte sep [] = [] ∷ []
split_byte sep (c ∷ s) =
    let rest = split_byte sep s in
    if c == sep then [] ∷ rest else elim rest [ [] ↦ (c ∷ []) ∷ [] | ◌∷◌ piece l ↦ (c ∷ piece) ∷ l ]

abbrev lower_byte : ℕ → ℕ
lower_byte c = if leb b'A' c && leb c b'Z' then c + 32 else c

abbrev upper_byte : ℕ → ℕ
upper_byte c = if leb b'a' c && leb c b'z' then c - 32 else c

-- `strings.ToLower` and `strings.ToUpper` on ASCII texts, such as a country code.
unfoldable pub to_lower : Bytes → Bytes
to_lower [] = []
to_lower (c ∷ s) = lower_byte c ∷ to_lower s

unfoldable pub to_upper : Bytes → Bytes
to_upper [] = []
to_upper (c ∷ s) = upper_byte c ∷ to_upper s

-- The decimal digits of a number with at most as many digits as the fuel, as `%d` prints them.
unfoldable pub digits_onto : ℕ → ℕ → Bytes → Bytes
digits_onto zero n acc = acc
digits_onto (suc fuel) n acc =
    let more = digits_onto fuel (n / 10) ((48 + n % 10) ∷ acc) in
    if ltb n 10 then (48 + n) ∷ acc else more

unfoldable pub decimal : ℕ → Bytes
unfolding digits_onto
decimal n = digits_onto (n + 1) n []
