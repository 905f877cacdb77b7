-- ===== src/Feeds.antt =====
-- main.go's `parsePrefixes` and `parseRange`, and extras.go: the texts that become prefixes.
pub mod Valid
pub mod Laws
pub mod Extras
pub mod Load
pub mod Loading
pub mod Loaded
pub mod Plain
pub mod RoundTrip
pub mod Written
use georoute.Base.{
  ℕ, zero, suc, ◌+◌, Bool, true, false, not, ◌&&◌, Option, none, some, List, [], ◌∷◌, ◌++◌, ◌==◌,
  if◌then◌else◌, length, take, drop,
}
use georoute.Netip.{Bytes, Addr, Prefix, is_nil, masked}
use georoute.Netip.Format.{is4_in6}
use georoute.Netip.Parse.{parse_addr, parse_prefix}
use georoute.Text.{bytes, contains_str, has_prefix, index_byte, trim_space, decimal}
use georoute.Errors.{
  Error, Result, ok, err, sentinel, detail, wrap, is, too_long, extras_invalid_prefix,
  extras_family_mismatch, extras_line_too_long,
}
use georoute.Ranges.{range_to_cidr}

abbrev pub range_of : Option Addr → Option Addr → List Prefix
range_of (some start) (some end_addr) = range_to_cidr start end_addr
range_of _ _ = []

-- `parseRange`: the text is split at the first dash.
unfoldable pub parse_range : Bytes → List Prefix
parse_range s = elim (index_byte s b'-') [
  | none ↦ []
  | some at ↦
      range_of (parse_addr (trim_space (take at s))) (parse_addr (trim_space (drop (at + 1) s)))
]

abbrev pub or_skip : Option Prefix → List Prefix
or_skip none = []
or_skip (some p) = masked p ∷ []

-- What one line of the feed stands for.
unfoldable pub parse_entry : Bytes → List Prefix
parse_entry clean =
    if is_nil clean
    then []
    else if contains_str clean (bytes "-")
    then parse_range clean
    else or_skip (parse_prefix clean)

unfoldable pub parse_prefixes : List Bytes → List Prefix
parse_prefixes [] = []
parse_prefixes (s ∷ l) = parse_entry (trim_space s) ++ parse_prefixes l

unfoldable pub matches_family : Prefix → ℕ → Bool
matches_family p family =
    if family == 4
    then p.addr.is4
    else if family == 6
    then not p.addr.is4 && not (is4_in6 p.addr)
    else false

-- `strings.TrimPrefix(raw, utf8BOM)` on the first line.
abbrev pub without_bom : ℕ → Bytes → Bytes
without_bom line_no raw =
    if line_no == 1 && has_prefix raw (239 ∷ 187 ∷ 191 ∷ []) then drop 3 raw else raw

abbrev pub without_comment : Bytes → Bytes
without_comment raw = elim (index_byte raw b'#') [ none ↦ raw | some at ↦ take at raw ]

-- What a line of an extras file says: nothing, a prefix, or an error.
unfoldable pub extras_line : ℕ → ℕ → Bytes → Result (List Prefix)
extras_line family line_no raw =
    let clean = trim_space (without_comment (without_bom line_no raw)) in
    if is_nil clean then ok [] else elim (parse_prefix clean) [
      | none ↦
          err (detail (sentinel extras_invalid_prefix) (decimal line_no ++ (bytes ": " ++ clean)))
      | some p ↦
          if matches_family p family
          then ok (masked p ∷ [])
          else err
              (detail (sentinel extras_family_mismatch) (decimal line_no ++ (bytes ": " ++ clean)))
    ]

-- `scanner.Err()` after the last line that was scanned.
abbrev pub scan_end : ℕ → Option Error → Result (List Prefix)
scan_end line_no none = ok []
scan_end line_no (some e) =
    if is e too_long
    then err (detail (sentinel extras_line_too_long) (decimal (line_no + 1)))
    else err (wrap (bytes "scan extras") e)

abbrev prepend : List Prefix → Result (List Prefix) → Result (List Prefix)
prepend l (ok m) = ok (l ++ m)
prepend l (err e) = err e

abbrev pub then_rest : Result (List Prefix) → Result (List Prefix) → Result (List Prefix)
then_rest (ok l) rest = prepend l rest
then_rest (err e) rest = err e

-- The loop of `loadExtras` behind `line_no` lines: the lines that the scanner gives, and how it ends.
unfoldable pub scan_extras : ℕ → ℕ → List Bytes → Option Error → Result (List Prefix)
scan_extras family line_no [] end = scan_end line_no end
scan_extras family line_no (raw ∷ l) end =
    then_rest (extras_line family (line_no + 1) raw) (scan_extras family (line_no + 1) l end)
