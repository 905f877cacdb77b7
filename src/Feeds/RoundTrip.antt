-- ===== src/Feeds/RoundTrip.antt =====
-- target.go's renderPrefixLines, read by extras.go.
use mathlib.Core.Path.{subst}
use georoute.Base.{
  ℕ, ◌+◌, ◌/◌, ◌*◌, ◌^◌, ◌≤◌, ◌<◌, ◌≡◌, refl, sym, ◌∙◌, ap, true, false, none, List, [], ◌∷◌, ◌++◌,
  append_assoc, All, map, length,
}
use georoute.Netip.{Bytes, Prefix, IsMasked, masked, block, is_nil, width}
use georoute.Netip.Format.{addr_string, prefix_string}
use georoute.Netip.RoundTrip.{ipv4_prefix, parse_prefix-prefix_string}
use georoute.Text.{
  bytes, decimal, join, trim_space, trim_left, trim_right, skip_space, index_byte, has_prefix,
}
use georoute.Errors.{ok}
use georoute.Target.{render_prefix_lines}
use georoute.Feeds.{matches_family, extras_line, scan_extras, without_bom, without_comment}
use georoute.Feeds.Load.{scan_file, scan_lines, scanned, with_line, drop_cr}
use georoute.Feeds.Plain.{
  Plain, prefix_string-Plain, prefix_string-bound, trim_space-Plain, without_comment-Plain,
  without_bom-Plain, scan_lines-Plain,
}

-- A masked IPv4 prefix.
pub record Ipv4 (p : Prefix) : Type 0 where
  pub family : p.addr.is4 ≡ true
  pub masks : IsMasked p

-- It is the prefix that the parser makes of its number and its length.
Ipv4-prefix : (p : Prefix) → Ipv4 p → ipv4_prefix p.addr.num p.bits ≡ p
Ipv4-prefix p h = λ i. record {
  addr = record { is4 = sym h.family i; num = p.addr.num; zone = sym h.masks.valid.zone_free i };
  bits = p.bits;
}

not_nil : (a b : Bytes) (x : ℕ) → is_nil (a ++ (x ∷ b)) ≡ false
not_nil [] b x = refl
not_nil (c ∷ a) b x = refl

-- What a line says that nothing is stripped from.
stripped : (k : ℕ) (s : Bytes) → All Plain s → trim_space (without_comment (without_bom k s)) ≡ s
stripped k s p =
    ap (λ t. trim_space (without_comment t)) (without_bom-Plain k s p)
    ∙ (ap trim_space (without_comment-Plain s p) ∙ trim_space-Plain s p)

line_lem :
    (n bits k : ℕ)
    → n < 2 ^ 32
    → bits ≤ 32
    → n / block true bits * block true bits ≡ n
    → extras_line 4 k (prefix_string (ipv4_prefix n bits)) ≡ ok (ipv4_prefix n bits ∷ [])
unfolding extras_line matches_family masked prefix_string
line_lem n bits k h b c =
    let text = prefix_string (ipv4_prefix n bits) in
    let clean = stripped k text (prefix_string-Plain n bits b) in
    let some_text = not_nil (addr_string (ipv4_prefix n bits).addr) (decimal bits) b'/' in
    let read = parse_prefix-prefix_string n bits h b in
    rw (clean, some_text, read) (ap (λ m. ok (ipv4_prefix m bits ∷ [])) c)

short : (p : Prefix) → Ipv4 p → p.bits ≤ 32
short p h = subst (λ b. p.bits ≤ width b) h.family h.masks.in_range

-- The facts of a masked IPv4 prefix, for its number and its length.
line_of : (p : Prefix) (k : ℕ) → Ipv4 p → extras_line 4 k (prefix_string p) ≡ ok (p ∷ [])
line_of p k h =
    subst (λ q. extras_line 4 k (prefix_string q) ≡ ok (q ∷ [])) (Ipv4-prefix p h)
      (line_lem p.addr.num p.bits k
        (subst (λ b. p.addr.num < 2 ^ width b) h.family h.masks.valid.fits) (short p h)
        (subst (λ b. p.addr.num / block b p.bits * block b p.bits ≡ p.addr.num) h.family
          h.masks.cleared))

text_of : (p : Prefix) → Ipv4 p → All Plain (prefix_string p) × (length (prefix_string p) < 4096)
text_of p h =
    subst (λ q. All Plain (prefix_string q) × (length (prefix_string q) < 4096)) (Ipv4-prefix p h)
      (
        prefix_string-Plain p.addr.num p.bits (short p h),
        prefix_string-bound p.addr.num p.bits (short p h),
      )

-- The lines of the list, scanned.
scan_lem :
    (l : List Prefix) (k : ℕ) → All Ipv4 l → scan_extras 4 k (map prefix_string l) none ≡ ok l
unfolding scan_extras
scan_lem [] k h = refl
scan_lem (p ∷ l) k h = rw (line_of p (k + 1) h.0, scan_lem l (k + 1) h.1) refl

lines_of :
    (p : Prefix) (l : List Prefix)
    → All Ipv4 (p ∷ l)
    → scan_lines (render_prefix_lines (p ∷ l) ++ bytes "\n") [] ≡ (map prefix_string (p ∷ l), none)
unfolding render_prefix_lines join scan_lines
lines_of p [] h = let t = text_of p h.0 in scan_lines-Plain (prefix_string p) [] t.0 t.1
lines_of p (q ∷ l) h =
    let t = text_of p h.0 in
    let rest = join (map prefix_string (q ∷ l)) (bytes "\n") in
    ap (λ s. scan_lines s []) (append_assoc (prefix_string p) (bytes "\n" ++ rest) (bytes "\n"))
    ∙ (scan_lines-Plain (prefix_string p) (rest ++ bytes "\n") t.0 t.1
        ∙ ap (with_line (prefix_string p)) (lines_of q l h.1))

-- The list that the file target writes, when it is read as an extras file of IPv4, is the list: for
-- every list of masked IPv4 prefixes, in any order and with any duplicates.
pub scan_file-render_prefix_lines :
    (l : List Prefix) → All Ipv4 l → scan_file 4 (render_prefix_lines l ++ bytes "\n", none) ≡ ok l
unfolding scan_file scan_lines render_prefix_lines join scan_extras extras_line drop_cr trim_space
    trim_left trim_right skip_space index_byte has_prefix
scan_file-render_prefix_lines [] h = refl
scan_file-render_prefix_lines (p ∷ l) h =
    ap (λ x. scanned 4 x none) (lines_of p l h) ∙ scan_lem (p ∷ l) 0 h
