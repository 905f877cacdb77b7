-- ===== src/Feeds/Plain.antt =====
-- Printed IPv4 prefixes, as the reader of extras in extras.go meets them.
use mathlib.Core.Path.{subst}
use georoute.Base.{
  ℕ, ◌+◌, ◌≤◌, ◌<◌, ◌≡◌, refl, sym, ◌∙◌, ap, Bool, true, false, ◌&&◌, none, some, [], ◌∷◌, ◌++◌,
  ◌==◌, leb, ltb, arith, All, All-append, length, length-append, append-nil, append_assoc, take,
  drop, if◌then◌else◌, ◌⊎◌, inl, inr, ◌/◌, ◌%◌, ◌^◌,
}
use georoute.Netip.{Bytes}
use georoute.Netip.Format.{prefix_string, addr_string, string4}
use georoute.Netip.RoundTrip.{by_digits, ipv4_prefix, byte_bound}
use georoute.Netip.RoundTrip.Digits.{decimal_one, decimal_two, decimal_three}
use georoute.Text.{
  decimal, is_space, space_length, skip_space, trim_left, trim_right, trim_space, index_byte,
  has_prefix,
}
use georoute.Feeds.{without_bom, without_comment}
use georoute.Feeds.Load.{drop_cr, scan_lines, with_line}

-- A byte that is no space, no comment sign, no end of a line, and not the start of a mark.
pub record Plain (c : ℕ) : Type 0 where
  pub narrow : ltb c 128 ≡ true
  pub no_space : is_space c ≡ false
  pub no_hash : (c == b'#') ≡ false
  pub no_newline : (c == b'\n') ≡ false
  pub no_return : (c == b'\r') ≡ false
  pub no_mark : (c == 239) ≡ false

digit-Plain : (d : ℕ) → d < 10 → Plain (48 + d)
digit-Plain d h = record {
  narrow = ground arith;
  no_space = ground arith;
  no_hash = ground arith;
  no_newline = ground arith;
  no_return = ground arith;
  no_mark = ground arith;
}

dot-Plain : Plain b'.'
dot-Plain = record {
  narrow = refl;
  no_space = refl;
  no_hash = refl;
  no_newline = refl;
  no_return = refl;
  no_mark = refl;
}

slash-Plain : Plain b'/'
slash-Plain = record {
  narrow = refl;
  no_space = refl;
  no_hash = refl;
  no_newline = refl;
  no_return = refl;
  no_mark = refl;
}

decimal-Plain : (n : ℕ) → n < 256 → (t : Bytes) → All Plain t → All Plain (decimal n ++ t)
decimal-Plain n h t p = by_digits (All Plain) n t h (λ d u k q. (digit-Plain d k, q)) p

length-decimal : (n : ℕ) → n < 256 → length (decimal n) ≤ 3
length-decimal n h = by_size (compare_sizes n)
  where
    compare_sizes : (n : ℕ) → (n < 10) ⊎ (((10 ≤ n) × (n < 100)) ⊎ (100 ≤ n))
    compare_sizes n = ground arith

    at_digits : {s : Bytes} → decimal n ≡ s → length s ≤ 3 → length (decimal n) ≤ 3
    at_digits e q = subst (λ u. length u ≤ 3) (sym e) q

    by_size : (n < 10) ⊎ (((10 ≤ n) × (n < 100)) ⊎ (100 ≤ n)) → length (decimal n) ≤ 3
    by_size (inl a) = at_digits (decimal_one n a) (omega arith)
    by_size (inr (inl (a, b))) = at_digits (decimal_two n a b) (omega arith)
    by_size (inr (inr a)) = at_digits (decimal_three n a (omega arith)) (omega arith)

decimal_alone : (n : ℕ) → n < 256 → All Plain (decimal n)
decimal_alone n h = subst (All Plain) (append-nil (decimal n)) (decimal-Plain n h [] tt)

string4-Plain : (n : ℕ) → All Plain (string4 n)
unfolding string4
string4-Plain n = decimal-Plain (n / 2 ^ 24 % 256) (byte_bound (n / 2 ^ 24)) _ (
  dot-Plain,
  decimal-Plain (n / 2 ^ 16 % 256) (byte_bound (n / 2 ^ 16)) _ (
    dot-Plain,
    decimal-Plain (n / 2 ^ 8 % 256) (byte_bound (n / 2 ^ 8)) _
        (dot-Plain, decimal_alone (n % 256) (byte_bound n)),
  ),
)

pub prefix_string-Plain : (n bits : ℕ) → bits ≤ 32 → All Plain (prefix_string (ipv4_prefix n bits))
unfolding prefix_string addr_string
prefix_string-Plain n bits h =
    All-append Plain (string4 n) (b'/' ∷ decimal bits) (string4-Plain n)
      (slash-Plain, decimal_alone bits (omega arith))

dotted_bound :
    (a b c d : Bytes)
    → length a ≤ 3
    → length b ≤ 3
    → length c ≤ 3
    → length d ≤ 3
    → length (a ++ (b'.' ∷ (b ++ (b'.' ∷ (c ++ (b'.' ∷ d)))))) ≤ 15
dotted_bound a b c d ha hb hc hd = omega (
  arith,
  length-append a (b'.' ∷ (b ++ (b'.' ∷ (c ++ (b'.' ∷ d))))),
  length-append b (b'.' ∷ (c ++ (b'.' ∷ d))),
  length-append c (b'.' ∷ d),
)

string4-bound : (n : ℕ) → length (string4 n) ≤ 15
unfolding string4
string4-bound n =
    dotted_bound (decimal (n / 2 ^ 24 % 256)) (decimal (n / 2 ^ 16 % 256))
      (decimal (n / 2 ^ 8 % 256)) (decimal (n % 256))
      (length-decimal (n / 2 ^ 24 % 256) (byte_bound (n / 2 ^ 24)))
      (length-decimal (n / 2 ^ 16 % 256) (byte_bound (n / 2 ^ 16)))
      (length-decimal (n / 2 ^ 8 % 256) (byte_bound (n / 2 ^ 8)))
      (length-decimal (n % 256) (byte_bound n))

pub prefix_string-bound :
    (n bits : ℕ) → bits ≤ 32 → length (prefix_string (ipv4_prefix n bits)) < 4096
unfolding prefix_string addr_string
prefix_string-bound n bits h =
    let a = string4-bound n in
    let b = length-decimal bits (omega arith) in
    omega (arith, length-append (string4 n) (b'/' ∷ decimal bits))

-- Nothing is trimmed.
space_length-Plain : (c : ℕ) (s : Bytes) → Plain c → space_length c s ≡ 0
unfolding space_length
space_length-Plain c s p = rw (p.narrow, p.no_space) refl

no_skip : (c : ℕ) (s : Bytes) → Plain c → skip_space (c ∷ s) 0 ≡ c ∷ s
unfolding skip_space
no_skip c s p = rw (skip_space, space_length-Plain c s p) refl

trim_right-Plain : (s : Bytes) → All Plain s → trim_right s ≡ s
unfolding trim_right
trim_right-Plain [] p = refl
trim_right-Plain (c ∷ s) p =
    rw (trim_right, no_skip c s p.0) (ap (λ t. c ∷ t) (trim_right-Plain s p.1))

pub trim_space-Plain : (s : Bytes) → All Plain s → trim_space s ≡ s
unfolding trim_space trim_left skip_space
trim_space-Plain [] p = trim_right-Plain [] p
trim_space-Plain (c ∷ s) p = ap trim_right (no_skip c s p.0) ∙ trim_right-Plain (c ∷ s) p

no_hash_in : (s : Bytes) → All Plain s → index_byte s b'#' ≡ none
unfolding index_byte
no_hash_in [] p = refl
no_hash_in (c ∷ s) p = rw (p.0.no_hash, no_hash_in s p.1) refl

pub without_comment-Plain : (s : Bytes) → All Plain s → without_comment s ≡ s
without_comment-Plain s p = ap (λ o. elim o [ none ↦ s | some at ↦ take at s ]) (no_hash_in s p)

no_mark_in : (s : Bytes) → All Plain s → has_prefix s (239 ∷ 187 ∷ 191 ∷ []) ≡ false
unfolding has_prefix
no_mark_in [] p = refl
no_mark_in (c ∷ s) p = rw (p.0.no_mark) refl

pub without_bom-Plain : (k : ℕ) (s : Bytes) → All Plain s → without_bom k s ≡ s
without_bom-Plain k s p = kept (k == 1) (has_prefix s (239 ∷ 187 ∷ 191 ∷ [])) (no_mark_in s p)
  where
    kept : (a b : Bool) → b ≡ false → (if a && b then drop 3 s else s) ≡ s
    kept true b h = rw h refl
    kept false b h = refl

drop_cr-Plain : (s : Bytes) → All Plain s → drop_cr s ≡ s
unfolding drop_cr
drop_cr-Plain [] p = refl
drop_cr-Plain (c ∷ []) p = rw (p.0.no_return) refl
drop_cr-Plain (c ∷ d ∷ s) p = ap (◌∷◌ c) (drop_cr-Plain (d ∷ s) p.1)

scan_step :
    (c : ℕ) (s cur : Bytes)
    → (c == b'\n') ≡ false
    → leb 4096 (length cur + 1) ≡ false
    → scan_lines (c ∷ s) cur ≡ scan_lines s (cur ++ (c ∷ []))
unfolding scan_lines
scan_step c s cur n f = simp (n, f, scan_lines)

-- A plain line that is not too long.
scan_lines_onto :
    (t s cur : Bytes)
    → All Plain t
    → length cur + length t < 4096
    → scan_lines (t ++ (b'\n' ∷ s)) cur ≡ with_line (drop_cr (cur ++ t)) (scan_lines s [])
unfolding scan_lines
scan_lines_onto [] s cur p h =
    ap (λ u. with_line (drop_cr u) (scan_lines s [])) (sym (append-nil cur))
scan_lines_onto (c ∷ t) s cur p h =
    let fits : leb 4096 (length cur + 1) ≡ false = ground arith in
    scan_step c (t ++ (b'\n' ∷ s)) cur p.0.no_newline fits
    ∙ (scan_lines_onto t s (cur ++ (c ∷ [])) p.1 (omega (arith, length-append cur (c ∷ [])))
        ∙ ap (λ u. with_line (drop_cr u) (scan_lines s [])) (append_assoc cur (c ∷ []) t))

-- A plain line is scanned as it is.
pub scan_lines-Plain :
    (t s : Bytes)
    → All Plain t
    → length t < 4096
    → scan_lines (t ++ (b'\n' ∷ s)) [] ≡ with_line t (scan_lines s [])
scan_lines-Plain t s p h =
    scan_lines_onto t s [] p (omega arith)
    ∙ ap (λ u. with_line u (scan_lines s [])) (drop_cr-Plain t p)
