-- ===== src/Netip/RoundTrip.antt =====
-- `Prefix.String` of an IPv4 prefix (net/netip), read by `netip.ParsePrefix`.
pub mod Digits
pub mod Fields
use mathlib.Core.Path.{subst}
use georoute.Base.{
  ℕ, suc, ◌+◌, ◌-◌, ◌*◌, ◌/◌, ◌%◌, ◌^◌, ◌≤◌, ◌<◌, ◌≡◌, refl, sym, ◌∙◌, ap, Bool, true, false, not,
  ◌&&◌, ◌||◌, Option, none, some, List, [], ◌∷◌, ◌++◌, ◌==◌, leb, ltb, arith, if◌then◌else◌, length,
  take, drop, append_assoc, append-nil, take-append, drop-append, ◌⊎◌, inl, inr,
}
use georoute.Netip.{Bytes, Addr, Prefix, is_nil, width}
use georoute.Text.{decimal}
use georoute.Netip.Format.{string4, addr_string, prefix_string}
use georoute.Netip.Parse.{
  is_digit, ipv4_loop, parse_ipv4, four, parse_as, parse_addr, last_slash, parse_digits, parse_bits,
  checked_prefix, parse_split, parse_prefix,
}
use georoute.Netip.RoundTrip.Digits.{decimal_one, decimal_two, decimal_three}
use georoute.Netip.RoundTrip.Fields.{Seen, seen, parse_fields}

pub byte_bound : (m : ℕ) → m % 256 < 256
byte_bound m = omega arith

parse_ipv4-string4 : (n : ℕ) → n < 2 ^ 32 → parse_ipv4 (string4 n) ≡ some n
unfolding string4
parse_ipv4-string4 n h =
    parse_fields (n / 2 ^ 24 % 256) (n / 2 ^ 16 % 256) (n / 2 ^ 8 % 256) (n % 256)
      (byte_bound (n / 2 ^ 24)) (byte_bound (n / 2 ^ 16)) (byte_bound (n / 2 ^ 8)) (byte_bound n)
    ∙ ap some (omega arith)

-- What holds in front of digits holds in front of a number below 256.
pub by_digits :
    (P : Bytes → Type 0) (n : ℕ) (t : Bytes)
    → n < 256
    → ((d : ℕ) (u : Bytes) → d < 10 → P u → P ((48 + d) ∷ u))
    → P t
    → P (decimal n ++ t)
by_digits P n t h step p = by_size (compare_sizes n)
  where
    compare_sizes : (n : ℕ) → (n < 10) ⊎ (((10 ≤ n) × (n < 100)) ⊎ (100 ≤ n))
    compare_sizes n = ground arith

    at_digits : {s : Bytes} → decimal n ≡ s → P (s ++ t) → P (decimal n ++ t)
    at_digits e q = subst (λ u. P (u ++ t)) (sym e) q

    by_size : (n < 10) ⊎ (((10 ≤ n) × (n < 100)) ⊎ (100 ≤ n)) → P (decimal n ++ t)
    by_size (inl a) = at_digits (decimal_one n a) (step n t a p)
    by_size (inr (inl (a, b))) =
        at_digits (decimal_two n a b)
          (step (n / 10) _ (omega arith) (step (n % 10) t (omega arith) p))
    by_size (inr (inr a)) = at_digits (decimal_three n a (omega arith)) (
        step (n / 10 / 10) _ (omega arith)
          (step (n / 10 % 10) _ (omega arith) (step (n % 10) t (omega arith) p)))

-- The first byte that tells a family is the dot behind the first field.
parse_as_dot :
    (s t : Bytes) (n : ℕ) → n < 256 → parse_as s (decimal n ++ (b'.' ∷ t)) ≡ four (parse_ipv4 s)
unfolding parse_as
parse_as_dot s t n h =
    by_digits (λ u. parse_as s u ≡ four (parse_ipv4 s)) n (b'.' ∷ t) h
      (λ d u k p. let look = seen d k in rw (look.no_dot, look.no_colon, look.no_percent) p) refl

parse_addr-string4 :
    (n : ℕ) → n < 2 ^ 32 → parse_addr (string4 n) ≡ some (record { is4 = true; num = n; zone = [] })
unfolding parse_addr string4
parse_addr-string4 n h =
    parse_as_dot (string4 n) _ (n / 2 ^ 24 % 256) (byte_bound (n / 2 ^ 24))
    ∙ (ap four (parse_ipv4-string4 n h)
        ∙ ap (λ m. some (record { is4 = true; num = m; zone = [] })) (omega arith))

no_slash : (n : ℕ) → n < 256 → last_slash (decimal n) ≡ none
unfolding last_slash
no_slash n h =
    ap last_slash (sym (append-nil (decimal n)))
    ∙ by_digits (λ u. last_slash u ≡ none) n [] h
        (λ d u k p. let look = seen d k in rw (p, look.no_slash) refl) refl

last_slash-append :
    (pre post : Bytes)
    → last_slash post ≡ none
    → last_slash (pre ++ (b'/' ∷ post)) ≡ some (length pre)
unfolding last_slash
last_slash-append [] post h = rw h refl
last_slash-append (c ∷ pre) post h = rw (last_slash-append pre post h) (ap some (omega arith))

bits_one : (b : ℕ) → b < 10 → parse_bits ((48 + b) ∷ []) ≡ some b
unfolding parse_digits
bits_one b h = let look = seen b h in rw (look.digit, look.value) (ap some (omega arith))

bits_two :
    (a b : ℕ) → 0 < a → a < 10 → b < 10 → parse_bits ((48 + a) ∷ (48 + b) ∷ []) ≡ some (a * 10 + b)
unfolding parse_digits
bits_two a b p ha hb =
    let first = seen a ha in
    let second = seen b hb in
    let lead : (leb b'1' (48 + a) && leb (48 + a) b'9') ≡ true = ground arith in
    rw (lead, first.digit, first.value, second.digit, second.value) (ap some (omega arith))

parse_bits-decimal : (b : ℕ) → b < 100 → parse_bits (decimal b) ≡ some b
parse_bits-decimal b h = by_size (compare_sizes b)
  where
    compare_sizes : (n : ℕ) → (n < 10) ⊎ (10 ≤ n)
    compare_sizes n = ground arith

    by_size : (b < 10) ⊎ (10 ≤ b) → parse_bits (decimal b) ≡ some b
    by_size (inl a) = ap parse_bits (decimal_one b a) ∙ bits_one b a
    by_size (inr a) =
        ap parse_bits (decimal_two b a h)
        ∙ (bits_two (b / 10) (b % 10) (omega arith) (omega arith) (omega arith)
            ∙ ap some (omega arith))

drop-past : (a b : Bytes) (x : ℕ) → drop (length a + 1) (a ++ (x ∷ b)) ≡ b
drop-past [] b x = refl
drop-past (c ∷ a) b x =
    let e : length (c ∷ a) + 1 ≡ suc (length a + 1) = omega arith in
    ap (λ k. drop k (c ∷ (a ++ (x ∷ b)))) e ∙ drop-past a b x

-- An IPv4 prefix as netip has it.
abbrev pub ipv4_prefix : ℕ → ℕ → Prefix
ipv4_prefix n bits = record { addr = record { is4 = true; num = n; zone = [] }; bits = bits }

-- Every IPv4 prefix of at most 32 bits, masked or not, that is printed is read back as itself.
pub parse_prefix-prefix_string :
    (n bits : ℕ)
    → n < 2 ^ 32
    → bits ≤ 32
    → parse_prefix (prefix_string (ipv4_prefix n bits)) ≡ some (ipv4_prefix n bits)
unfolding parse_prefix prefix_string addr_string
parse_prefix-prefix_string n bits h k =
    let text = string4 n in
    let fits : leb bits 32 ≡ true = ground arith in
    ap (parse_split (text ++ (b'/' ∷ decimal bits)))
      (last_slash-append text (decimal bits) (no_slash bits (omega arith)))
    ∙ (ap
          (λ s.
            checked_prefix (parse_addr s)
              (parse_bits (drop (length text + 1) (text ++ (b'/' ∷ decimal bits)))))
          (take-append text (b'/' ∷ decimal bits))
        ∙ (ap (λ s. checked_prefix (parse_addr text) (parse_bits s))
              (drop-past text (decimal bits) b'/')
            ∙ (ap (λ o. checked_prefix o (parse_bits (decimal bits))) (parse_addr-string4 n h)
                ∙ (ap (checked_prefix (some (ipv4_prefix n bits).addr))
                      (parse_bits-decimal bits (omega arith))
                    ∙ rw fits refl))))
