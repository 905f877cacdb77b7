-- ===== src/Netip/RoundTrip/Fields.antt =====
-- The fields of an IPv4 address, printed and read.
use georoute.Base.{
  ℕ, ◌+◌, ◌-◌, ◌*◌, ◌/◌, ◌%◌, ◌≤◌, ◌<◌, ◌≡◌, refl, sym, ◌∙◌, ap, true, false, ◌&&◌, ◌||◌, Option,
  some, [], ◌∷◌, ◌++◌, ◌==◌, ltb, arith, append-nil, ◌⊎◌, inl, inr,
}
use georoute.Netip.{Bytes}
use georoute.Text.{decimal}
use georoute.Netip.Parse.{is_digit, ipv4_loop, parse_ipv4}
use georoute.Netip.RoundTrip.Digits.{decimal_one, decimal_two, decimal_three}

-- What the parsers see of the digit `d`.
pub record Seen (c d : ℕ) : Type 0 where
  pub digit : is_digit c ≡ true
  pub value : c - b'0' ≡ d
  pub no_dot : (c == b'.') ≡ false
  pub no_colon : (c == b':') ≡ false
  pub no_percent : (c == b'%') ≡ false
  pub no_slash : (c == b'/') ≡ false

pub seen : (d : ℕ) → d < 10 → Seen (48 + d) d
seen d h = record {
  digit = ground arith;
  value = omega arith;
  no_dot = ground arith;
  no_colon = ground arith;
  no_percent = ground arith;
  no_slash = ground arith;
}

-- One more digit of a field.
loop_digit :
    (d : ℕ) (s : Bytes) (value digits fields acc : ℕ)
    → d < 10
    → ((digits == 1 && value == 0) || ltb 255 (value * 10 + d)) ≡ false
    → ipv4_loop ((48 + d) ∷ s) value digits fields acc
      ≡ ipv4_loop s (value * 10 + d) (digits + 1) fields acc
unfolding ipv4_loop
loop_digit d s value digits fields acc h ok =
    let look = seen d h in rw (look.value, look.digit, ok) refl

-- A field with one to three digits is over at a dot.
Ended : Bytes → ℕ → ℕ → ℕ → Option ℕ → Type 0
Ended s n fields acc r = (digits : ℕ) → 0 < digits → ipv4_loop s n digits fields acc ≡ r

loop_field :
    (n : ℕ) (s : Bytes) (fields acc : ℕ) (r : Option ℕ)
    → n < 256
    → Ended s n fields acc r
    → ipv4_loop (decimal n ++ s) 0 0 fields acc ≡ r
unfolding Ended
loop_field n s fields acc r h e = by_size (compare_sizes n)
  where
    ended : (v k : ℕ) → v ≡ n → 0 < k → ipv4_loop s v k fields acc ≡ r
    ended v k q p = ap (λ m. ipv4_loop s m k fields acc) q ∙ e k p

    compare_sizes : (n : ℕ) → (n < 10) ⊎ (((10 ≤ n) × (n < 100)) ⊎ (100 ≤ n))
    compare_sizes n = ground arith

    by_size :
        (n < 10) ⊎ (((10 ≤ n) × (n < 100)) ⊎ (100 ≤ n))
        → ipv4_loop (decimal n ++ s) 0 0 fields acc ≡ r
    by_size (inl a) =
        ap (λ t. ipv4_loop (t ++ s) 0 0 fields acc) (decimal_one n a)
        ∙ (loop_digit n s 0 0 fields acc a (ground arith)
            ∙ ended (0 * 10 + n) (0 + 1) (omega arith) (omega arith))
    by_size (inr (inl (a, b))) =
        ap (λ t. ipv4_loop (t ++ s) 0 0 fields acc) (decimal_two n a b)
        ∙ (loop_digit (n / 10) ((48 + n % 10) ∷ s) 0 0 fields acc (omega arith) (ground arith)
            ∙ (loop_digit (n % 10) s (0 * 10 + n / 10) (0 + 1) fields acc (omega arith)
                  (ground arith)
                ∙ ended ((0 * 10 + n / 10) * 10 + n % 10) (0 + 1 + 1) (omega arith) (omega arith)))
    by_size (inr (inr a)) =
        ap (λ t. ipv4_loop (t ++ s) 0 0 fields acc) (decimal_three n a (omega arith))
        ∙ (loop_digit (n / 10 / 10) ((48 + n / 10 % 10) ∷ (48 + n % 10) ∷ s) 0 0 fields acc
              (omega arith) (ground arith)
            ∙ (loop_digit (n / 10 % 10) ((48 + n % 10) ∷ s) (0 * 10 + n / 10 / 10) (0 + 1) fields
                  acc (omega arith) (ground arith)
                ∙ (loop_digit (n % 10) s ((0 * 10 + n / 10 / 10) * 10 + n / 10 % 10) (0 + 1 + 1)
                      fields acc (omega arith) (ground arith)
                    ∙ ended (((0 * 10 + n / 10 / 10) * 10 + n / 10 % 10) * 10 + n % 10)
                        (0 + 1 + 1 + 1) (omega arith) (omega arith))))

-- A dot ends a field, and the end of the text the fourth.
loop_dot :
    (t : Bytes) (n digits fields acc : ℕ)
    → 0 < digits
    → (fields == 3) ≡ false
    → ipv4_loop (b'.' ∷ t) n digits fields acc ≡ ipv4_loop t 0 0 (fields + 1) (acc * 256 + n)
unfolding ipv4_loop
loop_dot t n digits fields acc p f = let e : (digits == 0) ≡ false = ground arith in rw (e, f) refl

loop_end : (n digits acc : ℕ) → 0 < digits → ipv4_loop [] n digits 3 acc ≡ some (acc * 256 + n)
unfolding ipv4_loop
loop_end n digits acc p = let e : (digits == 0) ≡ false = ground arith in rw e refl

-- The four fields of a number.
pub parse_fields :
    (a b c d : ℕ)
    → a < 256
    → b < 256
    → c < 256
    → d < 256
    → parse_ipv4 (decimal a ++ (b'.' ∷ (decimal b ++ (b'.' ∷ (decimal c ++ (b'.' ∷ decimal d))))))
      ≡ some (((a * 256 + b) * 256 + c) * 256 + d)
unfolding parse_ipv4 Ended
parse_fields a b c d ha hb hc hd =
    loop_field a (b'.' ∷ (decimal b ++ (b'.' ∷ (decimal c ++ (b'.' ∷ decimal d))))) 0 0 _ ha (λ k p.
      loop_dot (decimal b ++ (b'.' ∷ (decimal c ++ (b'.' ∷ decimal d)))) a k 0 0 p refl
      ∙ loop_field b (b'.' ∷ (decimal c ++ (b'.' ∷ decimal d))) 1 (0 * 256 + a) _ hb (λ k p.
        loop_dot (decimal c ++ (b'.' ∷ decimal d)) b k 1 (0 * 256 + a) p refl
        ∙ loop_field c (b'.' ∷ decimal d) 2 ((0 * 256 + a) * 256 + b) _ hc (λ k p.
          loop_dot (decimal d) c k 2 ((0 * 256 + a) * 256 + b) p refl
          ∙ (ap (λ t. ipv4_loop t 0 0 3 (((0 * 256 + a) * 256 + b) * 256 + c))
                (sym (append-nil (decimal d)))
              ∙ loop_field d [] 3 (((0 * 256 + a) * 256 + b) * 256 + c) _ hd (λ k p.
                loop_end d k (((0 * 256 + a) * 256 + b) * 256 + c) p ∙ ap some (omega arith))))))
