-- ===== src/Netip/RoundTrip/Digits.antt =====
-- The decimal digits of the numbers below a thousand.
use georoute.Base.{
  ℕ, suc, ◌+◌, ◌-◌, ◌/◌, ◌%◌, ◌≤◌, ◌<◌, ◌≡◌, refl, ◌∙◌, ap, false, [], ◌∷◌, ltb, arith, lt→ltb,
}
use georoute.Netip.{Bytes}
use georoute.Text.{decimal, digits_onto}

last_digit : (fuel n : ℕ) (acc : Bytes) → n < 10 → digits_onto (suc fuel) n acc ≡ (48 + n) ∷ acc
unfolding digits_onto
last_digit fuel n acc h = rw (lt→ltb n 10 h) refl

not_less : (n : ℕ) → 10 ≤ n → ltb n 10 ≡ false
not_less n h = ground arith

more_digits :
    (fuel n : ℕ) (acc : Bytes)
    → 10 ≤ n
    → digits_onto (suc fuel) n acc ≡ digits_onto fuel (n / 10) ((48 + n % 10) ∷ acc)
unfolding digits_onto
more_digits fuel n acc h = rw (not_less n h) refl

fuel_for : (n m : ℕ) → n + 1 ≡ m → decimal n ≡ digits_onto m n []
unfolding decimal
fuel_for n m e = ap (λ k. digits_onto k n []) e

pub decimal_one : (n : ℕ) → n < 10 → decimal n ≡ (48 + n) ∷ []
decimal_one n h = fuel_for n (suc (n + 1 - 1)) (omega arith) ∙ last_digit (n + 1 - 1) n [] h

pub decimal_two : (n : ℕ) → 10 ≤ n → n < 100 → decimal n ≡ (48 + n / 10) ∷ (48 + n % 10) ∷ []
decimal_two n low h =
    fuel_for n (suc (suc (n + 1 - 2))) (omega arith)
    ∙ (more_digits (suc (n + 1 - 2)) n [] low
        ∙ last_digit (n + 1 - 2) (n / 10) ((48 + n % 10) ∷ []) (omega arith))

pub decimal_three :
    (n : ℕ)
    → 100 ≤ n
    → n < 1000
    → decimal n ≡ (48 + n / 10 / 10) ∷ (48 + n / 10 % 10) ∷ (48 + n % 10) ∷ []
decimal_three n low h =
    fuel_for n (suc (suc (suc (n + 1 - 3)))) (omega arith)
    ∙ (more_digits (suc (suc (n + 1 - 3))) n [] (omega arith)
        ∙ (more_digits (suc (n + 1 - 3)) (n / 10) ((48 + n % 10) ∷ []) (omega arith)
            ∙ last_digit (n + 1 - 3) (n / 10 / 10) ((48 + n / 10 % 10) ∷ (48 + n % 10) ∷ [])
                (omega arith)))
