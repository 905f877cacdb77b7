-- ===== src/Base/Blocks.antt =====
-- Powers of two and numbers aligned to them: the arithmetic of CIDR blocks.
use Prim.Native.Nat.{ℕ, zero, suc, ◌+◌, ◌-◌, ◌*◌, ◌/◌, ◌^◌, ◌≤◌, ◌<◌}
use mathlib.Core.Path.{◌≡◌, refl, sym, ◌∙◌, ap}
use mathlib.Core.Logic.{◌↔◌}
use native.Mathlib.Nat.{
  pow-suc, pow-zero, mul-div_cancel, div-div-eq-div-mul, div-eq_of_lt-le, lt-div-mul-add,
  div-mul-le_self, mul_assoc, add-mul, zero-add, suc-add, one-mul, mul_right_comm, suc-mul,
  mul-le-mul_right, lt_of_mul-lt-mul_right, le_of_mul-le-mul_right, le_antisymm, le_of_eq,
}
use native.Mathlib.Omega.{arith}

pub pow-pos : (k : ℕ) → 0 < 2 ^ k
pow-pos zero = omega (arith, pow-zero 2)
pow-pos (suc k) = omega (arith, pow-suc 2 k, pow-pos k)

pub pow-add : (a b : ℕ) → 2 ^ (a + b) ≡ 2 ^ a * 2 ^ b
pow-add zero b = rw zero-add (sym (one-mul (2 ^ b)))
pow-add (suc a) b =
    rw (suc-add, pow-suc 2 (a + b), pow-suc 2 a, pow-add a b) (mul_right_comm (2 ^ a) (2 ^ b) 2)

-- A power of two splits at every smaller exponent.
pub pow-split : (w a b : ℕ) → a ≤ b → b ≤ w → 2 ^ (w - a) ≡ 2 ^ (b - a) * 2 ^ (w - b)
pow-split w a b h k = let e : w - a ≡ (b - a) + (w - b) = omega arith in rw (e, pow-add)

-- `n` is a multiple of `s`.
abbrev pub Aligned : ℕ → ℕ → Type 0
Aligned n s = (k : ℕ) × (n ≡ k * s)

multiples_step : (a b s : ℕ) → a * s < b * s → a * s + s ≤ b * s
multiples_step a b s h =
    omega (arith, suc-mul a s, mul-le-mul_right s (lt_of_mul-lt-mul_right s {m = a} {n = b} h))

-- Two multiples of `s` that differ are at least `s` apart.
pub Aligned-step : (m n s : ℕ) → Aligned m s → Aligned n s → m < n → m + s ≤ n
Aligned-step m n s (a, e) (b, f) h = omega (arith, multiples_step a b s (omega arith))

-- A multiple of `t * s` is one of `s`.
pub Aligned-mul : (n t s : ℕ) → Aligned n (t * s) → Aligned n s
Aligned-mul n t s (k, e) = (k * t, e ∙ sym (mul_assoc k t s))

pub Aligned-floor : (n s : ℕ) → Aligned (n / s * s) s
Aligned-floor n s = (n / s, refl)

-- Flooring does not move a multiple.
pub floor-Aligned : (n s : ℕ) → 0 < s → Aligned n s → n / s * s ≡ n
floor-Aligned n s h (k, e) = rw (e, mul-div_cancel k h)

-- The block of `s` numbers at an aligned `n` holds `m` exactly when both have one quotient.
pub Aligned-div_iff : (n s m : ℕ) → 0 < s → Aligned n s → (m / s ≡ n / s) ↔ ((n ≤ m) × (m < n + s))
Aligned-div_iff n s m h a =
    let e = floor-Aligned n s h a in
    (
      λ q.
          let f : m / s * s ≡ n = ap (λ (t : ℕ). t * s) q ∙ e in
          (omega (arith, div-mul-le_self m s), omega (arith, lt-div-mul-add {a = m} h)),
      λ (p, q). div-eq_of_lt-le s (omega arith) (omega (arith, add-mul (n / s) 1 s)),
    )

mul_cancel : (a b s : ℕ) → 0 < s → a * s ≡ b * s → a ≡ b
mul_cancel a b s h e =
    le_antisymm (le_of_mul-le-mul_right (le_of_eq e) h)
      (le_of_mul-le-mul_right (le_of_eq (sym e)) h)

div_twice : (k s : ℕ) → 0 < s → k * s / (s * 2) ≡ k / 2
div_twice k s h = rw (← div-div-eq-div-mul, mul-div_cancel k h)

regroup_twice : (k s : ℕ) → k * (s * 2) ≡ k * 2 * s
regroup_twice k s = omega arith

siblings_at :
    (a c s : ℕ)
    → 0 < s
    → a * s < c * s
    → a / 2 * (s * 2) ≡ c / 2 * (s * 2)
    → (a / 2 * (s * 2) ≡ a * s) × (c * s ≡ a * s + s)
siblings_at a c s h lt q =
    let below : a < c = lt_of_mul-lt-mul_right s lt in
    let halves : a / 2 ≡ c / 2 = mul_cancel (a / 2) (c / 2) (s * 2) (omega arith) q in
    let next : c ≡ suc a = omega arith in
    let even : a / 2 * 2 ≡ a = omega arith in
    (regroup_twice (a / 2) s ∙ ap (λ (t : ℕ). t * s) even, ap (λ (t : ℕ). t * s) next ∙ suc-mul a s)

-- Two different blocks of `s` numbers under one parent of `s * 2`: the lower one starts the parent
-- and the upper one follows it.
pub siblings :
    (n m s : ℕ)
    → 0 < s
    → Aligned n s
    → Aligned m s
    → n < m
    → n / (s * 2) * (s * 2) ≡ m / (s * 2) * (s * 2)
    → (n / (s * 2) * (s * 2) ≡ n) × (m ≡ n + s)
siblings n m s h (a, e) (c, f) lt q =
    let quarter : n / (s * 2) ≡ a / 2 = rw e (div_twice a s h) in
    let quarter' : m / (s * 2) ≡ c / 2 = rw f (div_twice c s h) in
    let (start, next) = siblings_at a c s h (omega arith) (rw (quarter, quarter') at q) in
    (rw quarter (start ∙ sym e), f ∙ next ∙ ap (λ (t : ℕ). t + s) (sym e))
