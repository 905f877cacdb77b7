-- ===== src/Netip/LastAddr.antt =====
-- main.go's `lastAddr`: its loop over the bits, and the closed form.
use native.Mathlib.Nat.{pow-suc, add-div_right, div-div-eq-div-mul, div-one}
use georoute.Base.{
  ℕ, zero, suc, ◌+◌, ◌-◌, ◌*◌, ◌/◌, ◌%◌, ◌^◌, ◌<◌, ◌≤◌, ◌≡◌, refl, sym, ap, ◌∙◌, [], Bool, true,
  false, arith,
}
use georoute.Base.Blocks.{pow-pos, pow-split, Aligned, floor-Aligned}
use georoute.Netip.{Addr, Prefix, width, set_bit, set_low, mapped, last_addr, IsMasked}
use georoute.Netip.Rank.{size}
use georoute.Netip.Block.{IsMasked-Aligned, IsMasked-top}

-- One round: the bit joins the digits above it.
set_bit-div : (n k : ℕ) → set_bit n k / 2 ^ k ≡ n / 2 ^ suc k * 2 + 1
unfolding set_bit
set_bit-div n k =
    let s = 2 ^ k in
    let halved : n / 2 ^ suc k ≡ n / s / 2 =
      ap (λ (t : ℕ). n / t) (pow-suc 2 k) ∙ sym (div-div-eq-div-mul n s 2) in
    let carried : (n + s) / s ≡ n / s + 1 = add-div_right n (pow-pos k) in
    ground (arith, halved, carried)

-- The loop over the last `k` bits fills them with ones.
set_low_lem : (k n : ℕ) → set_low k n + 1 ≡ n / 2 ^ k * 2 ^ k + 2 ^ k
unfolding set_low
set_low_lem zero n = omega (arith, div-one n)
set_low_lem (suc k) n =
    let rec = set_low_lem k (set_bit n k) in
    let digits = ap (λ (t : ℕ). t * 2 ^ k) (set_bit-div n k) in
    let twice = ap (λ (t : ℕ). n / 2 ^ suc k * t) (pow-suc 2 k) in
    omega (arith, rec, digits, twice, pow-suc 2 k)

low_fill : (k n : ℕ) → Aligned n (2 ^ k) → set_low k n + 1 ≡ n + 2 ^ k
low_fill k n a = set_low_lem k n ∙ ap (λ (t : ℕ). t + 2 ^ k) (floor-Aligned n (2 ^ k) (pow-pos k) a)

-- The IPv4-mapped form keeps the alignment of the low 32 bits.
mapped-Aligned : (b n : ℕ) → b ≤ 32 → Aligned n (2 ^ (32 - b)) → Aligned (mapped + n) (2 ^ (32 - b))
mapped-Aligned b n h (k, e) =
    let split = pow-split 32 0 b (omega arith) h in
    (0xffff * 2 ^ (b - 0) + k, omega (arith, e, ap (λ (t : ℕ). 0xffff * t) split))

low_part :
    (m s : ℕ) → m + s ≤ 2 ^ 32 → 0 < s → (x : ℕ) → x + 1 ≡ mapped + m + s → x % 2 ^ 32 + 1 ≡ m + s
low_part m s h pos x e = omega arith

v4_fill :
    (b n : ℕ)
    → b ≤ 32
    → Aligned n (2 ^ (32 - b))
    → n + 2 ^ (32 - b) ≤ 2 ^ 32
    → set_low (128 - (b + 96)) (mapped + n) % 2 ^ 32 + 1 ≡ n + 2 ^ (32 - b)
v4_fill b n h a top =
    let k : 128 - (b + 96) ≡ 32 - b = omega arith in
    low_part n (2 ^ (32 - b)) top (pow-pos (32 - b)) _
      (rw k (low_fill (32 - b) (mapped + n) (mapped-Aligned b n h a)))

fields_fill :
    (v4 : Bool) (b n : ℕ)
    → b ≤ width v4
    → Aligned n (2 ^ (width v4 - b))
    → n + 2 ^ (width v4 - b) ≤ 2 ^ width v4
    → (last_addr (record { addr = record { is4 = v4; num = n; zone = [] }; bits = b })).num + 1
      ≡ n + 2 ^ (width v4 - b)
unfolding last_addr
fields_fill true b n h a top = v4_fill b n h a top
fields_fill false b n h a top = low_fill (128 - b) n a

last_addr_fields :
    (p : Prefix)
    → last_addr p
      ≡ last_addr (record {
        addr = record { is4 = p.addr.is4; num = p.addr.num; zone = [] };
        bits = p.bits;
      })
unfolding last_addr
last_addr_fields p = refl

-- `lastAddr` is the last address of the block, in the same family and with no zone.
pub last_addr_lem :
    (p : Prefix)
    → IsMasked p
    → ((last_addr p).is4 ≡ p.addr.is4)
      × ((last_addr p).num + 1 ≡ p.addr.num + size p)
      × ((last_addr p).zone ≡ [])
unfolding last_addr
last_addr_lem p m = (
  refl,
  ap (λ (a : Addr). a.num + 1) (last_addr_fields p)
      ∙ fields_fill p.addr.is4 p.bits p.addr.num m.in_range (IsMasked-Aligned p m)
          (IsMasked-top p m),
  refl,
)
