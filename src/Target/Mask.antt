-- ===== src/Target/Mask.antt =====
-- target.go's `ipv4MaskOctets`.
use georoute.Base.{
  ℕ, zero, suc, ◌+◌, ◌-◌, ◌*◌, ◌^◌, ◌≤◌, ◌<◌, ◌≡◌, refl, Bool, true, false, ◌&&◌, List, [], ◌∷◌,
  ◌==◌, arith, ==_iff, Bool-cases, inl, inr, sym,
}
use georoute.Target.{ipv4_mask_octets}

-- The number that the octets spell, first octet first.
abbrev pub number_of : List ℕ → ℕ → ℕ
number_of [] acc = acc
number_of (o ∷ l) acc = number_of l (acc * 256 + o)

abbrev fits : ℕ → Bool
fits bits = number_of (ipv4_mask_octets bits) 0 + 2 ^ (32 - bits) == 2 ^ 32

abbrev all_fit : ℕ → Bool
all_fit zero = true
all_fit (suc n) = fits n && all_fit n

both : (a b : Bool) → a && b ≡ true → (a ≡ true) × (b ≡ true)
both true b h = (refl, h)
both false b h = cc h

all_fit_below : (n bits : ℕ) → all_fit n ≡ true → bits < n → fits bits ≡ true
all_fit_below zero bits h k = absurd (omega arith)
all_fit_below (suc n) bits h k = elim (Bool-cases (bits == n)) [
  | inl e ↦ rw (sym ((==_iff bits n).0 e)) at (both (fits n) (all_fit n) h).0
  | inr e ↦ all_fit_below n bits (both (fits n) (all_fit n) h).1 (below e)
]
  where
    below : (bits == n) ≡ false → bits < n
    below e = ground arith

all_32 : all_fit 33 ≡ true
unfolding ipv4_mask_octets
all_32 = refl

-- For a length of at most 32 the octets spell the mask: its complement is the host part.
pub ipv4_mask_octets-number :
    (bits : ℕ) → bits ≤ 32 → number_of (ipv4_mask_octets bits) 0 + 2 ^ (32 - bits) ≡ 2 ^ 32
ipv4_mask_octets-number bits h = (==_iff _ _).0 (all_fit_below 33 bits all_32 (omega arith))
