-- ===== src/Text/Search.antt =====
-- `strings.Index`, and the tests on byte strings.
use georoute.Base.{
  ℕ, zero, suc, ◌≤◌, ◌≡◌, refl, ◌↔◌, true, false, some, [], ◌∷◌, ◌++◌, length, arith,
}
use georoute.Netip.{Bytes}
use georoute.Text.{bytes_eq, has_prefix, index}

pub bytes_eq_iff : (s t : Bytes) → (bytes_eq s t ≡ true) ↔ (s ≡ t)
unfolding bytes_eq
bytes_eq_iff [] [] = ground arith
bytes_eq_iff [] (y ∷ t) = ground arith
bytes_eq_iff (x ∷ s) [] = ground arith
bytes_eq_iff (x ∷ s) (y ∷ t) = ground (arith, bytes_eq_iff s t)

pub has_prefix-append : (s t : Bytes) → has_prefix (s ++ t) s ≡ true
unfolding has_prefix
has_prefix-append [] t = refl
has_prefix-append (x ∷ s) t = ground (arith, has_prefix-append s t)

-- The needle does not begin in front of position `n`.
abbrev pub Absent : Bytes → Bytes → ℕ → Type 0
Absent s sub zero = Unit
Absent [] sub (suc n) = has_prefix [] sub ≡ false
Absent (x ∷ s) sub (suc n) = (has_prefix (x ∷ s) sub ≡ false) × Absent s sub n

-- `index` returns the first place where the needle begins.
pub index-first :
    (pre s sub : Bytes)
    → Absent (pre ++ s) sub (length pre)
    → has_prefix s sub ≡ true
    → index (pre ++ s) sub ≡ some (length pre)
unfolding index
index-first [] [] sub a h = rw h
index-first [] (x ∷ s) sub a h = rw h
index-first (c ∷ pre) s sub a h = ground (arith, index-first pre s sub a.1 h)

index-bound : (s sub : Bytes) (n : ℕ) → index s sub ≡ some n → n ≤ length s
unfolding index
index-bound [] sub n h = ground arith
index-bound (x ∷ s) sub zero h = omega arith
index-bound (x ∷ s) sub (suc n) h = ground (arith, index-bound s sub n)
