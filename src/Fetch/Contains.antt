-- ===== src/Fetch/Contains.antt =====
-- cache.go's `containsStr`, beside `strings.Contains`.
use georoute.Base.{
  ℕ, ◌≡◌, refl, sym, ◌∙◌, ◌≤◌, ◌<◌, true, false, Bool-cases, inl, inr, Option-cases, [], ◌∷◌, leb,
  ltb, if◌then◌else◌, length, take, arith, leb→le, ltb→lt,
}
use georoute.Netip.{Bytes}
use georoute.Text.{bytes_eq, has_prefix, index, contains_str}
use georoute.Fetch.{contains_loop, contains_bytes}

take_eq :
    (s sub : Bytes) → length sub ≤ length s → bytes_eq (take (length sub) s) sub ≡ has_prefix s sub
unfolding bytes_eq has_prefix
take_eq [] [] h = refl
take_eq [] (y ∷ sub) h = absurd (omega arith)
take_eq (x ∷ s) [] h = refl
take_eq (x ∷ s) (y ∷ sub) h = ground (arith, take_eq s sub (omega arith))

too_long : (s sub : Bytes) → length s < length sub → has_prefix s sub ≡ false
unfolding has_prefix
too_long s [] h = absurd (omega arith)
too_long [] (y ∷ sub) h = refl
too_long (x ∷ s) (y ∷ sub) h = ground (arith, too_long s sub (omega arith))

contains_nil : (sub : Bytes) → contains_str [] sub ≡ has_prefix [] sub
unfolding contains_str index has_prefix
contains_nil [] = refl
contains_nil (y ∷ sub) = refl

pub contains_step :
    (c : ℕ) (s sub : Bytes)
    → contains_str (c ∷ s) sub ≡ (if has_prefix (c ∷ s) sub then true else contains_str s sub)
unfolding contains_str index
contains_step c s sub = elim (Bool-cases (has_prefix (c ∷ s) sub)) [
  | inl y ↦ simp (y, contains_str, index)
  | inr n ↦ elim (Option-cases (index s sub)) [
    | inl e ↦ simp (n, e, contains_str, index)
    | inr (k, e) ↦ simp (n, e, contains_str, index)
  ]
]

none_fits : (s sub : Bytes) → length s < length sub → contains_str s sub ≡ false
none_fits [] sub h = contains_nil sub ∙ too_long [] sub h
none_fits (x ∷ s) sub h =
    simp (contains_step x s sub, too_long (x ∷ s) sub h, none_fits s sub (omega arith))

contains_loop_lem : (s sub : Bytes) → contains_loop s sub ≡ contains_str s sub
unfolding contains_loop has_prefix contains_str bytes_eq
contains_loop_lem [] [] = refl
contains_loop_lem [] (y ∷ sub) = ground arith
contains_loop_lem (c ∷ s) sub = elim (Bool-cases (leb (length sub) (length (c ∷ s)))) [
  | inl y ↦
      simp (y, contains_step c s sub, take_eq (c ∷ s) sub (leb→le _ _ y), contains_loop_lem s sub)
  | inr n ↦ simp (n, none_fits (c ∷ s) sub (ground arith))
]

-- The loop decides whether the needle occurs, as `strings.Contains` does.
pub contains_bytes-contains_str : (s sub : Bytes) → contains_bytes s sub ≡ contains_str s sub
unfolding contains_bytes
contains_bytes-contains_str s sub = elim (Bool-cases (ltb (length s) (length sub))) [
  | inl y ↦ rw y (sym (none_fits s sub (ltb→lt _ _ y)))
  | inr n ↦ rw n (contains_loop_lem s sub)
]
