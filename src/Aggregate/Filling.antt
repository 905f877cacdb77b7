-- ===== src/Aggregate/Filling.antt =====
-- main.go's `aggregate`: lists that fill an aligned block.
use native.Mathlib.Decide.{dec_lt}
use native.Mathlib.Nat.{mul_comm, suc-mul, pow-suc, pow-zero}
use mathlib.Core.Path.{ap₂, subst}
use georoute.Base.{
  ℕ, zero, suc, ◌+◌, ◌-◌, ◌*◌, ◌/◌, ◌^◌, ◌<◌, ◌≤◌, ◌≡◌, refl, sym, ap, ◌∙◌, Bool, true, false, List,
  [], ◌∷◌, All, if◌then◌else◌, arith,
}
use georoute.Base.Blocks.{
  pow-pos, pow-add, Aligned, Aligned-mul, Aligned-step, Aligned-div_iff, floor-Aligned,
}
use georoute.Netip.{Prefix, width, block, contains, masked, IsMasked}
use georoute.Netip.Rank.{first, size, lim, spans}
use georoute.Netip.Block.{size-pos, IsMasked-Aligned, contains-within}
use georoute.Aggregate.{parent, can_merge}
use georoute.Aggregate.Dedup.{Ordered}
use georoute.Aggregate.Merging.{IsReduced, Unmergeable, Ordered-from, parent-IsMasked, parent-size}

-- Nothing below the start of an ascending list is spanned.
pub Ordered-below : (lo : ℕ) (l : List Prefix) (r : ℕ) → Ordered lo l → r < lo → spans l r ≡ false
Ordered-below lo [] r o h = refl
Ordered-below lo (p ∷ l) r o h =
    ground (arith, Ordered-below (lim p) l r o.1 (ground (arith, size-pos p)))

-- Behind the first block the rest of the list spans what the list does.
pub Ordered-behind :
    (p : Prefix) (l : List Prefix) (r : ℕ) → lim p ≤ r → spans (p ∷ l) r ≡ spans l r
Ordered-behind p l r h = ground arith

-- The rank where a family begins.
abbrev pub base : Bool → ℕ
base v4 = if v4 then 0 else 2 ^ 32

module _ (p q : Prefix) (mp : IsMasked p) (mq : IsMasked q) (ef : p.addr.is4 ≡ q.addr.is4)
    (eb : p.bits ≡ q.bits) (pos : 0 < p.bits) (next : q.addr.num ≡ p.addr.num + size p)
    (al : Aligned p.addr.num (size p * 2)) where
  twice_p : size (parent p) ≡ size p * 2
  twice_p = parent-size p mp.in_range pos

  twice_q : size (parent q) ≡ size p * 2
  twice_q =
      parent-size q mq.in_range (omega arith) ∙ ap (λ (t : ℕ). t * 2) (ap₂ block (sym ef) (sym eb))

  parent_num : (parent p).addr.num ≡ p.addr.num
  unfolding parent masked
  parent_num =
      ap (λ (t : ℕ). p.addr.num / t * t) twice_p
      ∙ floor-Aligned p.addr.num (size p * 2) (omega (arith, size-pos p)) al

  upper_half : q.addr.num / (size p * 2) ≡ p.addr.num / (size p * 2)
  upper_half =
      (Aligned-div_iff p.addr.num (size p * 2) q.addr.num (omega (arith, size-pos p)) al).1
        (omega (arith, size-pos p), omega (arith, size-pos p))

  parent_num_upper : (parent q).addr.num ≡ p.addr.num
  unfolding parent masked
  parent_num_upper =
      ap (λ (t : ℕ). q.addr.num / t * t) twice_q
      ∙ ap (λ (t : ℕ). t * (size p * 2)) upper_half
      ∙ floor-Aligned p.addr.num (size p * 2) (omega (arith, size-pos p)) al

  same_family : ((parent p).addr.is4 ≡ p.addr.is4) × ((parent q).addr.is4 ≡ q.addr.is4)
  unfolding parent masked
  same_family = (refl, refl)

  parent_holds : (contains (parent p) p.addr ≡ true) × (contains (parent p) q.addr ≡ true)
  parent_holds =
      let m = parent-IsMasked p mp in
      (
        contains-within (parent p) p.addr m mp.valid
            ∙ ground (arith, parent_num, twice_p, same_family, size-pos p),
        contains-within (parent p) q.addr m mq.valid
            ∙ ground (arith, parent_num, twice_p, same_family, size-pos p),
      )

  -- Two neighbouring blocks of one size, the lower one on a boundary of the double size, merge.
  pub siblings-can_merge : can_merge p q ≡ true
  unfolding can_merge parent
  siblings-can_merge = ground (arith, parent_num, parent_num_upper, parent_holds)

-- The list starts with a block of the family at `n` that spans at least `2 ^ k` numbers.
abbrev pub Filled : Bool → ℕ → ℕ → List Prefix → Type 0
Filled v4 n k [] = ⊥
Filled v4 n k (p ∷ l) = (p.addr.is4 ≡ v4) × (p.addr.num ≡ n) × (p.bits + k ≤ width v4)

-- A block that starts half-way through a block of `2 ^ suc k` numbers has at most half of them.
half_start :
    (v4 : Bool) (q : Prefix) (n k : ℕ)
    → IsMasked q
    → q.addr.is4 ≡ v4
    → q.addr.num ≡ n + 2 ^ k
    → Aligned n (2 ^ suc k)
    → q.bits + suc k ≤ width v4
    → ⊥
half_start v4 q n k mq ef e (a, f) h =
    let w = width v4 in
    let split : size q ≡ 2 ^ (w - q.bits - suc k) * 2 ^ suc k =
      ap (λ (b : Bool). block b q.bits) ef
      ∙ ap (λ (t : ℕ). 2 ^ t) (omega arith)
      ∙ pow-add (w - q.bits - suc k) (suc k) in
    let at : Aligned q.addr.num (2 ^ suc k) =
      Aligned-mul q.addr.num (2 ^ (w - q.bits - suc k)) (2 ^ suc k)
        (subst (Aligned q.addr.num) split (IsMasked-Aligned q mq)) in
    let step : n + 2 ^ suc k ≤ q.addr.num =
      Aligned-step n q.addr.num (2 ^ suc k) (a, f) at (omega (arith, pow-pos k)) in
    absurd (omega (arith, pow-suc 2 k, pow-pos k))

module _ (v4 : Bool) (n k : ℕ) (al : Aligned n (2 ^ suc k)) where
  halves-can_merge :
      (h q : Prefix)
      → IsMasked h
      → IsMasked q
      → h.addr.is4 ≡ v4
      → q.addr.is4 ≡ v4
      → h.addr.num ≡ n
      → q.addr.num ≡ n + 2 ^ k
      → h.bits + k ≡ width v4
      → q.bits + k ≤ width v4
      → suc k ≤ width v4
      → can_merge h q ≡ true
  halves-can_merge h q mh mq fh fq eh eq lh lq hk =
      let bits : h.bits ≡ q.bits = elim (dec_lt q.bits h.bits) [
        | yes less ↦ absurd (half_start v4 q n k mq fq eq al (omega arith))
        | no more ↦ omega arith
      ] in
      let sz : size h ≡ 2 ^ k =
        ap (λ (b : Bool). block b h.bits) fh ∙ ap (λ (t : ℕ). 2 ^ t) (omega arith) in
      siblings-can_merge h q mh mq (fh ∙ sym fq) bits (omega arith) (omega arith)
        (al.0, eh ∙ al.1 ∙ ap (λ (t : ℕ). al.0 * t) (pow-suc 2 k ∙ ap (λ (t : ℕ). t * 2) (sym sz)))

  full_half :
      (h : Prefix) (l : List Prefix)
      → IsMasked h
      → All IsMasked l
      → h.addr.is4 ≡ v4
      → h.addr.num ≡ n
      → h.bits + k ≡ width v4
      → suc k ≤ width v4
      → Filled v4 (n + 2 ^ k) k l
      → Unmergeable h l
      → ⊥
  full_half h [] mh ml fh eh lh hk f red = f
  full_half h (q ∷ l) mh ml fh eh lh hk f red =
      cc (halves-can_merge h q mh ml.0 fh f.0 eh f.1 lh f.2 hk)

module _ (v4 : Bool) where
  Filled-start :
      (n : ℕ) (l : List Prefix)
      → n < 2 ^ width v4
      → All IsMasked l
      → Ordered (base v4 + n) l
      → spans l (base v4 + n) ≡ true
      → Filled v4 n 0 l
  Filled-start n [] h m o s = cc
  Filled-start n (p ∷ l) h m o s =
      let no_gap = Ordered-below (first p) (p ∷ l) (base v4 + n) (omega arith, o.1) in
      let start : first p ≡ base v4 + n = ground (arith, no_gap) in
      (ground arith, ground arith, ground arith)

  pub fills-Filled :
      (k n : ℕ) (l : List Prefix)
      → k ≤ width v4
      → n + 2 ^ k ≤ 2 ^ width v4
      → Aligned n (2 ^ k)
      → All IsMasked l
      → Ordered (base v4 + n) l
      → IsReduced l
      → ((r : ℕ) → base v4 + n ≤ r → r < base v4 + n + 2 ^ k → spans l r ≡ true)
      → Filled v4 n k l
  fills-Filled zero n l hk top al m o red s =
      Filled-start n l (omega (arith, pow-zero 2)) m o
        (s (base v4 + n) (omega arith) (omega (arith, pow-zero 2)))
  fills-Filled (suc k) n [] hk top al m o red s =
      cc (s (base v4 + n) (omega arith) (omega (arith, pow-pos (suc k))))
  fills-Filled (suc k) n (h ∷ t) hk top al m o red s =
      let twice = pow-suc 2 k in
      let half : Aligned n (2 ^ k) =
        Aligned-mul n 2 (2 ^ k) (subst (Aligned n) (twice ∙ mul_comm (2 ^ k) 2) al) in
      let lower =
        fills-Filled k n (h ∷ t) (omega arith) (omega (arith, twice)) half m o red
          (λ r lo hi. s r lo (omega (arith, twice))) in
      elim (dec_lt (h.bits + k) (width v4)) [
        | yes more ↦ (lower.0, lower.1, omega arith)
        | no exact ↦
            let long : h.bits + k ≡ width v4 = omega (arith, lower.2) in
            let sz : size h ≡ 2 ^ k =
              ap (λ (b : Bool). block b h.bits) lower.0 ∙ ap (λ (u : ℕ). 2 ^ u) (omega arith) in
            let stop : lim h ≡ base v4 + (n + 2 ^ k) = ground (arith, lower.0, lower.1, sz) in
            let upper =
              fills-Filled k (n + 2 ^ k) t (omega arith) (omega (arith, twice))
                (suc half.0, omega (arith, half.1, suc-mul half.0 (2 ^ k))) m.1
                (Ordered-from (base v4 + (n + 2 ^ k)) (lim h) t (omega (arith, stop)) o.1) red.1
                (λ r lo hi.
                  sym (Ordered-behind h t r (omega (arith, stop)))
                  ∙ s r (omega arith) (omega (arith, twice))) in
            absurd (full_half v4 n k al h t m.0 m.1 lower.0 lower.1 long hk upper red.0)
      ]
