-- ===== src/Refresh/Drain.antt =====
-- refresh.go's `refreshLoop` from the end of its context on.
use georoute.Base.{
  ℕ, zero, suc, ◌+◌, ◌≤◌, Bool-cases, ◌≡◌, refl, ap, ◌⊎◌, inl, inr, List, [], ◌∷◌, ◌++◌, arith,
}
use georoute.Refresh.{
  Cycle, pending, running, skipped, finished, draining, returned, Loop, Drained, Step, lock, skip,
  unlock, drained,
}

-- Some steps, one after the other.
pub data Steps : Loop → Loop → Type 0 where
  here : {l : Loop} → Steps l l
  then_steps : {l k m : Loop} → Step l k → Steps k m → Steps l m

-- The steps that the cycles still need, at most.
abbrev left : List Cycle → ℕ
left [] = 0
left (pending ∷ l) = 2 + left l
left (running ∷ l) = 1 + left l
left (skipped ∷ l) = left l
left (finished ∷ l) = left l

left-append : (l k : List Cycle) → left (l ++ k) ≡ left l + left k
left-append [] k = omega arith
left-append (pending ∷ l) k = omega (arith, left-append l k)
left-append (running ∷ l) k = omega (arith, left-append l k)
left-append (skipped ∷ l) k = left-append l k
left-append (finished ∷ l) k = left-append l k

-- Where a list is cut at a cycle.
abbrev At : Cycle → List Cycle → Type 0
At c l = (before : List Cycle) × (after : List Cycle) × (l ≡ before ++ c ∷ after)

abbrev Outcome : List Cycle → Type 0
Outcome l = Drained l ⊎ (At running l ⊎ At pending l)

later : (d : Cycle) (l : List Cycle) → (Drained l → Drained (d ∷ l)) → Outcome l → Outcome (d ∷ l)
later d l f (inl h) = inl (f h)
later d l f (inr (inl (b, a, e))) = inr (inl (d ∷ b, a, ap (λ k. d ∷ k) e))
later d l f (inr (inr (b, a, e))) = inr (inr (d ∷ b, a, ap (λ k. d ∷ k) e))

outcome : (l : List Cycle) → Outcome l
outcome [] = inl tt
outcome (pending ∷ l) = inr (inr ([], l, refl))
outcome (running ∷ l) = inr (inl ([], l, refl))
outcome (skipped ∷ l) = later skipped l (λ h. h) (outcome l)
outcome (finished ∷ l) = later finished l (λ h. h) (outcome l)

abbrev pub CanReturn : Loop → Type 0
CanReturn l = (k : Loop) × Steps l k × (k.phase ≡ returned)

first_step : {l k : Loop} → Step l k → CanReturn k → CanReturn l
first_step s (m, rest, e) = (m, then_steps s rest, e)

-- Replacing a cycle by one that needs less.
less_left :
    (l : List Cycle) (c d : Cycle) (before after : List Cycle) (n : ℕ)
    → l ≡ before ++ c ∷ after
    → left l ≤ suc n
    → suc (left (d ∷ [])) ≤ left (c ∷ [])
    → left (before ++ d ∷ after) ≤ n
less_left l c d before after n e h s = omega (
  arith,
  ap left e,
  left-append before (c ∷ after),
  left-append before (d ∷ after),
  left-append (c ∷ []) after,
  left-append (d ∷ []) after,
)

return_now : (l : Loop) → l.phase ≡ draining → Drained l.cycles → CanReturn l
return_now l p d = (record l { phase = returned }, then_steps (drained p d) here, refl)

none_left :
    (c : Cycle) (before after : List Cycle) (l : List Cycle)
    → l ≡ before ++ c ∷ after
    → left l ≤ 0
    → 1 ≤ left (c ∷ [])
    → ⊥
none_left c before after l e h s =
    omega (arith, ap left e, left-append before (c ∷ after), left-append (c ∷ []) after)

drains : (n : ℕ) (l : Loop) → left l.cycles ≤ n → l.phase ≡ draining → CanReturn l
drains zero l h p = elim (outcome l.cycles) [
  | inl d ↦ return_now l p d
  | inr (inl (b, a, e)) ↦ absurd (none_left running b a l.cycles e h (omega arith))
  | inr (inr (b, a, e)) ↦ absurd (none_left pending b a l.cycles e h (omega arith))
]
drains (suc n) l h p = elim (outcome l.cycles) [
  | inl d ↦ return_now l p d
  | inr (inl (b, a, e)) ↦
      first_step (unlock b a e)
        (drains n _ (less_left l.cycles running finished b a n e h (omega arith)) p)
  | inr (inr (b, a, e)) ↦ elim (Bool-cases l.locked) [
    | inl taken ↦
        first_step (skip b a e taken)
          (drains n _ (less_left l.cycles pending skipped b a n e h (omega arith)) p)
    | inr free ↦
        first_step (lock b a e free)
          (drains n _ (less_left l.cycles pending running b a n e h (omega arith)) p)
  ]
]

-- A loop that drains can return: the dispatched cycles have steps after which it does.
pub draining-CanReturn : (l : Loop) → l.phase ≡ draining → CanReturn l
draining-CanReturn l p = drains (left l.cycles) l (omega arith) p
