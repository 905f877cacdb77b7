-- ===== src/Refresh/Laws.antt =====
-- refresh.go's `refreshLoop`: an invariant of its states.
use georoute.Base.{
  ℕ, ◌+◌, ◌≤◌, Bool, true, false, ◌≡◌, refl, sym, ◌∙◌, ap, List, [], ◌∷◌, ◌++◌, arith,
}
use georoute.Refresh.{
  Cycle, pending, running, skipped, finished, Phase, selecting, returned, Loop, Drained, Step, tick,
  cancel, done, lock, skip, unlock, drained, Reachable, start, step, counted_skip,
}

abbrev one : Cycle → Cycle → ℕ
one pending pending = 1
one running running = 1
one skipped skipped = 1
one finished finished = 1
one _ _ = 0

-- How many of the cycles are in the state.
abbrev pub count : Cycle → List Cycle → ℕ
count c [] = 0
count c (d ∷ l) = one c d + count c l

count-append : (c : Cycle) (l k : List Cycle) → count c (l ++ k) ≡ count c l + count c k
count-append c [] k = omega arith
count-append c (d ∷ l) k = omega (arith, count-append c l k)

-- Replacing one cycle.
count-replace :
    (c d e : Cycle) (before after : List Cycle)
    → count c (before ++ e ∷ after) + one c d ≡ count c (before ++ d ∷ after) + one c e
count-replace c d e before after =
    omega (arith, count-append c before (e ∷ after), count-append c before (d ∷ after))

abbrev held : Bool → ℕ
held true = 1
held false = 0

-- What the counter has of the skipped cycles.
abbrev pub reported : Bool → ℕ → ℕ
reported true n = n
reported false n = 0

-- The lock is held by the one cycle that runs; the counter, where there is one, has counted the
-- skipped ones; the loop has returned only with the group drained.
pub record IsConsistent (l : Loop) : Type 0 where
  pub lock_held : count running l.cycles ≡ held l.locked
  pub counted : reported l.metered (count skipped l.cycles) ≡ l.skipped_total
  pub all_back : l.phase ≡ returned → Drained l.cycles

Drained-count : (l : List Cycle) → Drained l → (count running l ≡ 0) × (count pending l ≡ 0)
Drained-count [] h = (refl, refl)
Drained-count (pending ∷ l) h = absurd h
Drained-count (running ∷ l) h = absurd h
Drained-count (skipped ∷ l) h =
    (omega (arith, (Drained-count l h).0), omega (arith, (Drained-count l h).1))
Drained-count (finished ∷ l) h =
    (omega (arith, (Drained-count l h).0), omega (arith, (Drained-count l h).1))

not_pending : (before after : List Cycle) → Drained (before ++ pending ∷ after) → ⊥
not_pending before after h = ground (
  arith,
  (Drained-count (before ++ pending ∷ after) h).1,
  count-append pending before (pending ∷ after),
)

not_running : (before after : List Cycle) → Drained (before ++ running ∷ after) → ⊥
not_running before after h = ground (
  arith,
  (Drained-count (before ++ running ∷ after) h).0,
  count-append running before (running ∷ after),
)

differ : {p : Phase} → p ≡ selecting → p ≡ returned → ⊥
differ s h = cc (s, h)

module _ {l : Loop} (c : IsConsistent l) (before after : List Cycle) where
  was :
      (d : Cycle)
      → l.cycles ≡ before ++ d ∷ after
      → count running (before ++ d ∷ after) ≡ held l.locked
  was d e = ap (count running) (sym e) ∙ c.lock_held

  -- The counter where as many cycles are skipped as before.
  same_count :
      (d e : Cycle)
      → l.cycles ≡ before ++ d ∷ after
      → one skipped d ≡ one skipped e
      → reported l.metered (count skipped (before ++ e ∷ after)) ≡ l.skipped_total
  same_count d e at same =
      ap (reported l.metered)
        (omega (arith, count-replace skipped d e before after, same, ap (count skipped) at))
      ∙ c.counted

  one_more :
      (b : Bool) (n m : ℕ) {t : ℕ} → m ≡ n + 1 → reported b n ≡ t → reported b m ≡ counted_skip b t
  one_more true n m e h = omega (arith, e, h)
  one_more false n m e h = h

  back_pending : l.cycles ≡ before ++ pending ∷ after → l.phase ≡ returned → ⊥
  back_pending e h = not_pending before after (rw e at c.all_back h)

  back_running : l.cycles ≡ before ++ running ∷ after → l.phase ≡ returned → ⊥
  back_running e h = not_running before after (rw e at c.all_back h)

  locking :
      l.cycles ≡ before ++ pending ∷ after
      → l.locked ≡ false
      → IsConsistent (record l { cycles = before ++ running ∷ after; locked = true })
  locking e free = record {
    lock_held =
        omega
          (arith, count-replace running pending running before after, was pending e, ap held free);
    counted = same_count pending running e refl;
    all_back = λ h. absurd (back_pending e h);
  }

  skipping :
      l.cycles ≡ before ++ pending ∷ after
      → IsConsistent (record l {
        cycles = before ++ skipped ∷ after;
        skipped_total = counted_skip l.metered l.skipped_total;
      })
  skipping e = record {
    lock_held = omega (arith, count-replace running pending skipped before after, was pending e);
    counted =
        one_more l.metered (count skipped l.cycles) (count skipped (before ++ skipped ∷ after))
          (omega (arith, count-replace skipped pending skipped before after, ap (count skipped) e))
          c.counted;
    all_back = λ h. absurd (back_pending e h);
  }

  held_most : held l.locked ≤ 1
  held_most = ground arith

  unlocking :
      l.cycles ≡ before ++ running ∷ after
      → IsConsistent (record l { cycles = before ++ finished ∷ after; locked = false })
  unlocking e = record {
    lock_held =
        omega
          (arith, count-replace running running finished before after, was running e, held_most);
    counted = same_count running finished e refl;
    all_back = λ h. absurd (back_running e h);
  }

preserved : {l k : Loop} → IsConsistent l → Step l k → IsConsistent k
preserved {l = l} c (tick s) = record {
  lock_held = omega (arith, c.lock_held);
  counted = ap (reported l.metered) (omega arith) ∙ c.counted;
  all_back = λ h. absurd (differ s h);
}
preserved c cancel = record { lock_held = c.lock_held; counted = c.counted; all_back = c.all_back }
preserved c (done s x) = record {
  lock_held = c.lock_held;
  counted = c.counted;
  all_back = λ h. cc h;
}
preserved c (lock before after e free) = locking c before after e free
preserved c (skip before after e taken) = skipping c before after e
preserved c (unlock before after e) = unlocking c before after e
preserved c (drained p d) = record {
  lock_held = c.lock_held;
  counted = c.counted;
  all_back = λ _. d;
}

-- In every reachable state the lock is held by exactly the cycles that run, the counter of a loop
-- with metrics is the number of skipped cycles, and once the loop has returned every dispatched cycle is back.
pub Reachable-IsConsistent : {l : Loop} → Reachable l → IsConsistent l
Reachable-IsConsistent (start true) = record {
  lock_held = refl;
  counted = refl;
  all_back = λ h. cc h;
}
Reachable-IsConsistent (start false) = record {
  lock_held = refl;
  counted = refl;
  all_back = λ h. cc h;
}
Reachable-IsConsistent (step r s) = preserved (Reachable-IsConsistent r) s

-- In every reachable state at most one cycle runs.
pub running-most_one : {l : Loop} → Reachable l → count running l.cycles ≤ 1
running-most_one {l = l} r = most l.locked (Reachable-IsConsistent r).lock_held
  where
    most : (b : Bool) {n : ℕ} → n ≡ held b → n ≤ 1
    most true h = omega arith
    most false h = omega arith
