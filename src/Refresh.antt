-- ===== src/Refresh.antt =====
-- refresh.go: `refreshLoop` as steps of the loop and of the goroutines that it dispatches.
pub mod Laws
pub mod Drain
use georoute.Base.{ℕ, zero, suc, ◌+◌, Bool, true, false, ◌≡◌, ◌≢◌, List, [], ◌∷◌, ◌++◌}

-- A dispatched `runOnce`: before its `TryLock`, running the work under the lock, or back.
pub data Cycle : Type 0 where
  pending running skipped finished : Cycle

-- Where the loop stands: selecting, waiting for the group, or returned.
pub data Phase : Type 0 where
  selecting draining returned : Phase

-- `skipped_total` is the counter of the metrics, which the loop has where `metered`; the group is the
-- list of dispatched cycles.
pub record Loop : Type 0 where
  pub metered : Bool
  pub phase : Phase
  pub locked : Bool
  pub cycles : List Cycle
  pub skipped_total : ℕ
  pub canceled : Bool

-- The group has drained when every goroutine is back.
abbrev pub Drained : List Cycle → Type 0
Drained [] = Unit {0}
Drained (pending ∷ l) = ⊥
Drained (running ∷ l) = ⊥
Drained (skipped ∷ l) = Drained l
Drained (finished ∷ l) = Drained l

-- After the first `dispatch()`.
abbrev pub started : Bool → Loop
started metered = record {
  metered = metered;
  phase = selecting;
  locked = false;
  cycles = pending ∷ [];
  skipped_total = 0;
  canceled = false;
}

-- `if m != nil` in front of the counter's `Inc`.
abbrev pub counted_skip : Bool → ℕ → ℕ
counted_skip true n = n + 1
counted_skip false n = n

-- One step; the goroutines and the loop take turns in any order.
pub data Step : Loop → Loop → Type 0 where
  tick : {l : Loop} → l.phase ≡ selecting → Step l (record l { cycles = pending ∷ l.cycles })
  cancel : {l : Loop} → Step l (record l { canceled = true })
  done :
      {l : Loop} → l.phase ≡ selecting → l.canceled ≡ true → Step l (record l { phase = draining })
  lock :
      {l : Loop} (before after : List Cycle)
      → l.cycles ≡ before ++ pending ∷ after
      → l.locked ≡ false
      → Step l (record l { cycles = before ++ running ∷ after; locked = true })
  skip :
      {l : Loop} (before after : List Cycle)
      → l.cycles ≡ before ++ pending ∷ after
      → l.locked ≡ true
      → Step l (record l {
        cycles = before ++ skipped ∷ after;
        skipped_total = counted_skip l.metered l.skipped_total;
      })
  unlock :
      {l : Loop} (before after : List Cycle)
      → l.cycles ≡ before ++ running ∷ after
      → Step l (record l { cycles = before ++ finished ∷ after; locked = false })
  drained :
      {l : Loop} → l.phase ≡ draining → Drained l.cycles → Step l (record l { phase = returned })

pub data Reachable : Loop → Type 0 where
  start : (metered : Bool) → Reachable (started metered)
  step : {l k : Loop} → Reachable l → Step l k → Reachable k
