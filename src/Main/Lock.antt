-- ===== src/Main/Lock.antt =====
-- Several processes and flock: `acquireLock` and the lock's release at the end of `realMain`.
use georoute.Base.{
  ℕ, ◌≡◌, sym, ap, ◌∙◌, ◌==◌, ==_iff, true, false, Bool-cases, inl, inr, Option, none, some,
  if◌then◌else◌,
}
use georoute.Netip.{Bytes}
use georoute.Text.{bytes_eq}
use georoute.Text.Search.{bytes_eq_iff}

-- A process before the lock, between the lock and its exit, refused, or over.
pub data Stage : Type 0 where
  waiting working refused over : Stage

-- Who holds the lock of each path, and where each process stands.
pub record Machine : Type 0 where
  pub owner : Bytes → Option ℕ
  pub stage : ℕ → Stage

unfoldable pub set_owner : (Bytes → Option ℕ) → Bytes → Option ℕ → Bytes → Option ℕ
unfolding bytes_eq
set_owner owner path o q = if bytes_eq path q then o else owner q

unfoldable pub set_stage : (ℕ → Stage) → ℕ → Stage → ℕ → Stage
set_stage stage i s j = if i == j then s else stage j

abbrev pub booted : Machine
booted = record { owner = λ q. none; stage = λ i. waiting }

taken : {i : ℕ} → none ≡ some i → ⊥
taken e = cc e

apart : refused ≡ working → ⊥
apart e = cc e

ended : over ≡ working → ⊥
ended e = cc e

idle : waiting ≡ working → ⊥
idle e = cc e

some_inj : {i j : ℕ} → some i ≡ some j → i ≡ j
some_inj e = cc e

differ : {i j : ℕ} → (i == j) ≡ false → i ≡ j → ⊥
differ {i} {j} n e = let y = (==_iff i j).1 e in cc (y, n)

-- The processes have their `--lock-file` each. flock gives the lock where nobody holds it, and
-- EWOULDBLOCK where somebody does; either call may fail otherwise, whoever holds the lock. The lock
-- goes back when the process closes it or dies.
module _ (lock_file : ℕ → Bytes) where
  pub data Step : Machine → Machine → Type 0 where
    acquire :
        {m : Machine} (i : ℕ)
        → m.stage i ≡ waiting
        → m.owner (lock_file i) ≡ none
        → Step m (record m {
          owner = set_owner m.owner (lock_file i) (some i);
          stage = set_stage m.stage i working;
        })
    refuse :
        {m : Machine} (i j : ℕ)
        → m.stage i ≡ waiting
        → m.owner (lock_file i) ≡ some j
        → Step m (record m { stage = set_stage m.stage i refused })
    fail :
        {m : Machine} (i : ℕ)
        → m.stage i ≡ waiting
        → Step m (record m { stage = set_stage m.stage i refused })
    release :
        {m : Machine} (i : ℕ)
        → m.stage i ≡ working
        → Step m (record m {
          owner = set_owner m.owner (lock_file i) none;
          stage = set_stage m.stage i over;
        })

  pub data Reachable : Machine → Type 0 where
    boot : Reachable booted
    then_step : {m n : Machine} → Reachable m → Step m n → Reachable n

  -- Whoever works holds the lock of its path.
  Holds : Machine → Type 0
  Holds m = (i : ℕ) → m.stage i ≡ working → m.owner (lock_file i) ≡ some i

  same_path : (a b : Bytes) → a ≡ b → bytes_eq a b ≡ true
  same_path a b e = (bytes_eq_iff a b).1 e

  step-Holds : {m n : Machine} → Step m n → Holds m → Holds n
  unfolding Holds set_owner set_stage
  step-Holds (acquire {m} i s o) h k w = elim (Bool-cases (i == k)) [
    | inl y ↦
        let e : i ≡ k = (==_iff i k).0 y in
        rw (same_path (lock_file i) (lock_file k) (ap lock_file e)) (ap some e)
    | inr n ↦ elim (Bool-cases (bytes_eq (lock_file i) (lock_file k))) [
      | inl y ↦ absurd (
          taken (
            sym o
            ∙ (ap m.owner ((bytes_eq_iff (lock_file i) (lock_file k)).0 y) ∙ h k (rw n at w))))
      | inr d ↦ rw d (h k (rw n at w))
    ]
  ]
  step-Holds (refuse {m} i j s o) h k w = elim (Bool-cases (i == k)) [
    | inl y ↦ absurd (apart (rw y at w))
    | inr n ↦ h k (rw n at w)
  ]
  step-Holds (fail {m} i s) h k w = elim (Bool-cases (i == k)) [
    | inl y ↦ absurd (apart (rw y at w))
    | inr n ↦ h k (rw n at w)
  ]
  step-Holds (release {m} i s) h k w = elim (Bool-cases (i == k)) [
    | inl y ↦ absurd (ended (rw y at w))
    | inr n ↦ elim (Bool-cases (bytes_eq (lock_file i) (lock_file k))) [
      | inl y ↦
          let e : some i ≡ some k =
            sym (h i s)
            ∙ (ap m.owner ((bytes_eq_iff (lock_file i) (lock_file k)).0 y) ∙ h k (rw n at w)) in
          absurd (differ n (some_inj e))
      | inr d ↦ rw d (h k (rw n at w))
    ]
  ]

  Reachable-Holds : {m : Machine} → Reachable m → Holds m
  unfolding Holds
  Reachable-Holds boot = λ i w. absurd (idle w)
  Reachable-Holds (then_step r s) = step-Holds s (Reachable-Holds r)

  -- In every machine that is reached by any number of processes, whatever the order of their steps:
  -- two processes that work with one lock file are one process.
  pub working_exclusive :
      {m : Machine}
      → Reachable m
      → (i j : ℕ) → lock_file i ≡ lock_file j
      → m.stage i ≡ working
      → m.stage j ≡ working
      → i ≡ j
  unfolding Holds
  working_exclusive {m} r i j e a b =
      let h = Reachable-Holds r in some_inj (sym (h i a) ∙ (ap m.owner e ∙ h j b))
