-- ===== src/Main/Flock.antt =====
-- main.go's `acquireLock` as a step of the processes that share a lock.
use georoute.Base.{ℕ, ◌≡◌, refl, Bool, true, false, Option, none, some, if◌then◌else◌}
use georoute.Netip.{Bytes}
use georoute.Text.{bytes}
use georoute.Errors.{Error, Result, ok, err, is, would_block, detail, sentinel, locked, wrap}
use georoute.System.{named, World, Env, throw, close, open_create, flock, ended, tick}
use georoute.System.Hoare.{Post, Hoare, bind_lem, or_else_lem, attempt_lem}
use georoute.System.Files.{ended_lem}
use georoute.Main.{lock_taken, acquire_lock}
use georoute.Main.Lock.{
  Machine, Step, acquire, fail, waiting, working, refused, set_owner, set_stage,
}

-- What flock says of a lock.
abbrev told : Option ℕ → Option Error
told none = none
told (some i) = some (sentinel would_block)

abbrev Any : World → Type 0
Any w = Unit

untold : (o : Option ℕ) → none ≡ told o → o ≡ none
untold none e = refl
untold (some i) e = cc e

module _ (env : Env) (path : Bytes) (o : Option ℕ)
    (answers : (n : ℕ) → env.flocked n path ≡ told o) where
  flock_answered :
      (w : World) (x : Option Error)
      → x ≡ told o
      → Post {A = Unit {0}} (λ _ _. o ≡ none) (λ _. Any) (ended (tick w) (tick w) tt x)
  flock_answered w none e = untold o e
  flock_answered w (some y) e = tt

  flock_free : Hoare env Any (flock path) (λ _ _. o ≡ none) (λ _. Any)
  unfolding flock
  flock_free = record { run = λ w h. flock_answered w (env.flocked w.clock path) (answers w.clock) }

  open_create_ends : Hoare env Any (open_create (named path)) (λ _. Any) (λ _. Any)
  unfolding open_create
  open_create_ends = record {
    run = λ w h. ended_lem (λ _. Any) (λ _. Any) _ _ _ (env.fault w.clock) tt (λ e. tt);
  }

  close_ends : Hoare env Any (close (named path)) (λ _. Any) (λ _. Any)
  unfolding close
  close_ends = record {
    run = λ w h. ended_lem (λ _. Any) (λ _. Any) _ _ _ (env.fault w.clock) tt (λ e. tt);
  }

  thrown :
      (x : Result (Unit {0})) (b : Bool) (d e : Error)
      → Hoare env
          (λ w. Post (λ _. Any) (λ _. Any) (w, x))
          (if b then throw {A = Unit {0}} d else throw e)
          (λ _ _. o ≡ none)
          (λ _. Any)
  thrown x true d e = record { run = λ w h. tt }
  thrown x false d e = record { run = λ w h. tt }

  taken_free :
      (x : Result (Unit {0}))
      → Hoare env
          (λ w. Post (λ _ _. o ≡ none) (λ _. Any) (w, x))
          (lock_taken path x)
          (λ _ _. o ≡ none)
          (λ _. Any)
  taken_free (ok a) = record { run = λ w h. h }
  taken_free (err e) =
      bind_lem (attempt_lem {F = λ _. Any} close_ends)
        (λ x. thrown x (is e would_block) (detail (sentinel locked) path) (wrap (bytes "flock") e))

  -- It succeeds only where nobody holds the lock.
  acquire_lock_free : Hoare env Any (acquire_lock path) (λ _ _. o ≡ none) (λ _. Any)
  unfolding acquire_lock
  acquire_lock_free =
      bind_lem
        (or_else_lem Any (bytes "open lock") open_create_ends (record { run = λ w h. tt })
          (λ e w h. tt) (λ e w h. tt))
        (λ _. bind_lem (attempt_lem {F = λ _. Any} flock_free) taken_free)

-- Where a process goes whose call has ended with this.
abbrev Moves : (ℕ → Bytes) → Machine → ℕ → Result (Unit {0}) → Type 0
Moves lock_file m i (ok _) = Step lock_file m (record m {
  owner = set_owner m.owner (lock_file i) (some i);
  stage = set_stage m.stage i working;
})
Moves lock_file m i (err e) = Step lock_file m (record m { stage = set_stage m.stage i refused })

moves :
    (lock_file : ℕ → Bytes) (m : Machine) (i : ℕ)
    → m.stage i ≡ waiting
    → (x : World × Result (Unit {0})) → Post (λ _ _. m.owner (lock_file i) ≡ none) (λ _. Any) x
    → Moves lock_file m i x.1
moves lock_file m i s (w, ok a) h = acquire i s h
moves lock_file m i s (w, err e) h = fail i s

-- Where flock answers by who holds the lock, `acquireLock` of a process that waits is a step of the
-- processes: to the lock and to work where it succeeds, and to a refusal where it fails.
acquire_lock-Moves :
    (lock_file : ℕ → Bytes) (m : Machine) (i : ℕ) (env : Env) (w : World)
    → ((n : ℕ) → env.flocked n (lock_file i) ≡ told (m.owner (lock_file i)))
    → m.stage i ≡ waiting
    → Moves lock_file m i (acquire_lock (lock_file i) env w).1
acquire_lock-Moves lock_file m i env w answers s =
    moves lock_file m i s (acquire_lock (lock_file i) env w)
      ((acquire_lock_free env (lock_file i) (m.owner (lock_file i)) answers).run w tt)
