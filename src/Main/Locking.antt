-- ===== src/Main/Locking.antt =====
-- main.go's `acquireLock`, call by call.
use georoute.Base.{◌+◌, ◌∙◌, Bool, true, false, Option, if◌then◌else◌}
use georoute.Netip.{Bytes}
use georoute.Text.{bytes}
use georoute.Errors.{Error, Result, ok, err, is, would_block, detail, sentinel, locked, wrap}
use georoute.System.{FilePath, named, World, Env, throw, close, open_create, flock}
use georoute.System.Hoare.{Post, Hoare, bind_lem, or_else_lem, attempt_lem}
use georoute.System.Files.{Stable, ended_lem, set_file-other, named-other}
use georoute.Fetch.Kept.{Kept}
use georoute.Metrics.Laws.{Blind}
use georoute.Main.{lock_taken, acquire_lock}

-- Closing a file changes nothing that a blind predicate sees.
pub close_blind :
    (env : Env) (p : FilePath) (R : World → Type 0)
    → Blind R
    → Hoare env R (close p) (λ _. R) (λ _. R)
unfolding close
close_blind env p R b = record {
  run = λ w h.
      let k = b w w.meters (w.clock + 1) h in
      ended_lem (λ _. R) (λ _. R) _ _ _ (env.fault w.clock) k (λ e. k);
}

module _ (env : Env) (g : Bytes → Option Bytes) (r : Option Bytes) (path : Bytes) where
  open_create_lem :
      Hoare env (Stable g r) (open_create (named path)) (λ _. Kept g r path) (λ _. Kept g r path)
  unfolding open_create
  open_create_lem = record {
    run = λ w h.
        ended_lem (λ _. Kept g r path) (λ _. Kept g r path) _ _ _ (env.fault w.clock)
          (
            (λ q o. set_file-other w.files (named path) (named q) _ (named-other path q o) ∙ h.0 q),
            h.1,
          )
          (λ e. ((λ q o. h.0 q), h.1));
  }

  flock_lem : Hoare env (Kept g r path) (flock path) (λ _. Kept g r path) (λ _. Kept g r path)
  unfolding flock
  flock_lem = record {
    run = λ w h.
        ended_lem (λ _. Kept g r path) (λ _. Kept g r path) _ _ _ (env.flocked w.clock path) h
          (λ e. h);
  }

  refused :
      (x : Result (Unit {0})) (b : Bool) (d e : Error)
      → Hoare env
          (λ w. Post (λ _. Kept g r path) (λ _. Kept g r path) (w, x))
          (if b then throw {A = Unit {0}} d else throw e)
          (λ _. Kept g r path)
          (λ _. Kept g r path)
  refused (ok a) true d e = record { run = λ w h. h }
  refused (ok a) false d e = record { run = λ w h. h }
  refused (err y) true d e = record { run = λ w h. h }
  refused (err y) false d e = record { run = λ w h. h }

  taken :
      (x : Result (Unit {0}))
      → Hoare env
          (λ w. Post (λ _. Kept g r path) (λ _. Kept g r path) (w, x))
          (lock_taken path x)
          (λ _. Kept g r path)
          (λ _. Kept g r path)
  taken (ok a) = record { run = λ w h. h }
  taken (err e) =
      bind_lem
        (attempt_lem {F = λ _. Kept g r path}
          (close_blind env (named path) (Kept g r path) (λ w ms n h. h)))
        (λ x. refused x (is e would_block) (detail (sentinel locked) path) (wrap (bytes "flock") e))

  -- The files but for the lock file stay.
  pub acquire_lock_lem :
      Hoare env (Stable g r) (acquire_lock path) (λ _. Kept g r path) (λ _. Kept g r path)
  unfolding acquire_lock
  acquire_lock_lem =
      bind_lem
        (or_else_lem (Kept g r path) (bytes "open lock") open_create_lem (record { run = λ w h. h })
          (λ e w h. h) (λ e w h. h))
        (λ _. bind_lem (attempt_lem {F = λ _. Kept g r path} flock_lem) taken)
