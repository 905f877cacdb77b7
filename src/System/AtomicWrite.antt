-- ===== src/System/AtomicWrite.antt =====
-- main.go's `atomicWrite`, call by call.
use georoute.Base.{Option}
use georoute.Netip.{Bytes}
use georoute.Text.{bytes}
use georoute.Errors.{Result, ok, err}
use georoute.System.{
  FilePath, named, World, Env, Sys, ◌>>◌, attempt, or_else, write_file, chmod, close, remove,
  rename, atomic_write,
}
use georoute.System.Hoare.{Post, Hoare, bind_lem, or_else_lem, attempt_lem, weaken, given}
use georoute.System.Files.{
  Stable, Replaced, IsTemp, create_temp_lem, write_file_lem, chmod_lem, close_lem, close_stable_lem,
  remove_lem, rename_lem,
}

module _ (env : Env) (f : Bytes → Option Bytes) (r : Option Bytes) where
  pub discard :
      (p : FilePath)
      → IsTemp p
      → Hoare env (Stable f r) (attempt (close p) >> remove p) (λ _. Stable f r) (λ _. Stable f r)
  discard p t =
      bind_lem (attempt_lem {F = λ _. Stable f r} (close_stable_lem env f r p))
        (λ x. weaken (stable x) (λ a w h. h) (λ e w h. h) (remove_lem env f r p t))
    where
      stable :
          (x : Result (Unit {0})) (w : World)
          → Post (λ _. Stable f r) (λ _. Stable f r) (w, x)
          → Stable f r w
      stable (ok a) w h = h
      stable (err e) w h = h

  -- A step on the staged file, whose failure is cleaned up.
  pub step :
      {m : Sys (Unit {0})} {P : World → Type 0} {Q : Unit {0} → World → Type 0} (context : Bytes)
      (cleanup : Sys (Unit {0}))
      → Hoare env P m Q (λ _. Stable f r)
      → Hoare env (Stable f r) cleanup (λ _. Stable f r) (λ _. Stable f r)
      → Hoare env P (or_else m context cleanup) Q (λ _. Stable f r)
  step context cleanup h k = or_else_lem (Stable f r) context h k (λ e w s. s) (λ e w s. s)

  staged :
      (tmp : FilePath) (path c : Bytes)
      → IsTemp tmp
      → Hoare env
          (Stable f r)
          (or_else (write_file tmp c) (bytes "write tmp") (attempt (close tmp) >> remove tmp)
            >> (or_else (chmod tmp) (bytes "chmod tmp") (attempt (close tmp) >> remove tmp)
                >> (or_else (close tmp) (bytes "close tmp") (remove tmp)
                    >> or_else (rename tmp (named path)) (bytes "rename") (remove tmp))))
          (λ _. Replaced f r path c)
          (λ _. Stable f r)
  staged tmp path c t = bind_lem (step _ _ (write_file_lem env f r tmp c t) (discard tmp t)) (λ a.
      bind_lem (step _ _ (chmod_lem env f r tmp tmp c) (discard tmp t)) (λ b.
        bind_lem (step _ _ (close_lem env f r tmp tmp c) (remove_lem env f r tmp t))
          (λ d. step _ _ (rename_lem env f r tmp path c t) (remove_lem env f r tmp t))))

  -- From any world: after a success the file has the contents and the other named files are as
  -- before; after an error all named files are as before; FRR runs what it ran.
  pub atomic_write_lem :
      (path c : Bytes)
      → Hoare env (Stable f r) (atomic_write path c) (λ _. Replaced f r path c) (λ _. Stable f r)
  unfolding atomic_write
  atomic_write_lem path c =
      bind_lem
        (or_else_lem (Stable f r) (bytes "create temp") (create_temp_lem env f r path)
          (record { run = λ w h. h }) (λ e w s. s) (λ e w s. s))
        (λ tmp. given (staged tmp path c))
