-- ===== src/Rollback/Recovery.antt =====
-- rollback.go: what follows the reload.
use georoute.Base.{false, Option, none, some, ◌≡◌, refl, sym, ◌∙◌, inl, inr}
use georoute.Netip.{Bytes}
use georoute.Text.{bytes, bytes_eq}
use georoute.Errors.{Error, Result, ok, err, wrap, both}
use georoute.System.{named, World, Env, Sys, throw, atomic_write}
use georoute.System.Hoare.{Post, Hoare, bind_lem, attempt_lem, weaken}
use georoute.System.Files.{Stable}
use georoute.System.AtomicWrite.{atomic_write_lem}
use georoute.Rollback.{after_reload, resync, rolled_back}
use georoute.Rollback.Specification.{
  Changed, Accepted, Applied, Failed, says_restored, frr_reload_lem,
}

-- A guarantee for the named files as they are when the part starts.
from_here {ℓ} :
    {A : Type ℓ} {env : Env} {P : World → Type 0} {Q : A → World → Type 0}
    {E : Error → World → Type 0} {m : Sys A}
    → ((w : World) → P w → Hoare env (Stable (λ q. w.files (named q)) w.running) m Q E)
    → Hoare env P m Q E
from_here h = record { run = λ w p. (h w p).run w ((λ q. refl), refl) }

module _ (env : Env) (f : Bytes → Option Bytes) (r : Option Bytes) (live c : Bytes) where
  pub throw_lem {ℓ} :
      {A : Type ℓ} {P : World → Type 0} {Q : A → World → Type 0} (e : Error)
      → ((w : World) → P w → Failed env f live c e w)
      → Hoare env P (throw {A = A} e) Q (Failed env f live c)
  throw_lem e h = record { run = h }

  -- The new config is live and accepted, whatever FRR runs.
  stuck :
      (e : Error) (w : World)
      → says_restored e ≡ false
      → Accepted env c
      → Changed f live c w
      → Failed env f live c e w
  stuck e w n a h = (inr (a, h.0), (h.1, λ y. cc (y, n)))

  -- Nothing has happened to the named files.
  pub untouched :
      (e : Error) (w : World) → says_restored e ≡ false → Stable f r w → Failed env f live c e w
  untouched e w n h = (inl (h.0 live), ((λ q _. h.0 q), λ y. cc (y, n)))

  rolled_back_lem :
      (b : Bytes) (e : Error) (x : Result (Unit {0}))
      → f live ≡ some b
      → Hoare env
          (λ w.
            Post (λ _ v. Changed f live b v × (v.running ≡ some b)) (λ _. Changed f live b) (w, x))
          (rolled_back e x)
          (λ _. Applied env f live c)
          (Failed env f live c)
  unfolding says_restored bytes_eq
  rolled_back_lem b e (ok a) old =
      throw_lem _ (λ w h. (inl (h.0.0 ∙ sym old), (h.0.1, λ _. (h.0.0 ∙ sym old, h.1 ∙ sym old))))
  rolled_back_lem b e (err x) old = throw_lem _ (λ w h. (inl (h.0 ∙ sym old), (h.1, λ y. cc y)))

  resync_lem :
      (b : Bytes) (e : Error) (x : Result (Unit {0}))
      → Accepted env c
      → f live ≡ some b
      → Hoare env
          (λ w. Post (λ _. Changed f live b) (λ _. Changed f live c) (w, x))
          (resync live e x)
          (λ _. Applied env f live c)
          (Failed env f live c)
  unfolding says_restored
  resync_lem b e (ok a) acc old =
      bind_lem (attempt_lem {F = Failed env f live c} (frr_reload_lem env f r live b))
        (λ x. rolled_back_lem b e x old)
  resync_lem b e (err x) acc old =
      throw_lem _
        (λ w h. stuck (both (wrap (bytes "reload") e) (wrap (bytes "restore") x)) w refl acc h)

  -- Putting the backup back: it succeeds, or the new config stays.
  restore_lem :
      (b : Bytes)
      → Hoare env
          (Changed f live c)
          (atomic_write live b)
          (λ _. Changed f live b)
          (λ _. Changed f live c)
  restore_lem b = from_here (λ w p.
      weaken (λ v h. h) (λ a v h. (h.0, λ q other. h.1 q other ∙ p.1 q other))
        (λ e v h. (h.0 live ∙ p.0, λ q other. h.0 q ∙ p.1 q other))
        (atomic_write_lem env (λ q. w.files (named q)) w.running live b))

  -- The backup is what the live file held.
  abbrev pub IsBackup : Option Bytes → Type 0
  IsBackup none = Unit {0}
  IsBackup (some b) = f live ≡ some b

  -- What follows the reload keeps the promise.
  pub after_reload_lem :
      (backup : Option Bytes) (x : Result (Unit {0}))
      → Accepted env c
      → IsBackup backup
      → Hoare env
          (λ w.
            Post (λ _ v. Changed f live c v × (v.running ≡ some c)) (λ _. Changed f live c) (w, x))
          (after_reload live backup x)
          (λ _. Applied env f live c)
          (Failed env f live c)
  unfolding after_reload says_restored bytes_eq
  after_reload_lem none (ok a) acc old = record { run = λ w h. (acc, h) }
  after_reload_lem (some b) (ok a) acc old = record { run = λ w h. (acc, h) }
  after_reload_lem none (err e) acc old =
      throw_lem _ (λ w h. stuck (wrap (bytes "reload") e) w refl acc h)
  after_reload_lem (some b) (err e) acc old =
      bind_lem (attempt_lem {F = Failed env f live c} (restore_lem b))
        (λ x. resync_lem b e x acc old)
