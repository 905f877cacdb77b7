-- ===== src/Main/Specification.antt =====
-- main.go's `realMain`: what its exit status says of the files, nft and FRR.
use georoute.Base.{ℕ, ◌≡◌, ◌⊎◌, Bool, true, false, List, [], ◌∷◌, is_positive}
use georoute.Errors.{Error, Result, ok, err}
use georoute.System.{named, World, Env}
use georoute.System.Files.{Stable}
use georoute.Flags.{CliFlags}
use georoute.Fetch.Response.{RipeResp}
use georoute.Fetch.Cache.{Format}
use georoute.Fetch.Kept.{Kept}
use georoute.Run.Specification.{Ran}
use georoute.Main.{Process, exit_code, acquire_lock}
use georoute.Logging.{Handler, new_logger}
use georoute.Target.{is_empty}

-- A run that started in the world `u` came with its success to the world `v`, and only the marker
-- has changed since.
abbrev pub Worked :
    Format RipeResp → Env → CliFlags → Result RipeResp → World → Bool → World → Type 0
Worked format env f fetched u succeeded w =
    (v : World) × Ran format env f fetched (λ q. u.files (named q)) u.running u.clock succeeded v
    × Kept (λ q. v.files (named q)) v.running f.last_success_file w

-- Cycles after one another, each of which starts from what the one before has left.
abbrev pub Cycled :
    Format RipeResp → Env → CliFlags → List (Result RipeResp) → World → World → Type 0
Cycled format env f [] u w = Stable (λ q. u.files (named q)) u.running w
Cycled format env f (x ∷ l) u w =
    (succeeded : Bool) × (v : World) × Worked format env f x u succeeded v
    × Cycled format env f l v w

-- Where a process with these flags takes the lock, this is the world behind it.
abbrev pub locked_world : Env → CliFlags → World → World
locked_world env f w = (acquire_lock f.lock_file env w).0

-- What keeps a process that starts in the world `w` from its work: the logger, the lock, or, with an
-- address to serve, the check or the listener.
pub data Refused (env : Env) (f : CliFlags) (p : Process) (w : World) : Type 0 where
  no_logger : {e : Error} → new_logger f.log_format f.log_level ≡ err e → Refused env f p w
  no_lock : {e : Error} → (acquire_lock f.lock_file env w).1 ≡ err e → Refused env f p w
  no_check : {e : Error} → is_empty f.http_addr ≡ false → p.check_added ≡ err e → Refused env f p w
  no_listener : {e : Error} → is_empty f.http_addr ≡ false → p.listened ≡ err e → Refused env f p w

-- Nothing does.
pub record Granted (env : Env) (f : CliFlags) (p : Process) (w : World) : Type 0 where
  pub logger : (l : Handler) × (new_logger f.log_format f.log_level ≡ ok l)
  pub lock : (acquire_lock f.lock_file env w).1 ≡ ok tt
  pub server :
      (is_empty f.http_addr ≡ true) ⊎ ((p.check_added ≡ ok tt) × (n : ℕ) × (p.listened ≡ ok n))

-- Without a refresh interval the status is that of a run; with one it is 0 behind all the cycles.
abbrev pub Served : Format RipeResp → Env → CliFlags → Process → World → ℕ → World → Type 0
Served format env f p u code w =
    ((is_positive f.refresh_interval ≡ false)
      × (succeeded : Bool) × (code ≡ exit_code succeeded)
      × Worked format env f p.fetched u succeeded w)
    ⊎ ((is_positive f.refresh_interval ≡ true)
        × (code ≡ 0)
        × Cycled format env f (p.fetched ∷ p.later) u w)

-- A process that started in the world `w`: it was refused, and no file but the lock file has changed;
-- or it was not, and worked from the world behind the lock.
abbrev pub Exited : Format RipeResp → Env → CliFlags → Process → World → ℕ → World → Type 0
Exited format env f p w code v =
    (Refused env f p w × (code ≡ 1) × Kept (λ q. w.files (named q)) w.running f.lock_file v)
    ⊎ (Granted env f p w
        × Kept (λ q. w.files (named q)) w.running f.lock_file (locked_world env f w)
        × Served format env f p (locked_world env f w) code v)
