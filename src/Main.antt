-- ===== src/Main.antt =====
-- main.go's `realMain` behind the parsing of the flags: the lock, the health server, the work of a
-- cycle, and the exit status.
pub mod Lock
pub mod Specification
pub mod Locking
pub mod Flock
pub mod Exit
pub mod Laws
use georoute.Base.{
  ℕ, Bool, true, false, not, ◌||◌, Option, none, some, List, [], ◌∷◌, ◌++◌, ℤ, is_positive,
  if◌then◌else◌,
}
use georoute.Netip.{Bytes}
use georoute.Text.{bytes, to_lower}
use georoute.Errors.{Error, Result, ok, err, sentinel, detail, wrap, is, would_block, locked}
use georoute.System.{
  named, Sys, ◌>>=◌, ◌>>◌, pure, throw, attempt, or_else, deferred, print, close, open_create,
  flock, time_since, unix_now,
}
use georoute.Flags.{CliFlags, apply_defaults}
use georoute.Target.{is_empty}
use georoute.Fetch.Response.{RipeResp}
use georoute.Fetch.Cache.{Format}
use georoute.Logging.{Handler, new_logger}
use georoute.Metrics.{Metrics, measured, timed, observe_run, set_last_success}
use georoute.Health.{HealthServer, new_server, pre_bind, start, shutdown, write_last_success}
use georoute.Run.{run}

abbrev pub lock_taken : Bytes → Result (Unit {0}) → Sys (Unit {0})
lock_taken path (ok _) = pure tt
lock_taken path (err e) =
    attempt (close (named path))
    >> (if is e would_block
        then throw (detail (sentinel locked) path)
        else throw (wrap (bytes "flock") e))

-- `acquireLock`
unfoldable pub acquire_lock : Bytes → Sys (Unit {0})
acquire_lock path = do
  or_else (open_create (named path)) (bytes "open lock") (pure tt)
  r ← attempt (flock path)
  lock_taken path r

-- What the process meets besides the system calls: the outcomes of the fetches of its cycles, in the
-- order in which the refresh loop runs them until a signal ends it, whether the check can be
-- registered, and what listening, serving and shutting down give.
pub record Process : Type 0 where
  pub cancel : Option Error
  pub fetched : Result RipeResp
  pub later : List (Result RipeResp)
  pub check_added : Result (Unit {0})
  pub listened : Result ℕ
  pub served : Option Error
  pub shut_down : Option Error

abbrev pub exit_code : Bool → ℕ
exit_code true = 0
exit_code false = 1

module _ (format : Format RipeResp) (push : CliFlags → Bytes → Sys (Unit {0})) (p : Process) where
  -- The marker of a successful cycle; a failed write is only logged.
  abbrev pub stamped : CliFlags → Sys (Unit {0})
  stamped f =
      if not (is_empty f.http_addr) || not (is_empty f.last_success_file)
      then attempt (write_last_success f.last_success_file) >> pure tt
      else pure tt

  -- What a cycle reports of its run; the result is what it stores in `lastRunOK`.
  abbrev pub reported : CliFlags → Option Metrics → Result (Unit {0}) → Sys Bool
  reported f m (err e) = do measured m (λ x. timed (observe_run x (bytes "error"))); pure false
  reported f m (ok _) = do
    measured m
        (λ x. do timed (observe_run x (bytes "success")); now ← unix_now; set_last_success x now)
    stamped f
    pure true

  -- The closure `work`.
  unfoldable pub work : CliFlags → Option Metrics → Result RipeResp → Sys Bool
  work f m fetched = do r ← attempt (run format p.cancel push f m fetched); reported f m r

  -- The cycles that the refresh loop runs.
  unfoldable pub cycles : CliFlags → Option Metrics → List (Result RipeResp) → Sys (Unit {0})
  cycles f m [] = pure tt
  cycles f m (x ∷ l) = do work f m x; cycles f m l

  abbrev pub stop_server : Option HealthServer → Option HealthServer
  stop_server none = none
  stop_server (some h) = some ((shutdown p.shut_down h).0)

  -- Behind the lock and the server: the daemon, or one cycle and its status.
  unfoldable pub serve_cycles :
      CliFlags → Option Metrics → Option HealthServer → Sys (ℕ × Option HealthServer)
  serve_cycles f m h =
      if is_positive f.refresh_interval
      then cycles f m (p.fetched ∷ p.later) >> pure (0, stop_server h)
      else work f m p.fetched >>= (λ b. pure (exit_code b, stop_server h))

  -- The server starts beside the cycles.
  abbrev pub with_server :
      CliFlags → HealthServer × Result (Unit {0}) → Sys (ℕ × Option HealthServer)
  with_server f (h, err e) = pure (1, some h)
  with_server f (h, ok _) =
      serve_cycles f (some (record { country = to_lower f.country }))
        (some ((start p.listened p.served h).0))

  abbrev pub checked : CliFlags → Result (Unit {0}) → Sys (ℕ × Option HealthServer)
  checked f (err e) = pure (1, none)
  checked f (ok _) = with_server f (pre_bind p.listened new_server)

  unfoldable pub under_lock : CliFlags → Sys (ℕ × Option HealthServer)
  under_lock f = if is_empty f.http_addr then serve_cycles f none none else checked f p.check_added

  abbrev pub with_lock : CliFlags → Result (Unit {0}) → Sys (ℕ × Option HealthServer)
  with_lock f (err e) = pure (1, none)
  with_lock f (ok _) = deferred (under_lock f) (close (named f.lock_file))

  abbrev pub with_logger : CliFlags → Result Handler → Sys (ℕ × Option HealthServer)
  with_logger f (err e) = pure (1, none)
  with_logger f (ok _) = do r ← attempt (acquire_lock f.lock_file); with_lock f r

  abbrev pub with_flags : CliFlags → Sys (ℕ × Option HealthServer)
  with_flags f = with_logger f (new_logger f.log_format f.log_level)

  -- `realMain`, from the flags as they are parsed: the exit status, and the server as it is left.
  unfoldable pub real_main : Bool → Bytes → CliFlags → Sys (ℕ × Option HealthServer)
  real_main true version f = attempt (print (version ++ bytes "\n")) >> pure (0, none)
  real_main false version f = with_flags (apply_defaults f)
