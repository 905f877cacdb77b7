-- ===== src/Rollback.antt =====
-- rollback.go: the swap of frr.conf with a syntax check, a backup and a rollback.
pub mod Specification
pub mod Recovery
pub mod Laws
use georoute.Base.{Bool, true, false, Option, none, some, if◌then◌else◌}
use georoute.Netip.{Bytes}
use georoute.Text.{bytes}
use georoute.Errors.{Error, Result, ok, err, wrap, both, is, not_exist}
use georoute.System.{
  deferred, FilePath, named, World, Env, Sys, ◌>>=◌, ◌>>◌, pure, throw, attempt, or_else,
  create_temp, write_file, close, remove, read_file, frr_syntax_check, frr_reload, atomic_write,
}

abbrev pub backup_of : Result Bytes → Sys (Option Bytes)
backup_of (ok b) = pure (some b)
backup_of (err e) =
    if is e not_exist then pure none else throw (wrap (bytes "read live for backup") e)

-- The backup of the live file; none where there is no such file.
unfoldable pub read_backup : Bytes → Sys (Option Bytes)
read_backup live = do r ← attempt (read_file (named live)); backup_of r

abbrev pub rolled_back : Error → Result (Unit {0}) → Sys (Unit {0})
rolled_back e (err x) = throw (both (wrap (bytes "reload") e) (wrap (bytes "rollback reload") x))
rolled_back e (ok _) = throw (wrap (bytes "reload failed, backup restored") e)

-- The second reload, after the backup was put back.
abbrev pub resync : Bytes → Error → Result (Unit {0}) → Sys (Unit {0})
resync live e (err x) = throw (both (wrap (bytes "reload") e) (wrap (bytes "restore") x))
resync live e (ok _) = do r ← attempt (frr_reload (named live)); rolled_back e r

-- What follows the reload.
unfoldable pub after_reload : Bytes → Option Bytes → Result (Unit {0}) → Sys (Unit {0})
after_reload live backup (ok _) = pure tt
after_reload live none (err e) = throw (wrap (bytes "reload") e)
after_reload live (some b) (err e) = do r ← attempt (atomic_write live b); resync live e r

-- The swap, from the backup on.
unfoldable pub swap : Bytes → Bytes → Sys (Unit {0})
swap live new_contents = do
  backup ← read_backup live
  or_else (atomic_write live new_contents) (bytes "write live") (pure tt)
  r ← attempt (frr_reload (named live))
  after_reload live backup r

-- The staged file: written, closed and checked before the live one is touched.
unfoldable pub checked_swap : Bytes → Bytes → FilePath → Sys (Unit {0})
checked_swap live new_contents staged = do
  or_else (write_file staged new_contents) (bytes "write staging")
      (do attempt (close staged); pure tt)
  or_else (close staged) (bytes "close staging") (pure tt)
  or_else (frr_syntax_check staged) (bytes "syntax check") (pure tt)
  swap live new_contents

-- `applyFRRConfigOpts`, with `opts.skipReload` last.
unfoldable pub apply_frr_config_opts : Bytes → Bytes → Bool → Sys (Unit {0})
apply_frr_config_opts live new_contents true = atomic_write live new_contents
apply_frr_config_opts live new_contents false = do
  staged ← or_else (create_temp live) (bytes "create staging temp") (pure tt)
  deferred (checked_swap live new_contents staged) (remove staged)
