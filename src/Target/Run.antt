-- ===== src/Target/Run.antt =====
-- target.go: `writeTargetOutput` and `runTarget`.
use georoute.Base.{ℕ, ◌||◌, Option, none, some, List, ◌++◌, if◌then◌else◌, length}
use georoute.Netip.{Bytes, Prefix}
use georoute.Text.{bytes, bytes_eq}
use georoute.Errors.{Error, Result, ok, err, sentinel, detail, wrap, unsupported_target}
use georoute.System.{Sys, pure, throw, or_else, print, atomic_write}
use georoute.Flags.{CliFlags}
use georoute.Target.{
  is_empty, render_prefix_lines, render_iosxe_candidate, validate_iosxe_apply_guard,
}

unfoldable pub write_target_output : Bytes → Bytes → Sys (Unit {0})
write_target_output path contents =
    if is_empty path || bytes_eq path (bytes "-")
    then or_else (print (contents ++ bytes "\n")) (bytes "write stdout") (pure tt)
    else or_else (atomic_write path (contents ++ bytes "\n")) (bytes "write target output")
        (pure tt)

-- What the target renders.
unfoldable pub candidate_of : CliFlags → List Prefix → Result Bytes
candidate_of f l =
    if bytes_eq f.target (bytes "file")
    then ok (render_prefix_lines l)
    else if bytes_eq f.target (bytes "iosxe")
    then ok (render_iosxe_candidate f l)
    else err (detail (sentinel unsupported_target) f.target)

abbrev guarded : Result (Unit {0}) → Sys (Unit {0}) → Sys (Unit {0})
guarded (ok _) m = m
guarded (err e) m = throw e

-- What follows the rendering; the parameter is `applyIOSXEOverSSH`.
unfoldable pub deliver : (CliFlags → Bytes → Sys (Unit {0})) → CliFlags → ℕ → Bytes → Sys (Unit {0})
deliver push f count candidate =
    if f.dry_run
    then pure tt
    else if bytes_eq f.target_mode (bytes "render")
    then write_target_output f.target_output candidate
    else guarded (validate_iosxe_apply_guard f count) (push f candidate)

abbrev pub delivered :
    (CliFlags → Bytes → Sys (Unit {0})) → CliFlags → ℕ → Result Bytes → Sys (Unit {0})
delivered push f count (ok candidate) = deliver push f count candidate
delivered push f count (err e) = throw e

-- `runTarget`; the first argument is `ctx.Err()`.
unfoldable pub run_target :
    Option Error → (CliFlags → Bytes → Sys (Unit {0})) → CliFlags → List Prefix → Sys (Unit {0})
run_target (some e) push f l = throw (wrap (bytes "target context") e)
run_target none push f l = delivered push f (length l) (candidate_of f l)
