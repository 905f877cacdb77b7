-- ===== src/Run/Rendering.antt =====
-- main.go's `run` with any target but frr, in render mode.
use georoute.Base.{◌≡◌, refl, true, false, Option, none, some, List, ◌⊎◌, inl, inr, length}
use georoute.Netip.{Bytes, Prefix}
use georoute.Text.{bytes, bytes_eq}
use georoute.Errors.{Error, Result, ok, err}
use georoute.System.{named, World, Env, Sys}
use georoute.System.Hoare.{Post, Hoare, weaken, if_lem}
use georoute.System.Files.{Stable}
use georoute.Flags.{CliFlags}
use georoute.Fetch.Response.{RipeResp}
use georoute.Fetch.Cache.{Format}
use georoute.Metrics.{Metrics}
use georoute.Target.Run.{candidate_of, deliver, delivered, run_target}
use georoute.Target.Output.{Output, write_target_output-Output}
use georoute.Pipeline.{deploy}
use georoute.Run.Specification.{Landing, RanTo}
use georoute.Run.Landing.{run-RanTo}
use georoute.Run.{run}

-- A failure has changed nothing, and neither has a dry run; else the output has what the target
-- renders of the merged IPv4 list.
abbrev pub Rendered : CliFlags → Option Bytes → Landing
Rendered f r false v4 v6 g w = Stable g r w
Rendered f r true v4 v6 g w =
    ((f.dry_run ≡ true) × Stable g r w)
    ⊎ ((f.dry_run ≡ false)
        × (c : Bytes) × (candidate_of f v4 ≡ ok c)
        × Output g r f.target_output c w)

module _ (cancel : Option Error) (push : CliFlags → Bytes → Sys (Unit {0})) (env : Env)
    (f : CliFlags) (r : Option Bytes) (renders : bytes_eq f.target_mode (bytes "render") ≡ true)
    (g : Bytes → Option Bytes) (v4 v6 : List Prefix) where
  abbrev Renders : Sys (Unit {0}) → Type 0
  Renders x =
      Hoare env (Stable g r) x (λ _. Rendered f r true v4 v6 g) (λ _. Rendered f r false v4 v6 g)

  deliver_lem : (c : Bytes) → candidate_of f v4 ≡ ok c → Renders (deliver push f (length v4) c)
  unfolding deliver
  deliver_lem c e = rw renders (
      if_lem f.dry_run (λ y. record { run = λ w h. inl (y, h) })
        (λ n.
          weaken (λ w h. h) (λ a w h. inr (n, c, e, h)) (λ d w h. h)
            (write_target_output-Output env g r f.target_output c)))

  delivered_lem :
      (x : Result Bytes) → candidate_of f v4 ≡ x → Renders (delivered push f (length v4) x)
  delivered_lem (ok c) e = deliver_lem c e
  delivered_lem (err d) e = record { run = λ w h. h }

  run_target_lem : (x : Option Error) → Renders (run_target x push f v4)
  unfolding run_target
  run_target_lem none = delivered_lem (candidate_of f v4) refl
  run_target_lem (some e) = record { run = λ w h. h }

  deploy_lem :
      (m : Option Metrics)
      → bytes_eq f.target (bytes "frr") ≡ false
      → Renders (deploy cancel push f m v4 v6)
  unfolding deploy
  deploy_lem m t = rw t (run_target_lem cancel)

-- With any target but frr, in render mode, from any world, whatever the fetch gives and whatever
-- call fails. The fetch leaves every named file but the cache as it was. A run that fails has
-- changed no file since, and FRR is as it was; and so it is with a run that succeeds and is dry.
-- Any other run that succeeds has a feed and extras as with target frr, and merged lists of just
-- their addresses, and what the target renders of the merged IPv4 list is printed, or is now the
-- output file; FRR runs what it ran, and every other file is as the fetch left it.
pub run-Rendered :
    (format : Format RipeResp) (cancel : Option Error) (push : CliFlags → Bytes → Sys (Unit {0}))
    (env : Env) (w : World) (f : CliFlags) (m : Option Metrics) (fetched : Result RipeResp)
    → bytes_eq f.target (bytes "frr") ≡ false
    → bytes_eq f.target_mode (bytes "render") ≡ true
    → Post
        (λ _.
          RanTo
            (Rendered f w.running)
            format
            env
            f
            fetched
            (λ q. w.files (named q))
            w.running
            w.clock
            true)
        (λ _.
          RanTo
            (Rendered f w.running)
            format
            env
            f
            fetched
            (λ q. w.files (named q))
            w.running
            w.clock
            false)
        (run format cancel push f m fetched env w)
run-Rendered format cancel push env w f m fetched t renders =
    (run-RanTo format cancel push env f m fetched (λ q. w.files (named q)) w.running w.clock
        (Rendered f w.running)
        (λ g v4 v6. deploy_lem cancel push env f w.running renders g v4 v6 m t)).run
      w (((λ q. refl), refl), refl)
