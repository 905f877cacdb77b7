-- ===== src/Run/Laws.antt =====
-- main.go's `run` with target frr.
use georoute.Base.{ℕ, ◌≡◌, refl, false, true, Option, List}
use georoute.Netip.{Bytes, Prefix}
use georoute.Text.{bytes, bytes_eq}
use georoute.Errors.{Error, Result}
use georoute.System.{named, World, Env, Sys}
use georoute.System.Hoare.{Post, Hoare, weaken}
use georoute.System.Files.{Stable}
use georoute.Flags.{CliFlags}
use georoute.Fetch.Response.{RipeResp}
use georoute.Fetch.Sources.{Starting}
use georoute.Fetch.Cache.{Format}
use georoute.Metrics.{Metrics}
use georoute.Pipeline.{deploy}
use georoute.Pipeline.Laws.{deploy_lem}
use georoute.Run.Specification.{OnFrr, Ran}
use georoute.Run.{run}
use georoute.Run.Landing.{run-RanTo}

module _ (format : Format RipeResp) (cancel : Option Error)
    (push : CliFlags → Bytes → Sys (Unit {0})) (env : Env) (f : CliFlags) (m : Option Metrics)
    (fetched : Result RipeResp) (before : Bytes → Option Bytes) (r : Option Bytes) (start : ℕ)
    (t : bytes_eq f.target (bytes "frr") ≡ true) where
  on_frr :
      (g : Bytes → Option Bytes) (v4 v6 : List Prefix)
      → Hoare env
          (Stable g r)
          (deploy cancel push f m v4 v6)
          (λ _. OnFrr f r true v4 v6 g)
          (λ _. OnFrr f r false v4 v6 g)
  on_frr g v4 v6 =
      weaken (λ w p. p) (λ u w p. (p.0, λ y. p.1)) (λ e w p. (p, λ y. cc y))
        (deploy_lem env g r f m v4 v6 cancel push t)

  pub run_lem :
      Hoare env
        (Starting format env before r start f.cache_file f.cache_max_age)
        (run format cancel push f m fetched)
        (λ _. Ran format env f fetched before r start true)
        (λ _. Ran format env f fetched before r start false)
  run_lem = run-RanTo format cancel push env f m fetched before r start (OnFrr f r) on_frr

-- With target frr, from any world, whatever the fetch gives and whatever call fails. The fetch
-- leaves every named file but the cache as it was. Either the run fails with just that, and FRR as
-- it was; or there is a feed, which is the one that was fetched or one that the cache held, young
-- enough, behind a failure that is no client error; the extras of each family are the scan of
-- their whole file as the fetch left it, or none without a path, and masked prefixes of that
-- family; each merged list holds just the addresses of the feed's prefixes and of the extras; and
-- frr.conf is the old one, or the old one with both blocks of the merged lists spliced in behind
-- the script of these lists, which nft took where it is to be updated; the other files are as the
-- fetch left them. A run that succeeds and is not dry has such a feed and such extras, nft took
-- the script where it is to, and frr.conf is the spliced text.
pub run-Ran :
    (format : Format RipeResp) (cancel : Option Error) (push : CliFlags → Bytes → Sys (Unit {0}))
    (env : Env) (w : World) (f : CliFlags) (m : Option Metrics) (fetched : Result RipeResp)
    → bytes_eq f.target (bytes "frr") ≡ true
    → Post
        (λ _. Ran format env f fetched (λ q. w.files (named q)) w.running w.clock true)
        (λ _. Ran format env f fetched (λ q. w.files (named q)) w.running w.clock false)
        (run format cancel push f m fetched env w)
run-Ran format cancel push env w f m fetched t =
    (run_lem format cancel push env f m fetched (λ q. w.files (named q)) w.running w.clock t).run w
      (((λ q. refl), refl), refl)
