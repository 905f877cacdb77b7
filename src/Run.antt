-- ===== src/Run.antt =====
-- main.go's `run`: the fetch, the extras, the aggregation, and what follows them.
pub mod Specification
pub mod Landing
pub mod Laws
pub mod Rendering
use georoute.Base.{ℕ, Option, none, some, List, [], ◌∷◌, ◌++◌, length}
use georoute.Netip.{Bytes, Prefix}
use georoute.Text.{bytes}
use georoute.Errors.{Error, Result, ok, err}
use georoute.System.{Sys, ◌>>=◌, ◌>>◌, pure, or_else, watched}
use georoute.Flags.{CliFlags}
use georoute.Fetch.{FeedSource, fresh, cache}
use georoute.Fetch.Response.{RipeResp}
use georoute.Fetch.Cache.{Format, fetch_with_cache}
use georoute.Feeds.{parse_prefixes}
use georoute.Feeds.Load.{load_extras}
use georoute.Aggregate.{aggregate}
use georoute.Metrics.{Metrics, measured, timed, result_label, observe_fetch, set_prefix_count}
use georoute.Pipeline.{deploy}

-- `feedSource.String`; a failed fetch has the zero source.
abbrev source_string : Option FeedSource → Bytes
source_string (some fresh) = bytes "fresh"
source_string (some cache) = bytes "cache"
source_string none = bytes "unknown"

abbrev source_of : Result (RipeResp × FeedSource) → Option FeedSource
source_of (ok y) = some y.1
source_of (err e) = none

-- Both families' prefixes: the feed's, then the extras.
unfoldable pub merged : List Bytes → List Prefix → List Prefix
merged raw extras = aggregate (parse_prefixes raw ++ extras)

-- The gauges of the numbers of prefixes.
unfoldable pub set_counts :
    Metrics → RipeResp → List Prefix → List Prefix → List Prefix → List Prefix → Sys (Unit {0})
set_counts m raw extras_v4 extras_v6 v4 v6 = do
  set_prefix_count m (bytes "v4") (bytes "ripe") (length raw.ipv4)
  set_prefix_count m (bytes "v6") (bytes "ripe") (length raw.ipv6)
  set_prefix_count m (bytes "v4") (bytes "extras") (length extras_v4)
  set_prefix_count m (bytes "v6") (bytes "extras") (length extras_v6)
  set_prefix_count m (bytes "v4") (bytes "merged") (length v4)
  set_prefix_count m (bytes "v6") (bytes "merged") (length v6)

-- The parameters are the cache's format, `ctx.Err()`, and `applyIOSXEOverSSH`.
module _ (format : Format RipeResp) (cancel : Option Error)
    (push : CliFlags → Bytes → Sys (Unit {0})) where
  -- What follows the fetch and the loading of the extras.
  unfoldable pub continue :
      CliFlags → Option Metrics → RipeResp → List Prefix → List Prefix → Sys (Unit {0})
  continue f m raw extras_v4 extras_v6 =
      let v4 = merged raw.ipv4 extras_v4 in
      let v6 = merged raw.ipv6 extras_v6 in
      measured m (λ x. set_counts x raw extras_v4 extras_v6 v4 v6) >> deploy cancel push f m v4 v6

  -- What follows the fetch.
  unfoldable pub with_feed : CliFlags → Option Metrics → RipeResp → Sys (Unit {0})
  with_feed f m raw = do
    extras_v4 ← or_else (load_extras f.extras_v4_file 4) (bytes "load extras v4") (pure tt)
    extras_v6 ← or_else (load_extras f.extras_v6_file 6) (bytes "load extras v6") (pure tt)
    continue f m raw extras_v4 extras_v6

  -- `run`, from the outcome of `fetchWithRetry` on.
  unfoldable pub run : CliFlags → Option Metrics → Result RipeResp → Sys (Unit {0})
  run f m fetched = do
    y ←
        or_else
          (watched (fetch_with_cache format f.cache_file f.cache_max_age fetched) (λ r.
            measured m
              (λ x. timed (observe_fetch x (source_string (source_of r)) (result_label r)))))
          (bytes "fetch") (pure tt)
    with_feed f m y.0
