-- ===== src/Fetch/Cache.antt =====
-- cache.go: `writeCachedFeed`, `readCachedFeed` and `fetchWithCache`.
use georoute.Base.{[], ◌∷◌, if◌then◌else◌, ℤ, greater, ◌||◌}
use georoute.Netip.{Bytes}
use georoute.Text.{bytes}
use georoute.Errors.{
  Error, Result, ok, err, sentinel, wrap, detail, both, is, not_exist, cache_missing, cache_stale,
}
use georoute.System.{
  named, Sys, ◌>>=◌, ◌>>◌, pure, throw, attempt, or_else, mkdir_all, create_temp, write_file, close,
  chmod, remove, rename, stat_age, read_file,
}
use georoute.Fetch.{FeedSource, fresh, cache, is_client_error}
use georoute.Target.{is_empty}

-- The file's format: `encode` is the compressed JSON, `partial` what is in the file before the
-- compressor is closed, `decode` the way back.
pub record Format (Feed : Type 0) : Type 0 where
  pub partial : Feed → Bytes
  pub encode : Feed → Bytes
  pub decode : Bytes → Result Feed

module _ {Feed : Type 0} (format : Format Feed) where
  unfoldable pub write_cached_feed : Bytes → Feed → Sys (Unit {0})
  write_cached_feed path feed = do
    or_else (mkdir_all path) (bytes "mkdir cache dir") (pure tt)
    tmp ← or_else (create_temp path) (bytes "create temp cache") (pure tt)
    or_else (write_file tmp (format.partial feed)) (bytes "encode cache")
        (do attempt (close tmp); remove tmp)
    or_else (write_file tmp (format.encode feed)) (bytes "close gzip")
        (do attempt (close tmp); remove tmp)
    or_else (chmod tmp) (bytes "chmod cache") (do attempt (close tmp); remove tmp)
    or_else (close tmp) (bytes "close cache") (remove tmp)
    or_else (rename tmp (named path)) (bytes "rename cache") (remove tmp)

  abbrev pub stat_result : Bytes → Result ℤ → Sys ℤ
  stat_result path (ok age) = pure age
  stat_result path (err e) =
      if is e not_exist
      then throw (detail (sentinel cache_missing) path)
      else throw (wrap (bytes "stat cache") e)

  abbrev pub decoded : Result Feed → Sys Feed
  decoded (ok feed) = pure feed
  decoded (err e) = throw (wrap (bytes "decode cache") e)

  -- The feed of a cache file that is not too old.
  unfoldable pub load : Bytes → ℤ → ℤ → Sys Feed
  load path max_age age =
      if greater age max_age then throw (detail (sentinel cache_stale) path) else do
        text ← or_else (read_file (named path)) (bytes "open cache") (pure tt)
        decoded (format.decode text)

  unfoldable pub read_cached_feed : Bytes → ℤ → Sys Feed
  read_cached_feed path max_age = do
    r ← attempt (stat_age (named path))
    age ← stat_result path r
    load path max_age age

  abbrev pub from_cache : Error → Result Feed → Sys (Feed × FeedSource)
  from_cache e (ok feed) = pure (feed, cache)
  from_cache e (err x) = throw (wrap (bytes "fetch failed and cache unusable") (both e x))

  abbrev pub store : Bytes → Feed → Sys (Unit {0})
  store [] feed = pure tt
  store (c ∷ path) feed = do attempt (write_cached_feed (c ∷ path) feed); pure tt

  -- `fetchWithCache`, from the outcome of `fetchWithRetry` on.
  unfoldable pub fetch_with_cache : Bytes → ℤ → Result Feed → Sys (Feed × FeedSource)
  fetch_with_cache path max_age (ok feed) = do store path feed; pure (feed, fresh)
  fetch_with_cache path max_age (err e) =
      if is_client_error e || is_empty path
      then throw e
      else do r ← attempt (read_cached_feed path max_age); from_cache e r
