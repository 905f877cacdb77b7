-- ===== src/Fetch/Stored.antt =====
-- cache.go's `writeCachedFeed` in front of `readCachedFeed`.
use mathlib.Core.Path.{subst}
use georoute.Base.{◌+◌, ◌≡◌, refl, false, none, some, ℤ, greater}
use georoute.Netip.{Bytes}
use georoute.Errors.{Result, ok, err}
use georoute.System.{named, World, Env, stat_age, read_file, or_else}
use georoute.System.Hoare.{Post}
use georoute.System.Files.{Stable, Replaced}
use georoute.Fetch.Kept.{write_cached_feed_lem}
use georoute.Fetch.Cache.{Format, load, read_cached_feed, write_cached_feed}

module _ {Feed : Type 0} (format : Format Feed) (env : Env) (path : Bytes) (max_age : ℤ)
    (feed : Feed) where
  read_lem :
      (v : World)
      → v.files (named path) ≡ some (format.encode feed)
      → format.decode (format.encode feed) ≡ ok feed
      → env.fault v.clock ≡ none
      → env.fault (v.clock + 1) ≡ none
      → greater (env.age v.clock (named path)) max_age ≡ false
      → (read_cached_feed format path max_age env v).1 ≡ ok feed
  unfolding read_cached_feed stat_age load read_file or_else
  read_lem v at back first second young = rw (at, first, young, at, second, back) refl

  replaced :
      (w v : World)
      → write_cached_feed format path feed env w ≡ (v, ok tt)
      → v.files (named path) ≡ some (format.encode feed)
  replaced w v e =
      let written =
        (write_cached_feed_lem format env (λ q. w.files (named q)) w.running path feed).run w
          ((λ q. refl), refl) in
      (subst
        (Post (λ _. Replaced (λ q. w.files (named q)) w.running path (format.encode feed))
          (λ _ _. Unit {0}))
        e (weakened (write_cached_feed format path feed env w) written)).0
    where
      weakened :
          (x : World × Result (Unit {0}))
          → Post
              (λ _. Replaced (λ q. w.files (named q)) w.running path (format.encode feed))
              (λ _. Stable (λ q. w.files (named q)) w.running)
              x
          → Post
              (λ _. Replaced (λ q. w.files (named q)) w.running path (format.encode feed))
              (λ _ _. Unit {0})
              x
      weakened (u, ok a) h = h
      weakened (u, err d) h = tt

  -- Where the format's decoder undoes its encoder: a feed that has been written to the cache is what
  -- a reading right after it gives, if the two calls of that reading work and the file is not older
  -- than the limit.
  pub read_cached_feed-write_cached_feed :
      (w v : World)
      → format.decode (format.encode feed) ≡ ok feed
      → write_cached_feed format path feed env w ≡ (v, ok tt)
      → env.fault v.clock ≡ none
      → env.fault (v.clock + 1) ≡ none
      → greater (env.age v.clock (named path)) max_age ≡ false
      → (read_cached_feed format path max_age env v).1 ≡ ok feed
  read_cached_feed-write_cached_feed w v back e first second young =
      read_lem v (replaced w v e) back first second young
