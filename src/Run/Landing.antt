-- ===== src/Run/Landing.antt =====
-- main.go's `run` over what its target promises.
use georoute.Base.{All, ℕ, ◌≡◌, refl, Bool, false, true, Option, List, ◌⊎◌, inl, inr}
use georoute.Netip.{Bytes, Prefix, IsMasked}
use georoute.Text.{bytes}
use georoute.Errors.{Error, Result, ok, err}
use georoute.System.{named, World, Env, Sys, ◌>>=◌, pure, or_else}
use georoute.System.Hoare.{both_lem, Post, Hoare, bind_lem, or_else_lem, weaken, given}
use georoute.System.Files.{Stable}
use georoute.Flags.{CliFlags}
use georoute.Fetch.{FeedSource}
use georoute.Fetch.Response.{RipeResp}
use georoute.Fetch.Cache.{Format, fetch_with_cache}
use georoute.Fetch.Sources.{Origin, Starting, fetch_with_cache_lem}
use georoute.Fetch.Kept.{Kept, fetch_with_cache_kept}
use georoute.Feeds.Load.{load_extras}
use georoute.Feeds.Loading.{Extras, load_extras_lem}
use georoute.Metrics.{Metrics}
use georoute.Metrics.Laws.{
  Reports, both-Reports, measured-Reports, timed-Reports, watched_lem, observe_fetch-Reports,
  set_prefix_count-Reports,
}
use georoute.Pipeline.{deploy}
use georoute.Feeds.Extras.{Accepted}
use georoute.Feeds.Loaded.{Extras-Accepted, masks_of}
use georoute.Feeds.Laws.{feed_aggregate-covers}
use georoute.Run.Specification.{IsExact, Landing, Delivered, RanTo}
use georoute.Run.{merged, set_counts, continue, with_feed, run}

exact_lem : (raw : List Bytes) (extras : List Prefix) → All IsMasked extras → IsExact raw extras
unfolding merged
exact_lem raw extras m = λ a v. feed_aggregate-covers raw extras a m v

module _ (format : Format RipeResp) (cancel : Option Error)
    (push : CliFlags → Bytes → Sys (Unit {0})) (env : Env) (f : CliFlags) (m : Option Metrics)
    (fetched : Result RipeResp) (before : Bytes → Option Bytes) (r : Option Bytes) (start : ℕ)
    (Landed : Landing)
    (deploys : (g : Bytes → Option Bytes) (v4 v6 : List Prefix)
      → Hoare env
          (Stable g r)
          (deploy cancel push f m v4 v6)
          (λ _. Landed true v4 v6 g)
          (λ _. Landed false v4 v6 g)) where
  counts-Reports :
      (x : Metrics) (raw : RipeResp) (a b c d : List Prefix) → Reports (set_counts x raw a b c d)
  unfolding set_counts
  counts-Reports x raw a b c d = both-Reports (set_prefix_count-Reports x _ _ _) (
      both-Reports (set_prefix_count-Reports x _ _ _) (
        both-Reports (set_prefix_count-Reports x _ _ _) (
          both-Reports (set_prefix_count-Reports x _ _ _)
            (both-Reports (set_prefix_count-Reports x _ _ _) (set_prefix_count-Reports x _ _ _)))))

  module _ (g : Bytes → Option Bytes) where
    -- The run is over, with or without success.
    abbrev Done : Bool → World → Type 0
    Done b w =
        ((b ≡ false) × Stable g r w) ⊎ Delivered Landed format env f fetched before r start b g w

    module _ (raw : RipeResp) (source : FeedSource)
        (origin : Origin format env before r start f.cache_file f.cache_max_age fetched raw
          source) where
      delivering :
          (a b : List Prefix)
          → Extras g f.extras_v4_file 4 a
          → Extras g f.extras_v6_file 6 b
          → Hoare env
              (Stable g r)
              (deploy cancel push f m (merged raw.ipv4 a) (merged raw.ipv6 b))
              (λ _. Done true)
              (λ _. Done false)
      delivering a b h k =
          weaken (λ w p. p) (λ u w p. inr (delivered p)) (λ e w p. inr (delivered p))
            (deploys g (merged raw.ipv4 a) (merged raw.ipv6 b))
        where
          from_v4 : All (Accepted 4) a
          from_v4 = Extras-Accepted g f.extras_v4_file 4 a h

          from_v6 : All (Accepted 6) b
          from_v6 = Extras-Accepted g f.extras_v6_file 6 b k

          delivered :
              {c : Bool} {w : World}
              → Landed c (merged raw.ipv4 a) (merged raw.ipv6 b) g w
              → Delivered Landed format env f fetched before r start c g w
          delivered p = record {
            feed = raw;
            source = source;
            origin = origin;
            extras_v4 = a;
            extras_v6 = b;
            loaded_v4 = h;
            loaded_v6 = k;
            accepted = (from_v4, from_v6);
            exact = (
              exact_lem raw.ipv4 a (masks_of 4 a from_v4),
              exact_lem raw.ipv6 b (masks_of 6 b from_v6),
            );
            landed = p;
          }

      continue_lem :
          (a b : List Prefix)
          → Extras g f.extras_v4_file 4 a
          → Extras g f.extras_v6_file 6 b
          → Hoare env
              (Stable g r)
              (continue format cancel push f m raw a b)
              (λ _. Done true)
              (λ _. Done false)
      unfolding continue
      continue_lem a b h k =
          bind_lem
            (weaken (λ w p. p) (λ u w p. p) (λ e w p. absurd p)
              ((measured-Reports m (λ x. counts-Reports x raw a b _ _)).keeps env (Stable g r)
                (λ w ms n p. p)))
            (λ _. delivering a b h k)

      nothing : Hoare env (Stable g r) (pure {A = Unit {0}} tt) (λ _. Stable g r) (λ _. Stable g r)
      nothing = record { run = λ w p. p }

      -- An extras file in front of the rest.
      loading :
          (path : Bytes) (family : ℕ) (context : Bytes) {rest : List Prefix → Sys (Unit {0})}
          → ((l : List Prefix)
              → Extras g path family l
              → Hoare env (Stable g r) (rest l) (λ _. Done true) (λ _. Done false))
          → Hoare env
              (Stable g r)
              (or_else (load_extras path family) context (pure tt) >>= rest)
              (λ _. Done true)
              (λ _. Done false)
      loading path family context h =
          bind_lem
            (or_else_lem (Stable g r) context (load_extras_lem env g r path family) nothing
              (λ e w p. p) (λ e w p. inl (refl, p)))
            (λ l. given (h l))

      with_feed_lem :
          Hoare env
            (Stable g r)
            (with_feed format cancel push f m raw)
            (λ _. Done true)
            (λ _. Done false)
      unfolding with_feed
      with_feed_lem =
          loading f.extras_v4_file 4 (bytes "load extras v4") (λ a h.
            loading f.extras_v6_file 6 (bytes "load extras v6") (λ b k. continue_lem a b h k))

  -- What the fetch guarantees: the origin of its feed, and the files but for the cache.
  fetched_lem :
      Hoare env
        (Starting format env before r start f.cache_file f.cache_max_age)
        (fetch_with_cache format f.cache_file f.cache_max_age fetched)
        (λ y w.
          Origin format env before r start f.cache_file f.cache_max_age fetched y.0 y.1
          × Kept before r f.cache_file w)
        (λ _. Kept before r f.cache_file)
  fetched_lem =
      weaken (λ w p. p) (λ y w p. p) (λ e w p. p.1)
        (both_lem
          (fetch_with_cache_lem format env before r start f.cache_file f.cache_max_age fetched)
          (weaken {P' = Starting format env before r start f.cache_file f.cache_max_age}
            (λ w p. p.0) (λ a w p. p) (λ e w p. p)
            (fetch_with_cache_kept format env before r f.cache_file f.cache_max_age fetched)))

  ran_lem :
      (raw : RipeResp) (source : FeedSource)
      → Hoare env
          (λ w.
            Origin format env before r start f.cache_file f.cache_max_age fetched raw source
            × Kept before r f.cache_file w)
          (with_feed format cancel push f m raw)
          (λ _. RanTo Landed format env f fetched before r start true)
          (λ _. RanTo Landed format env f fetched before r start false)
  ran_lem raw source = record {
    run = λ w h.
        ran w h.1 (with_feed format cancel push f m raw env w)
          ((with_feed_lem (λ q. w.files (named q)) raw source h.0).run w ((λ q. refl), h.1.1));
  }
    where
      ran :
          (w : World)
          → Kept before r f.cache_file w
          → (x : World × Result (Unit {0}))
          → Post
              (λ _. Done (λ q. w.files (named q)) true)
              (λ _. Done (λ q. w.files (named q)) false)
              x
          → Post
              (λ _. RanTo Landed format env f fetched before r start true)
              (λ _. RanTo Landed format env f fetched before r start false)
              x
      ran w k (v, ok a) d = record { left = λ q. w.files (named q); kept = k.0; ended = d }
      ran w k (v, err e) d = record { left = λ q. w.files (named q); kept = k.0; ended = d }

  without_feed :
      (w : World)
      → Kept before r f.cache_file w
      → RanTo Landed format env f fetched before r start false w
  without_feed w k = record {
    left = λ q. w.files (named q);
    kept = k.0;
    ended = inl (refl, ((λ q. refl), k.1));
  }

  -- Whatever the target promises of its part, a run promises behind its fetch and its extras.
  pub run-RanTo :
      Hoare env
        (Starting format env before r start f.cache_file f.cache_max_age)
        (run format cancel push f m fetched)
        (λ _. RanTo Landed format env f fetched before r start true)
        (λ _. RanTo Landed format env f fetched before r start false)
  unfolding run
  run-RanTo =
      bind_lem
        (or_else_lem (Kept before r f.cache_file) (bytes "fetch")
          (watched_lem
            {Q = λ y w.
              Origin format env before r start f.cache_file f.cache_max_age fetched y.0 y.1
              × Kept before r f.cache_file w}
            {E = λ _. Kept before r f.cache_file} (λ a w ms n h. h) (λ e w ms n h. h)
            (λ x. measured-Reports m (λ k. timed-Reports (λ d. observe_fetch-Reports k _ _ d)))
            fetched_lem)
          (record { run = λ w h. h }) (λ e w h. h) (λ e w h. without_feed w h))
        (λ y. ran_lem y.0 y.1)
