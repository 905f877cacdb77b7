-- ===== src/Fetch/Kept.antt =====
-- cache.go: what the cache does to the files.
use georoute.Base.{refl, Option, ◌≡◌, Bool-cases, inl, inr, [], ◌∷◌, ℤ, greater, ◌||◌}
use georoute.Netip.{Bytes}
use georoute.Text.{bytes}
use georoute.Errors.{Error, Result, ok, err, is, not_exist}
use georoute.System.{
  stat_age, FilePath, named, World, Env, ◌>>◌, pure, or_else, attempt, write_file, chmod, close,
  rename, remove,
}
use georoute.System.Hoare.{Post, Hoare, bind_lem, or_else_lem, attempt_lem, weaken, given, if_lem}
use georoute.System.Files.{
  Stable, Replaced, IsTemp, mkdir_all_lem, create_temp_lem, write_file_lem, chmod_lem, close_lem,
  remove_lem, rename_lem,
}
use georoute.System.AtomicWrite.{discard, step}
use georoute.Rollback.Specification.{read_file_lem}
use georoute.Target.{is_empty}
use georoute.Fetch.{is_client_error, fresh}
use georoute.Fetch.Sources.{Starting, stat_age_lem}
use georoute.Fetch.Cache.{
  Format, write_cached_feed, stat_result, decoded, load, read_cached_feed, from_cache, store,
  fetch_with_cache,
}

-- The named files are those of `g` but for one, and FRR runs `r`.
abbrev pub Kept : (Bytes → Option Bytes) → Option Bytes → Bytes → World → Type 0
Kept g r path w = ((q : Bytes) → ¬ (path ≡ q) → w.files (named q) ≡ g q) × (w.running ≡ r)

Stable-Kept :
    (g : Bytes → Option Bytes) (r : Option Bytes) (path : Bytes) (w : World)
    → Stable g r w
    → Kept g r path w
Stable-Kept g r path w h = ((λ q o. h.0 q), h.1)

module _ {Feed : Type 0} (format : Format Feed) (env : Env) (g : Bytes → Option Bytes)
    (r : Option Bytes) (path : Bytes) where
  nothing : Hoare env (Stable g r) (pure {A = Unit {0}} tt) (λ _. Stable g r) (λ _. Stable g r)
  nothing = record { run = λ w h. h }

  staged :
      (feed : Feed) (tmp : FilePath)
      → IsTemp tmp
      → Hoare env
          (Stable g r)
          (or_else
              (write_file tmp (format.partial feed))
              (bytes "encode cache")
              (attempt (close tmp) >> remove tmp)
            >> (or_else
                  (write_file tmp (format.encode feed))
                  (bytes "close gzip")
                  (attempt (close tmp) >> remove tmp)
                >> (or_else (chmod tmp) (bytes "chmod cache") (attempt (close tmp) >> remove tmp)
                    >> (or_else (close tmp) (bytes "close cache") (remove tmp)
                        >> or_else (rename tmp (named path)) (bytes "rename cache") (remove tmp)))))
          (λ _. Replaced g r path (format.encode feed))
          (λ _. Stable g r)
  staged feed tmp t =
      bind_lem
        (weaken (λ w h. h) (λ a w h. h.0) (λ e w h. h)
          (step env g r _ _ (write_file_lem env g r tmp (format.partial feed) t)
            (discard env g r tmp t)))
        (λ z.
          bind_lem
            (step env g r _ _ (write_file_lem env g r tmp (format.encode feed) t)
              (discard env g r tmp t))
            (λ a.
              bind_lem
                (step env g r _ _ (chmod_lem env g r tmp tmp (format.encode feed))
                  (discard env g r tmp t))
                (λ b.
                  bind_lem
                    (step env g r _ _ (close_lem env g r tmp tmp (format.encode feed))
                      (remove_lem env g r tmp t))
                    (λ d.
                      step env g r _ _ (rename_lem env g r tmp path (format.encode feed) t)
                        (remove_lem env g r tmp t)))))

  -- The cache file becomes the whole encoded feed, or no named file changes.
  pub write_cached_feed_lem :
      (feed : Feed)
      → Hoare env
          (Stable g r)
          (write_cached_feed format path feed)
          (λ _. Replaced g r path (format.encode feed))
          (λ _. Stable g r)
  unfolding write_cached_feed
  write_cached_feed_lem feed =
      bind_lem (step env g r _ _ (mkdir_all_lem env g r path) nothing) (λ _.
        bind_lem
          (or_else_lem (Stable g r) (bytes "create temp cache") (create_temp_lem env g r path)
            nothing (λ e w h. h) (λ e w h. h))
          (λ tmp. given (staged feed tmp)))

  written :
      (x : Result (Unit {0})) (c : Bytes) (w : World)
      → Post (λ _. Replaced g r path c) (λ _. Stable g r) (w, x)
      → Kept g r path w
  written (ok a) c w h = (h.1, h.2)
  written (err e) c w h = Stable-Kept g r path w h

module _ {Feed : Type 0} (format : Format Feed) (env : Env) (g : Bytes → Option Bytes)
    (r : Option Bytes) where
  store_kept :
      (path : Bytes) (feed : Feed)
      → Hoare env (Stable g r) (store format path feed) (λ _. Kept g r path) (λ _. Kept g r path)
  store_kept [] feed = record { run = λ w h. Stable-Kept g r [] w h }
  store_kept (c ∷ path) feed =
      bind_lem {f = λ _. pure tt}
        (attempt_lem {F = λ _. Kept g r (c ∷ path)}
          (write_cached_feed_lem format env g r (c ∷ path) feed))
        (λ x. record { run = λ w h. written format env g r (c ∷ path) x (format.encode feed) w h })

  module _ (path : Bytes) (max_age : ℤ) where
    stat_result_kept :
        (x : Result ℤ)
        → Hoare env
            (λ w. Post (λ _. Stable g r) (λ _. Stable g r) (w, x))
            (stat_result format path x)
            (λ _. Stable g r)
            (λ _. Stable g r)
    stat_result_kept (ok age) = record { run = λ w h. h }
    stat_result_kept (err e) = elim (Bool-cases (is e not_exist)) [
      | inl y ↦ rw y (record { run = λ w h. h })
      | inr n ↦ rw n (record { run = λ w h. h })
    ]

    decoded_kept :
        (x : Result Feed)
        → Hoare env (Stable g r) (decoded format x) (λ _. Stable g r) (λ _. Stable g r)
    decoded_kept (ok feed) = record { run = λ w h. h }
    decoded_kept (err e) = record { run = λ w h. h }

    load_kept :
        (age : ℤ)
        → Hoare env (Stable g r) (load format path max_age age) (λ _. Stable g r) (λ _. Stable g r)
    unfolding load
    load_kept age =
        if_lem (greater age max_age) (λ y. record { run = λ w h. h })
          (λ n.
            bind_lem {f = λ text. decoded format (format.decode text)}
              (or_else_lem (Stable g r) (bytes "open cache")
                (weaken (λ w h. h) (λ b w h. h.0) (λ e w h. h) (read_file_lem env g r path))
                (record { run = λ w h. h }) (λ e w h. h) (λ e w h. h))
              (λ text. decoded_kept (format.decode text)))

    stat_age_kept :
        Hoare env (Stable g r) (stat_age (named path)) (λ _. Stable g r) (λ _. Stable g r)
    stat_age_kept = record {
      run = λ w h.
          (weaken {P' = Starting format env g r w.clock path max_age} (λ v k. k) (λ a v k. k.1)
              (λ e v k. k) (stat_age_lem format env g r w.clock path max_age)).run
            w (h, refl);
    }

    read_cached_feed_kept :
        Hoare env
          (Stable g r)
          (read_cached_feed format path max_age)
          (λ _. Stable g r)
          (λ _. Stable g r)
    unfolding read_cached_feed
    read_cached_feed_kept =
        bind_lem (attempt_lem {F = λ _. Stable g r} stat_age_kept)
          (λ x. bind_lem (stat_result_kept x) load_kept)

    from_cache_kept :
        (e : Error) (x : Result Feed)
        → Hoare env
            (λ w. Post (λ _. Stable g r) (λ _. Stable g r) (w, x))
            (from_cache format e x)
            (λ _. Kept g r path)
            (λ _. Kept g r path)
    from_cache_kept e (ok feed) = record { run = λ w h. Stable-Kept g r path w h }
    from_cache_kept e (err x) = record { run = λ w h. Stable-Kept g r path w h }

    -- The fetch with its cache changes no named file but the cache, and not what FRR runs.
    pub fetch_with_cache_kept :
        (fetched : Result Feed)
        → Hoare env
            (Stable g r)
            (fetch_with_cache format path max_age fetched)
            (λ _. Kept g r path)
            (λ _. Kept g r path)
    unfolding fetch_with_cache
    fetch_with_cache_kept (ok feed) =
        bind_lem {f = λ _. pure (feed, fresh)} (store_kept path feed)
          (λ _. record { run = λ w h. h })
    fetch_with_cache_kept (err e) =
        if_lem (is_client_error e || is_empty path)
          (λ y. record { run = λ w h. Stable-Kept g r path w h })
          (λ n.
            bind_lem (attempt_lem {F = λ _. Kept g r path} read_cached_feed_kept)
              (λ x. from_cache_kept e x))
