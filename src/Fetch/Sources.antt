-- ===== src/Fetch/Sources.antt =====
-- cache.go's `fetchWithCache`: where its feed comes from.
use georoute.Base.{
  ℕ, ap, sym, ◌∙◌, Bool, true, false, Bool-cases, inl, inr, ◌≡◌, refl, Option, none, some, [], ◌∷◌,
  ℤ, greater, ◌||◌,
}
use georoute.Netip.{Bytes}
use georoute.Text.{bytes}
use georoute.Errors.{Error, Result, ok, err, is, not_exist}
use georoute.System.{
  named, World, Env, ◌>>=◌, pure, throw, or_else, stat_age, read_file, stat_ended, tick,
}
use georoute.System.Hoare.{Post, Hoare, bind_lem, or_else_lem, attempt_lem, given}
use georoute.System.Files.{Stable}
use georoute.Rollback.Specification.{read_file_lem}
use georoute.Target.{is_empty}
use georoute.Fetch.{FeedSource, fresh, cache, is_client_error}
use georoute.Fetch.Cache.{
  Format, stat_result, decoded, load, read_cached_feed, from_cache, store, fetch_with_cache,
}

Anything : Error → World → Type 0
Anything e w = Unit {0}

throw_any {ℓ} :
    {A : Type ℓ} {env : Env} {P : World → Type 0} {Q : A → World → Type 0} (e : Error)
    → Hoare env P (throw {A = A} e) Q Anything
unfolding Anything
throw_any e = record { run = λ w h. tt }

stat_lem :
    (f : Bytes → Option Bytes) (r : Option Bytes) (w : World) (age shown : ℤ) (o : Option Bytes)
    (x : Option Error)
    → shown ≡ age
    → Stable f r w
    → Post (λ a v. (a ≡ age) × Stable f r v) (λ _. Stable f r) (stat_ended w shown o x)
stat_lem f r w age shown none none same h = h
stat_lem f r w age shown (some b) none same h = (same, h)
stat_lem f r w age shown o (some e) same h = h

module _ {Feed : Type 0} (format : Format Feed) (env : Env) (f : Bytes → Option Bytes)
    (r : Option Bytes) (start : ℕ) (path : Bytes) (max_age : ℤ) where
  -- The age of the cache file as the call tells it that is made first.
  abbrev age_then : ℤ
  age_then = env.age start (named path)

  -- The files are those of `f`, and no call has been made.
  abbrev pub Starting : World → Type 0
  Starting w = Stable f r w × (w.clock ≡ start)

  -- The feed that the cache file holds, where its age is not too old.
  abbrev pub Cached : Feed → Type 0
  Cached feed =
      (text : Bytes) × (greater age_then max_age ≡ false)
      × (f path ≡ some text)
      × (format.decode text ≡ ok feed)

  pub stat_age_lem :
      Hoare env Starting
        (stat_age (named path))
        (λ age w. (age ≡ age_then) × Stable f r w)
        (λ _. Stable f r)
  unfolding stat_age
  stat_age_lem = record {
    run = λ w h.
        stat_lem f r (tick w) age_then (env.age w.clock (named path)) (w.files (named path))
          (env.fault w.clock) (ap (λ n. env.age n (named path)) h.1) h.0;
  }

  stat_result_lem :
      (x : Result ℤ)
      → Hoare env
          (λ w. Post (λ age v. (age ≡ age_then) × Stable f r v) (λ _. Stable f r) (w, x))
          (stat_result format path x)
          (λ age w. (age ≡ age_then) × Stable f r w)
          Anything
  stat_result_lem (ok age) = record { run = λ w h. h }
  stat_result_lem (err e) = elim (Bool-cases (is e not_exist)) [
    | inl y ↦ rw y (throw_any _)
    | inr n ↦ rw n (throw_any _)
  ]

  decoded_lem :
      (text : Bytes) (x : Result Feed)
      → greater age_then max_age ≡ false
      → format.decode text ≡ x
      → Hoare env
          (λ w. Stable f r w × (f path ≡ some text))
          (decoded format x)
          (λ feed _. Cached feed)
          Anything
  decoded_lem text (ok feed) g d = record { run = λ w h. (text, g, h.1, d) }
  decoded_lem text (err e) g d = throw_any _

  loading :
      greater age_then max_age ≡ false
      → Hoare env
          (Stable f r)
          (or_else (read_file (named path)) (bytes "open cache") (pure tt)
            >>= (λ text. decoded format (format.decode text)))
          (λ feed _. Cached feed)
          Anything
  unfolding Anything
  loading g =
      bind_lem
        (or_else_lem (Stable f r) (bytes "open cache") (read_file_lem env f r path)
          (record { run = λ w h. h }) (λ e w h. h) (λ e w h. tt))
        (λ text. decoded_lem text (format.decode text) g refl)

  load_lem :
      (age : ℤ)
      → age ≡ age_then
      → Hoare env (Stable f r) (load format path max_age age) (λ feed _. Cached feed) Anything
  unfolding load
  load_lem age same = elim (Bool-cases (greater age max_age)) [
    | inl y ↦ rw y (throw_any _)
    | inr n ↦ rw n (loading (ap (λ a. greater a max_age) (sym same) ∙ n))
  ]

  read_cached_feed_lem :
      Hoare env Starting (read_cached_feed format path max_age) (λ feed _. Cached feed) Anything
  unfolding read_cached_feed
  read_cached_feed_lem =
      bind_lem (attempt_lem {F = Anything} stat_age_lem)
        (λ x. bind_lem (stat_result_lem x) (λ age. given (load_lem age)))

  -- The origin of a result: a fresh feed is what the fetch gave; a cached one is served after a
  -- failed fetch that is no client error, from the file that was there.
  abbrev pub Origin : Result Feed → Feed → FeedSource → Type 0
  Origin fetched feed fresh = fetched ≡ ok feed
  Origin fetched feed cache =
      (e : Error) × (fetched ≡ err e)
      × (is_client_error e ≡ false)
      × (is_empty path ≡ false)
      × Cached feed

  -- An error of the whole means that the fetch failed.
  abbrev pub Failure : Result Feed → Error → World → Type 0
  Failure fetched e w = (x : Error) × (fetched ≡ err x)

  store_lem :
      (feed : Feed) (fetched : Result Feed) (p : Bytes)
      → Hoare env Starting (store format p feed) (λ _ _. Unit {0}) (Failure fetched)
  store_lem feed fetched [] = record { run = λ w h. tt }
  store_lem feed fetched (c ∷ p) = record { run = λ w h. tt }

  from_cache_lem :
      (e : Error) (x : Result Feed)
      → is_client_error e ≡ false
      → is_empty path ≡ false
      → Hoare env
          (λ w. Post (λ feed _. Cached feed) Anything (w, x))
          (from_cache format e x)
          (λ y _. Origin (err e) y.0 y.1)
          (Failure (err e))
  from_cache_lem e (ok feed) c p = record { run = λ w h. (e, refl, c, p, h) }
  from_cache_lem e (err x) c p = record { run = λ w h. (e, refl) }

  parts : (a b : Bool) → a || b ≡ false → (a ≡ false) × (b ≡ false)
  parts true b h = cc h
  parts false b h = (refl, h)

  pub fetch_with_cache_lem :
      (fetched : Result Feed)
      → Hoare env Starting
          (fetch_with_cache format path max_age fetched)
          (λ y _. Origin fetched y.0 y.1)
          (Failure fetched)
  unfolding fetch_with_cache
  fetch_with_cache_lem (ok feed) =
      bind_lem {f = λ _. pure (feed, fresh)} (store_lem feed (ok feed) path)
        (λ _. record { run = λ w h. refl })
  fetch_with_cache_lem (err e) = elim (Bool-cases (is_client_error e || is_empty path)) [
    | inl y ↦ rw y (record { run = λ w h. (e, refl) })
    | inr n ↦ rw n (
        bind_lem (attempt_lem {F = Failure (err e)} read_cached_feed_lem) (λ x.
          from_cache_lem e x (parts (is_client_error e) (is_empty path) n).0
            (parts (is_client_error e) (is_empty path) n).1))
  ]

-- From any world and whatever call fails. A feed that is called fresh is the one that was fetched;
-- one that is called cached is served only after a fetch failed with no client error, from the
-- cache file as it was, whose age, as the first call tells it, is at most the limit; and there is an error only where the fetch
-- failed, so never because the cache could not be written.
pub fetch_with_cache-Origin :
    {Feed : Type 0} (format : Format Feed) (env : Env) (w : World) (path : Bytes) (max_age : ℤ)
    (fetched : Result Feed)
    → Post
        (λ y _.
          Origin format env (λ q. w.files (named q)) w.running w.clock path max_age fetched y.0 y.1)
        (Failure format env (λ q. w.files (named q)) w.running w.clock path max_age fetched)
        (fetch_with_cache format path max_age fetched env w)
fetch_with_cache-Origin format env w path max_age fetched =
    (fetch_with_cache_lem format env (λ q. w.files (named q)) w.running w.clock path max_age
        fetched).run
      w (((λ q. refl), refl), refl)
