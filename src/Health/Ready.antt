-- ===== src/Health/Ready.antt =====
-- health.go: the routes' answers.
use georoute.Base.{
  [], ℕ, ◌≡◌, ◌↔◌, ◌⊎◌, refl, ap, arith, Bool, true, false, inl, inr, Option, none, some, ℤ,
  greater, if◌then◌else◌,
}
use georoute.Netip.{Bytes}
use georoute.Errors.{Error, Result, ok, err, last_success_stale, sentinel, detail}
use georoute.System.{named, World, Env, pure, throw, settled, after, stat_age, stat_ended, tick}
use georoute.Health.{
  Answer, status, pprof, scrape, Route, live, ready, startup, health, debug, metrics,
  check_last_success, last_success_age, marker_age, handler_health, serve_route,
}

-- The marker is there, the call that looks at it works, and it is not too old.
abbrev IsFresh : Env → World → Bytes → ℤ → Type 0
IsFresh env w path max_age =
    (text : Bytes) × (w.files (named path) ≡ some text)
    × (env.fault w.clock ≡ none)
    × (greater (env.age w.clock (named path)) max_age ≡ false)

-- The outcome of the check is a success just where the marker is fresh.
abbrev Judges : Env → World → Bytes → ℤ → World × Result (Unit {0}) → Type 0
Judges env w path max_age (v, ok a) = IsFresh env w path max_age
Judges env w path max_age (v, err e) = ¬ IsFresh env w path max_age

module _ (env : Env) (w : World) (path : Bytes) (max_age : ℤ) where
  aged :
      (v : World) (b : Bool)
      → ((b ≡ false) ↔ IsFresh env w path max_age)
      → Judges env w path max_age
          ((if b then throw (detail (sentinel last_success_stale) []) else pure tt) env v)
  aged v true h = λ f. cc (h.1 f)
  aged v false h = h.0 refl

  judged : Judges env w path max_age (check_last_success path max_age env w)
  unfolding check_last_success last_success_age stat_age
  judged = by_outcome (w.files (named path)) (env.fault w.clock) refl refl
    where
      missing :
          (v : World) (b : Bool) (x y : Error)
          → ¬ IsFresh env w path max_age
          → Judges env w path max_age (
              after
                (λ age.
                  if greater age max_age
                  then throw (detail (sentinel last_success_stale) [])
                  else pure tt)
                env
                ((if b then throw {A = ℤ} x else throw y) env v))
      missing v true x y h = h
      missing v false x y h = h

      by_outcome :
          (o : Option Bytes) (x : Option Error)
          → w.files (named path) ≡ o
          → env.fault w.clock ≡ x
          → Judges env w path max_age (
              after
                (λ age.
                  if greater age max_age
                  then throw (detail (sentinel last_success_stale) [])
                  else pure tt)
                env
                (after
                  (marker_age path)
                  env
                  (settled (stat_ended (tick w) (env.age w.clock (named path)) o x))))
      by_outcome (some text) none p q =
          aged (tick w) (greater (env.age w.clock (named path)) max_age)
            ((λ e. (text, p, q, e)), (λ f. f.3))
      by_outcome none none p q = missing (tick w) _ _ _ (λ f. cc (f.1, p))
      by_outcome o (some e) p q = missing (tick w) _ _ _ (λ f. cc (f.2, q))

-- The documented behaviour of the health library with a success and an error status.
pub record Documented (answer_of : ℕ → ℕ → Result (Unit {0}) → ℕ) : Type 0 where
  pub on_success : (s e : ℕ) → answer_of s e (ok tt) ≡ s
  pub on_error : (s e : ℕ) (x : Error) → answer_of s e (err x) ≡ e

-- The routes that the health library serves by the check.
abbrev IsChecked : Route → Type 0
IsChecked live = ⊥
IsChecked ready = Unit {0}
IsChecked startup = Unit {0}
IsChecked health = Unit {0}
IsChecked debug = ⊥
IsChecked metrics = ⊥

-- A status says whether the marker is fresh.
abbrev pub Tells : Env → World → Bytes → ℤ → Result Answer → Type 0
Tells env w path max_age x =
    ((x ≡ ok (status 200)) ⊎ (x ≡ ok (status 503)))
    × ((x ≡ ok (status 200)) ↔ IsFresh env w path max_age)

abbrev code_of : Result Answer → ℕ
code_of (ok (status n)) = n
code_of (ok pprof) = 0
code_of (ok scrape) = 0
code_of (err e) = 0

differ : ok (status 503) ≡ ok (status 200) → ⊥
differ y = let e : ◌≡◌ {A = ℕ} 503 200 = ap code_of y in absurd (omega arith)

module _ (answer_of : ℕ → ℕ → Result (Unit {0}) → ℕ) (doc : Documented answer_of) where
  told :
      (env : Env) (w : World) (path : Bytes) (max_age : ℤ) (x : World × Result (Unit {0}))
      → Judges env w path max_age x
      → Tells env w path max_age
          (after (λ r. pure (status (answer_of 200 503 r))) env (settled x)).1
  told env w path max_age (v, ok a) h =
      rw (doc.on_success 200 503) (inl refl, ((λ _. h), (λ _. refl)))
  told env w path max_age (v, err e) h =
      rw (doc.on_error 200 503 e) (inr refl, ((λ y. absurd (differ y)), (λ f. absurd (h f))))

  checked_lem :
      (env : Env) (w : World) (path : Bytes) (max_age : ℤ)
      → Tells env w path max_age (handler_health answer_of path max_age env w).1
  unfolding handler_health
  checked_lem env w path max_age =
      told env w path max_age (check_last_success path max_age env w) (judged env w path max_age)

  -- With the health library as documented, in any world: /ready, /startup and /health answer 200
  -- or 503, and 200 just where the marker is there, the call that looks at it works, and it is not
  -- older than the limit.
  pub serve_route-Tells :
      (env : Env) (w : World) (path : Bytes) (max_age : ℤ) (route : Route)
      → IsChecked route
      → Tells env w path max_age (serve_route answer_of path max_age route env w).1
  unfolding serve_route
  serve_route-Tells env w path max_age ready h = checked_lem env w path max_age
  serve_route-Tells env w path max_age startup h = checked_lem env w path max_age
  serve_route-Tells env w path max_age health h = checked_lem env w path max_age
  serve_route-Tells env w path max_age live h = absurd h
  serve_route-Tells env w path max_age debug h = absurd h
  serve_route-Tells env w path max_age metrics h = absurd h
