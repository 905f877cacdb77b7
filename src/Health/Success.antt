-- ===== src/Health/Success.antt =====
-- health.go's `writeLastSuccess` in front of the /ready route.
use mathlib.Core.Path.{subst}
use georoute.Base.{ℕ, ◌≡◌, refl, false, Option, none, some, ℤ, greater}
use georoute.Netip.{Bytes}
use georoute.Errors.{Result, ok, err}
use georoute.System.{named, World, Env}
use georoute.System.Hoare.{Post}
use georoute.System.Files.{Stable, Replaced}
use georoute.Health.{status, ready, serve_route, write_last_success}
use georoute.Health.Marker.{write_last_success_lem}
use georoute.Health.Ready.{Documented, serve_route-Tells}

-- The file is there after a success.
abbrev Present : Bytes → Result (Unit {0}) → World → Type 0
Present path (ok a) v = (c : Bytes) × (v.files (named path) ≡ some c)
Present path (err e) v = Unit {0}

present :
    (g : Bytes → Option Bytes) (r : Option Bytes) (path : Bytes) (x : World × Result (Unit {0}))
    → Post (λ _ v. (c : Bytes) × Replaced g r path c v) (λ _. Stable g r) x
    → Present path x.1 x.0
present g r path (v, ok a) h = (h.0, h.1.0)
present g r path (v, err e) h = tt

-- With the health library as documented: where the marker has been written with success, /ready
-- answers 200 right after it, if the call that looks at the marker works and the marker is not
-- older than the limit.
pub serve_route-write_last_success :
    (answer_of : ℕ → ℕ → Result (Unit {0}) → ℕ) (env : Env) (path : Bytes) (max_age : ℤ)
    (w v : World)
    → Documented answer_of
    → write_last_success path env w ≡ (v, ok tt)
    → env.fault v.clock ≡ none
    → greater (env.age v.clock (named path)) max_age ≡ false
    → (serve_route answer_of path max_age ready env v).1 ≡ ok (status 200)
serve_route-write_last_success answer_of env path max_age w v doc e works young =
    let written =
      (write_last_success_lem env (λ q. w.files (named q)) w.running path).run w
        ((λ q. refl), refl) in
    let there =
      subst (λ x. Present path x.1 x.0) e
        (present (λ q. w.files (named q)) w.running path (write_last_success path env w) written) in
    (serve_route-Tells answer_of doc env v path max_age ready tt).1.1
      (there.0, there.1, works, young)
