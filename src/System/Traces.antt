-- ===== src/System/Traces.antt =====
-- The calls that a part of the program has made where it succeeds, each from the world that the one
-- before has left.
use mathlib.Core.Path.{subst}
use georoute.Base.{◌≡◌, refl}
use georoute.Netip.{Bytes}
use georoute.Errors.{Error, Result, ok, err}
use georoute.System.{
  World, Env, Sys, ◌>>=◌, throw, attempt, resume, or_else, deferred, finished, recovered, after,
  settled,
}
use georoute.System.Hoare.{Post}

-- From the world `w` the call gives the value, and leaves the world `v`.
abbrev pub Gives {ℓ} : {A : Type ℓ} → Env → Sys A → World → A → World → Type ℓ
Gives env m w a v = m env w ≡ (v, ok a)

-- Where the part succeeds from the world `w`, its value and the world behind it are as told.
pub record Yields {A : Type 0} (env : Env) (m : Sys A) (w : World) (T : A → World → Type 0)
    : Type 0 where
  pub run : Post T (λ _ _. Unit {0}) (m env w)

-- A wrapped call in front of a rest that starts from what the call left.
pub obtained :
    {A B : Type 0} {env : Env} {w : World} {T : B → World → Type 0} (m : Sys A) (context : Bytes)
    (cleanup : Sys (Unit {0})) {rest : A → Sys B}
    → ((a : A) (u : World) → Gives env m w a u → Yields env (rest a) u T)
    → Yields env (or_else m context cleanup >>= rest) w T
unfolding or_else
obtained {A} {B} {env} {w} {T} m context cleanup {rest} k = record {
  run = by_result (m env w) refl;
}
  where
    by_result :
        (x : World × Result A)
        → m env w ≡ x
        → Post T (λ _ _. Unit {0}) (after rest env (recovered context cleanup env x))
    by_result (u, ok a) e = (k a u e).run
    by_result (u, err d) e = tt

-- The same for a call as it is.
pub gives :
    {A B : Type 0} {env : Env} {w : World} {T : B → World → Type 0} (m : Sys A) {rest : A → Sys B}
    → ((a : A) (u : World) → Gives env m w a u → Yields env (rest a) u T)
    → Yields env (m >>= rest) w T
gives {A} {B} {env} {w} {T} m {rest} k = record { run = by_result (m env w) refl }
  where
    by_result : (x : World × Result A) → m env w ≡ x → Post T (λ _ _. Unit {0}) (after rest env x)
    by_result (u, ok a) e = (k a u e).run
    by_result (u, err d) e = tt

-- A call at the end.
pub last_lem :
    {A : Type 0} {env : Env} {w : World} {T : A → World → Type 0} (m : Sys A)
    → ((a : A) (v : World) → Gives env m w a v → T a v)
    → Yields env m w T
last_lem {A} {env} {w} {T} m k = record { run = by_result (m env w) refl }
  where
    by_result : (x : World × Result A) → m env w ≡ x → Post T (λ _ _. Unit {0}) x
    by_result (v, ok a) e = k a v e
    by_result (v, err d) e = tt

-- A wrapped call at the end.
pub last_or :
    {A : Type 0} {env : Env} {w : World} {T : A → World → Type 0} (m : Sys A) (context : Bytes)
    (cleanup : Sys (Unit {0}))
    → ((a : A) (v : World) → Gives env m w a v → T a v)
    → Yields env (or_else m context cleanup) w T
unfolding or_else
last_or {A} {env} {w} {T} m context cleanup k = record { run = by_result (m env w) refl }
  where
    by_result :
        (x : World × Result A)
        → m env w ≡ x
        → Post T (λ _ _. Unit {0}) (recovered context cleanup env x)
    by_result (v, ok a) e = k a v e
    by_result (v, err d) e = tt

-- What is deferred does not change the value.
pub deferred_lem :
    {A : Type 0} {env : Env} {w : World} {T : A → World → Type 0} {S : A → Type 0} {m : Sys A}
    (cleanup : Sys (Unit {0}))
    → ((a : A) (v : World) → T a v → S a)
    → Yields env m w T
    → Yields env (deferred m cleanup) w (λ a _. S a)
unfolding deferred
deferred_lem {A} {env} {w} {T} {S} {m} cleanup k h = record { run = by_result (m env w) h.run }
  where
    by_result :
        (x : World × Result A)
        → Post T (λ _ _. Unit {0}) x
        → Post (λ a _. S a) (λ _ _. Unit {0}) (finished cleanup env x)
    by_result (v, ok a) t = k a v t
    by_result (v, err d) t = tt

pub fails :
    {A : Type 0} {env : Env} {w : World} {T : A → World → Type 0} (e : Error)
    → Yields env (throw {A = A} e) w T
fails e = record { run = tt }

-- A value that was yielded is as told.
pub yielded :
    {A : Type 0} {env : Env} {w v : World} {T : A → World → Type 0} {m : Sys A} {a : A}
    → Yields env m w T
    → Gives env m w a v
    → T a v
yielded {T = T} h e = subst (λ x. Post T (λ _ _. Unit {0}) x) e h.run

pub ok_inj : {A : Type 0} {a b : A} → ok b ≡ ok a → b ≡ a
ok_inj e = cc e

pub not_ok : {A : Type 0} {e : Error} {a : A} → err e ≡ ok a → ⊥
not_ok h = cc h

-- What `attempt` gives is the result of the call.
pub attempted :
    {A : Type 0} {env : Env} (m : Sys A) {w v : World} {r : Result A}
    → Gives env (attempt m) w r v
    → m env w ≡ (v, r)
attempted {A} {env} m {w} {v} {r} h = by_result (m env w) h
  where
    by_result : (x : World × Result A) → settled x ≡ (v, ok r) → x ≡ (v, r)
    by_result (u, s) k = λ i. ((k i).0, ok_inj (λ j. (k j).1) i)

-- A result that is handed on was one.
pub resumed :
    {A : Type 0} (env : Env) (x : Result A) {w v : World} {a : A}
    → Gives env (resume x) w a v
    → (x ≡ ok a) × (w ≡ v)
resumed env (ok b) h = ((λ i. (h i).1), (λ i. (h i).0))
resumed env (err e) h = absurd (not_ok (λ i. (h i).1))
