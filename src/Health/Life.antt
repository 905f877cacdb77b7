-- ===== src/Health/Life.antt =====
-- health.go: the methods of the server, one after the other.
use georoute.Base.{
  ℕ, ◌+◌, ◌≤◌, ◌≡◌, refl, ap, ◌∙◌, ◌++◌, Bool, true, false, Option, none, some, List, [], ◌∷◌,
  arith, if◌then◌else◌,
}
use georoute.Errors.{Error, Result, ok, err}
use georoute.Health.{
  HealthServer, new_server, bound_once, served, pre_bind, start, stop_background_loop, shutdown,
}

-- A call of a method, with what listening and the HTTP server give.
pub data Call : Type 0 where
  pre_binds : Result ℕ → Call
  starts_up : Result ℕ → Option Error → Call
  stops_loop : Call
  shuts_down : Option Error → Call

abbrev apply_call : HealthServer → Call → HealthServer
apply_call h (pre_binds listened) = (pre_bind listened h).0
apply_call h (starts_up listened end) = (start listened end h).0
apply_call h stops_loop = stop_background_loop h
apply_call h (shuts_down end) = (shutdown end h).0

abbrev pub apply_calls : HealthServer → List Call → HealthServer
apply_calls h [] = h
apply_calls h (c ∷ l) = apply_calls (apply_call h c) l

-- The loop was shut down once where `sync.Once` says so, and never before.
abbrev once : Bool → ℕ
once true = 1
once false = 0

abbrev IsConsistent : HealthServer → Type 0
IsConsistent h = h.shutdowns ≡ once h.stop_bg_done

-- A listener that is there stays.
abbrev pub Keeps : Option ℕ → Option ℕ → Type 0
Keeps none b = Unit {0}
Keeps (some l) b = b ≡ some l

Keeps-refl : (o : Option ℕ) → Keeps o o
Keeps-refl none = tt
Keeps-refl (some l) = refl

-- Consistent, and with the listener that was there.
abbrev Follows : Option ℕ → HealthServer → Type 0
Follows o h = IsConsistent h × Keeps o h.ln

bound_lem :
    (h : HealthServer) (x : Result ℕ) (o : Option ℕ)
    → h.ln ≡ o
    → IsConsistent h
    → Follows o (bound_once h x o).0
bound_lem h (ok l) none e i = (i, tt)
bound_lem h (err x) none e i = (i, tt)
bound_lem h x (some l) e i = (i, e)

served_lem :
    (o : Option ℕ) (end : Option Error) (x : HealthServer × Result (Unit {0}))
    → Follows o x.0
    → Follows o (served end x).0
served_lem o end (h, ok a) f = f
served_lem o end (h, err e) f = f

stopped_lem : (h : HealthServer) → IsConsistent h → Follows h.ln (stop_background_loop h)
unfolding stop_background_loop
stopped_lem h i = by_once h.stop_bg_done refl
  where
    by_once :
        (b : Bool)
        → h.stop_bg_done ≡ b
        → Follows h.ln
            (if b then h else record h { stop_bg_done = true; shutdowns = h.shutdowns + 1 })
    by_once true e = (i, Keeps-refl h.ln)
    by_once false e = (let z : once h.stop_bg_done ≡ 0 = ap once e in omega arith, Keeps-refl h.ln)

call_lem : (h : HealthServer) (c : Call) → IsConsistent h → Follows h.ln (apply_call h c)
unfolding pre_bind start shutdown
call_lem h (pre_binds listened) i = bound_lem h listened h.ln refl i
call_lem h (starts_up listened end) i =
    served_lem h.ln end (bound_once h listened h.ln) (bound_lem h listened h.ln refl i)
call_lem h stops_loop i = stopped_lem h i
call_lem h (shuts_down end) i = stopped_lem h i

Keeps-trans : (a b c : Option ℕ) → Keeps a b → Keeps b c → Keeps a c
Keeps-trans none b c h k = tt
Keeps-trans (some l) none c h k = cc h
Keeps-trans (some l) (some m) c h k = k ∙ h

calls_lem : (h : HealthServer) (l : List Call) → IsConsistent h → Follows h.ln (apply_calls h l)
calls_lem h [] i = (i, Keeps-refl h.ln)
calls_lem h (c ∷ l) i =
    let f = call_lem h c i in
    let k = calls_lem (apply_call h c) l f.0 in
    (k.0, Keeps-trans h.ln (apply_call h c).ln (apply_calls h (c ∷ l)).ln f.1 k.1)

bounded : (b : Bool) → once b ≤ 1
bounded true = omega arith
bounded false = omega arith

-- Whatever methods of the health server are called, in whatever order and however they end: the
-- health library's loop is shut down at most once, and a listener that is there after the first
-- calls is the one that is there after the rest.
pub apply_calls-Keeps :
    (first rest : List Call)
    → ((apply_calls new_server (first ++ rest)).shutdowns ≤ 1)
      × Keeps (apply_calls new_server first).ln (apply_calls (apply_calls new_server first) rest).ln
apply_calls-Keeps first rest =
    let i = (calls_lem new_server first refl).0 in
    let all = (calls_lem new_server (first ++ rest) refl).0 in
    (
      rw all (bounded (apply_calls new_server (first ++ rest)).stop_bg_done),
      (calls_lem (apply_calls new_server first) rest i).1,
    )
