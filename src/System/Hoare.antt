-- ===== src/System/Hoare.antt =====
-- What a part of the program guarantees of the world, on success and on failure.
use georoute.Base.{Bool, true, false, if◌then◌else◌, ◌≡◌, refl}
use georoute.Netip.{Bytes}
use georoute.Errors.{Error, Result, ok, err, wrap}
use georoute.System.{Sys, Env, World, or_else, ◌>>=◌, attempt, after, settled, recovered}

abbrev pub Post {ℓ} :
    {A : Type ℓ} → (A → World → Type 0) → (Error → World → Type 0) → World × Result A → Type 0
Post Q E (w, ok a) = Q a w
Post Q E (w, err e) = E e w

-- From every world with P: Q after a success, E after a failure.
pub record Hoare {ℓ} {A : Type ℓ} (env : Env) (P : World → Type 0) (m : Sys A)
    (Q : A → World → Type 0) (E : Error → World → Type 0) : Type ℓ where
  pub run : (w : World) → P w → Post Q E (m env w)

bind_after {ℓ ℓ'} :
    {A : Type ℓ} {B : Type ℓ'} (env : Env) (R : A → World → Type 0) (Q : B → World → Type 0)
    (E : Error → World → Type 0) (f : A → Sys B)
    → ((a : A) → Hoare env (R a) (f a) Q E)
    → (r : World × Result A) → Post R E r
    → Post Q E (after f env r)
bind_after env R Q E f k (w, ok a) h = (k a).run w h
bind_after env R Q E f k (w, err e) h = h

-- A bind: what the first part guarantees is what the second starts from.
pub bind_lem {ℓ ℓ'} :
    {A : Type ℓ} {B : Type ℓ'} {env : Env} {P : World → Type 0} {R : A → World → Type 0}
    {Q : B → World → Type 0} {E : Error → World → Type 0} {m : Sys A} {f : A → Sys B}
    → Hoare env P m R E
    → ((a : A) → Hoare env (R a) (f a) Q E)
    → Hoare env P (m >>= f) Q E
bind_lem {env = env} {R = R} {Q = Q} {E = E} {m = m} {f = f} h k = record {
  run = λ w p. bind_after env R Q E f k (m env w) (h.run w p);
}

-- What holds on success and on failure holds.
pub cleaned :
    (C : World → Type 0) (r : World × Result (Unit {0})) → Post (λ _. C) (λ _. C) r → C r.0
cleaned C (w, ok a) h = h
cleaned C (w, err e) h = h

recovered_lem {ℓ} :
    {A : Type ℓ} (env : Env) (Q : A → World → Type 0) (E F : Error → World → Type 0)
    (C : World → Type 0) (context : Bytes) (cleanup : Sys (Unit {0}))
    → Hoare env C cleanup (λ _. C) (λ _. C)
    → ((e : Error) (w : World) → E e w → C w)
    → ((e : Error) (w : World) → C w → F (wrap context e) w)
    → (r : World × Result A) → Post Q E r
    → Post Q F (recovered context cleanup env r)
recovered_lem env Q E F C context cleanup h into from (w, ok a) p = p
recovered_lem env Q E F C context cleanup h into from (w, err e) p =
    from e (cleanup env w).0 (cleaned C (cleanup env w) (h.run w (into e w p)))

-- A failure whose cleanup keeps C.
pub or_else_lem {ℓ} :
    {A : Type ℓ} {env : Env} {P : World → Type 0} {Q : A → World → Type 0}
    {E F : Error → World → Type 0} {m : Sys A} {cleanup : Sys (Unit {0})} (C : World → Type 0)
    (context : Bytes)
    → Hoare env P m Q E
    → Hoare env C cleanup (λ _. C) (λ _. C)
    → ((e : Error) (w : World) → E e w → C w)
    → ((e : Error) (w : World) → C w → F (wrap context e) w)
    → Hoare env P (or_else m context cleanup) Q F
unfolding or_else
or_else_lem {env = env} {Q = Q} {E = E} {F = F} {m = m} {cleanup = n} C c k h into from = record {
  run = λ w p. recovered_lem env Q E F C c n h into from (m env w) (k.run w p);
}

weakened {ℓ} :
    {A : Type ℓ} (Q Q' : A → World → Type 0) (E E' : Error → World → Type 0)
    → ((a : A) (w : World) → Q a w → Q' a w)
    → ((e : Error) (w : World) → E e w → E' e w)
    → (r : World × Result A) → Post Q E r
    → Post Q' E' r
weakened Q Q' E E' q e (w, ok a) x = q a w x
weakened Q Q' E E' q e (w, err f) x = e f w x

-- A stronger start and weaker guarantees.
pub weaken {ℓ} :
    {A : Type ℓ} {env : Env} {P P' : World → Type 0} {Q Q' : A → World → Type 0}
    {E E' : Error → World → Type 0} {m : Sys A}
    → ((w : World) → P' w → P w)
    → ((a : A) (w : World) → Q a w → Q' a w)
    → ((e : Error) (w : World) → E e w → E' e w)
    → Hoare env P m Q E
    → Hoare env P' m Q' E'
weaken {env = env} {Q = Q} {Q' = Q'} {E = E} {E' = E'} {m = m} p q e h = record {
  run = λ w start. weakened Q Q' E E' q e (m env w) (h.run w (p w start));
}

attempted {ℓ} :
    {A : Type ℓ} (Q : A → World → Type 0) (E : Error → World → Type 0) (F : Error → World → Type 0)
    (r : World × Result A)
    → Post Q E r
    → Post (λ x w. Post Q E (w, x)) F (settled r)
attempted Q E F (w, ok a) h = h
attempted Q E F (w, err e) h = h

-- The result as a value: its guarantee is that of the branch it stands for.
pub attempt_lem {ℓ} :
    {A : Type ℓ} {env : Env} {P : World → Type 0} {Q : A → World → Type 0}
    {E F : Error → World → Type 0} {m : Sys A}
    → Hoare env P m Q E
    → Hoare env P (attempt m) (λ x w. Post Q E (w, x)) F
attempt_lem {env = env} {Q = Q} {E = E} {F = F} {m = m} h = record {
  run = λ w p. attempted Q E F (m env w) (h.run w p);
}

-- A fact of the start that does not depend on the world.
pub given {ℓ} :
    {A : Type ℓ} {env : Env} {T : Type 0} {P : World → Type 0} {Q : A → World → Type 0}
    {E : Error → World → Type 0} {m : Sys A}
    → (T → Hoare env P m Q E)
    → Hoare env (λ w. T × P w) m Q E
given h = record { run = λ w p. (h p.0).run w p.1 }

-- A test: each branch with what the test says.
pub if_lem {ℓ} :
    {A : Type ℓ} {env : Env} {P : World → Type 0} {Q : A → World → Type 0}
    {E : Error → World → Type 0} {m n : Sys A} (b : Bool)
    → (b ≡ true → Hoare env P m Q E)
    → (b ≡ false → Hoare env P n Q E)
    → Hoare env P (if b then m else n) Q E
if_lem true h k = h refl
if_lem false h k = k refl

both_post {ℓ} :
    {A : Type ℓ} (Q R : A → World → Type 0) (E F : Error → World → Type 0) (x : World × Result A)
    → Post Q E x
    → Post R F x
    → Post (λ a w. Q a w × R a w) (λ e w. E e w × F e w) x
both_post Q R E F (w, ok a) h k = (h, k)
both_post Q R E F (w, err e) h k = (h, k)

-- Two guarantees of one part.
pub both_lem {ℓ} :
    {A : Type ℓ} {env : Env} {P : World → Type 0} {Q R : A → World → Type 0}
    {E F : Error → World → Type 0} {m : Sys A}
    → Hoare env P m Q E
    → Hoare env P m R F
    → Hoare env P m (λ a w. Q a w × R a w) (λ e w. E e w × F e w)
both_lem {env = env} {Q = Q} {R = R} {E = E} {F = F} {m = m} h k = record {
  run = λ w p. both_post Q R E F (m env w) (h.run w p) (k.run w p);
}
