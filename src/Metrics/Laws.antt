-- ===== src/Metrics/Laws.antt =====
-- metrics.go: the calls that its reports leave behind.
use georoute.Base.{
  ℕ, ◌+◌, Bool, true, not, ◌&&◌, any, All, ◌≡◌, refl, ◌⊎◌, inl, inr, Option, none, some, List, [],
  ◌∷◌, ℤ, length,
}
use georoute.Netip.{Bytes}
use georoute.Text.{bytes_eq}
use georoute.Errors.{Error, Result, ok, err}
use georoute.System.{World, Env, Sys, ◌>>◌, ◌>>=◌, watched, resume, time_since, unix_now, measure}
use georoute.System.Meters.{
  Collector, Measure, counter, gauge, histogram, inc, set_number, set_seconds, observe_seconds,
}
use georoute.System.Hoare.{Post, Hoare, bind_lem, attempt_lem, weaken}
use georoute.Metrics.{
  Metrics, new_metrics, measured, timed, observe_run, observe_fetch, observe_nft_apply,
  observe_frr_reload, set_prefix_count, set_last_success, set_cache_age,
}

-- The collector is one of the list.
abbrev Registered : Collector → List Collector → Type 0
Registered c [] = ⊥
Registered c (d ∷ l) = (c ≡ d) ⊎ Registered c l

-- A call that fits its collector, which is a registered one of the kind that the call needs, with a
-- value for each label. The client also wants the values in UTF-8; that is not part of it.
abbrev pub Fits : Measure → Type 0
Fits (inc c vs) = Registered c new_metrics × (c.kind ≡ counter) × (length vs ≡ length c.labels)
Fits (set_number c vs n) =
    Registered c new_metrics × (c.kind ≡ gauge) × (length vs ≡ length c.labels)
Fits (set_seconds c vs n) =
    Registered c new_metrics × (c.kind ≡ gauge) × (length vs ≡ length c.labels)
Fits (observe_seconds c vs n) =
    Registered c new_metrics × (c.kind ≡ histogram) × (length vs ≡ length c.labels)

-- A predicate that does not look at the client's calls or the clock.
abbrev pub Blind : (World → Type 0) → Type 0
Blind R = (w : World) (ms : List Measure) (n : ℕ) → R w → R (record w { meters = ms; clock = n })

-- A report keeps whatever does not look at it, and does not fail.
pub record Reports (o : Sys (Unit {0})) : Type 1 where
  pub keeps : (env : Env) (R : World → Type 0) → Blind R → Hoare env R o (λ _. R) (λ _ _. ⊥)

measure-Reports : (x : Measure) → Reports (measure x)
unfolding measure
measure-Reports x = record {
  keeps = λ env R b. record { run = λ w h. b w (x ∷ w.meters) w.clock h };
}

-- Two reports in a row.
pub both-Reports : {a b : Sys (Unit {0})} → Reports a → Reports b → Reports (a >> b)
both-Reports x y = record { keeps = λ env R b. bind_lem (x.keeps env R b) (λ _. y.keeps env R b) }

pub timed-Reports : {o : ℤ → Sys (Unit {0})} → ((d : ℤ) → Reports (o d)) → Reports (timed o)
unfolding time_since
timed-Reports {o = o} h = record {
  keeps = λ env R b. record {
    run = λ w r.
        ((h (env.elapsed w.clock)).keeps env R b).run (record w { clock = w.clock + 1 })
          (b w w.meters (w.clock + 1) r);
  };
}

pub dated-Reports : {o : ℤ → Sys (Unit {0})} → ((t : ℤ) → Reports (o t)) → Reports (unix_now >>= o)
unfolding unix_now
dated-Reports {o = o} h = record {
  keeps = λ env R b. record {
    run = λ w r.
        ((h (env.now w.clock)).keeps env R b).run (record w { clock = w.clock + 1 })
          (b w w.meters (w.clock + 1) r);
  };
}

pub measured-Reports :
    (m : Option Metrics) {o : Metrics → Sys (Unit {0})}
    → ((x : Metrics) → Reports (o x))
    → Reports (measured m o)
measured-Reports none h = record { keeps = λ env R b. record { run = λ w r. r } }
measured-Reports (some x) h = h x

-- A report between a call and its error.
looked_at {ℓ} :
    {A : Type ℓ} {env : Env} {R : World → Type 0} {E : Error → World → Type 0}
    {Q : A → World → Type 0} {o : Sys (Unit {0})} (r : Result A)
    → Blind R
    → Reports o
    → ((w : World) → R w → Post Q E (w, r))
    → Hoare env R (o >> resume r) Q E
looked_at {A = A} {env = env} {R = R} {E = E} {Q = Q} r b x h =
    bind_lem {f = λ _. resume r}
      (weaken (λ w p. p) (λ u w p. p) (λ e w p. absurd p) (x.keeps env R b)) (λ u. resumed r h)
  where
    resumed : (r : Result A) → ((w : World) → R w → Post Q E (w, r)) → Hoare env R (resume r) Q E
    resumed (ok a) h = record { run = λ w p. h w p }
    resumed (err e) h = record { run = λ w p. h w p }

-- What a report says of a call does not change what the call guarantees.
pub watched_lem {ℓ} :
    {A : Type ℓ} {env : Env} {P : World → Type 0} {Q : A → World → Type 0}
    {E : Error → World → Type 0} {m : Sys A} {o : Result A → Sys (Unit {0})}
    → ((a : A) → Blind (Q a))
    → ((e : Error) → Blind (E e))
    → ((r : Result A) → Reports (o r))
    → Hoare env P m Q E
    → Hoare env P (watched m o) Q E
unfolding watched
watched_lem {A = A} {env = env} {Q = Q} {E = E} {o = o} q e reports h =
    bind_lem {f = λ r. o r >> resume r} (attempt_lem {F = E} h) (λ r. looked r)
  where
    looked : (r : Result A) → Hoare env (λ w. Post Q E (w, r)) (o r >> resume r) Q E
    looked (ok a) = looked_at (ok a) (q a) (reports (ok a)) (λ w p. p)
    looked (err x) = looked_at (err x) (e x) (reports (err x)) (λ w p. p)

pub observe_run-Reports : (m : Metrics) (r : Bytes) (d : ℤ) → Reports (observe_run m r d)
unfolding observe_run
observe_run-Reports m r d = measure-Reports _

pub observe_fetch-Reports : (m : Metrics) (s r : Bytes) (d : ℤ) → Reports (observe_fetch m s r d)
unfolding observe_fetch
observe_fetch-Reports m s r d = both-Reports (measure-Reports _) (measure-Reports _)

pub observe_nft_apply-Reports :
    (m : Metrics) (r : Bytes) (d : ℤ) → Reports (observe_nft_apply m r d)
unfolding observe_nft_apply
observe_nft_apply-Reports m r d = both-Reports (measure-Reports _) (measure-Reports _)

pub observe_frr_reload-Reports :
    (m : Metrics) (r : Bytes) (d : ℤ) → Reports (observe_frr_reload m r d)
unfolding observe_frr_reload
observe_frr_reload-Reports m r d = both-Reports (measure-Reports _) (measure-Reports _)

pub set_prefix_count-Reports :
    (m : Metrics) (f s : Bytes) (n : ℕ) → Reports (set_prefix_count m f s n)
unfolding set_prefix_count
set_prefix_count-Reports m f s n = measure-Reports _

pub set_last_success-Reports : (m : Metrics) (t : ℤ) → Reports (set_last_success m t)
unfolding set_last_success
set_last_success-Reports m t = measure-Reports _

-- The calls that a report makes, the latest first.
abbrev pub calls : Env → World → Sys (Unit {0}) → List Measure
calls env w o = (o env (record w { meters = [] })).0.meters

-- A registry takes the collectors one after the other where no name comes twice.
abbrev pub distinct : List Collector → Bool
distinct [] = true
distinct (c ∷ l) = not (any (λ d. bytes_eq c.name d.name) l) && distinct l

-- No two of the collectors that newMetrics registers share a name, and every call of every report,
-- whatever the country, the labels and the numbers, is on a registered collector, of the kind that
-- the call needs, and gives as many values as that has labels. Whether the values are UTF-8, which
-- the client wants as well, is not stated.
pub reports-Fit :
    (env : Env) (w : World) (m : Metrics) (source result family : Bytes) (n : ℕ) (d : ℤ)
    → (distinct new_metrics ≡ true)
      × All Fits (calls env w (observe_run m result d))
      × All Fits (calls env w (observe_fetch m source result d))
      × All Fits (calls env w (observe_nft_apply m result d))
      × All Fits (calls env w (observe_frr_reload m result d))
      × All Fits (calls env w (set_prefix_count m family source n))
      × All Fits (calls env w (set_last_success m d))
      × All Fits (calls env w (set_cache_age m d))
unfolding observe_run observe_fetch observe_nft_apply observe_frr_reload set_prefix_count
    set_last_success set_cache_age measure bytes_eq
reports-Fit env w m source result family n d = (
  refl,
  ((inl refl, refl, refl), tt),
  (
    (inr (inr (inr (inr (inr (inr (inr (inr (inl refl)))))))), refl, refl),
    ((inr (inl refl), refl, refl), tt),
  ),
  (
    (inr (inr (inr (inr (inr (inr (inr (inr (inr (inl refl))))))))), refl, refl),
    ((inr (inr (inl refl)), refl, refl), tt),
  ),
  (
    (inr (inr (inr (inr (inr (inr (inr (inr (inr (inr (inl refl)))))))))), refl, refl),
    ((inr (inr (inr (inl refl))), refl, refl), tt),
  ),
  ((inr (inr (inr (inr (inr (inl refl))))), refl, refl), tt),
  ((inr (inr (inr (inr (inr (inr (inl refl)))))), refl, refl), tt),
  ((inr (inr (inr (inr (inr (inr (inr (inl refl))))))), refl, refl), tt),
)
