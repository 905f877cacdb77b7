-- ===== src/Main/Laws.antt =====
-- main.go's `realMain`: the cycles, with their reports and their markers.
use georoute.Base.{◌≡◌, refl, Bool, true, false, not, ◌||◌, Option, List, [], ◌∷◌}
use georoute.Netip.{Bytes}
use georoute.Text.{bytes, bytes_eq}
use georoute.Errors.{Result, ok, err}
use georoute.System.{named, World, Env, Sys, ◌>>=◌, ◌>>◌, pure, unix_now}
use georoute.System.Hoare.{Post, Hoare, bind_lem, attempt_lem, weaken, if_lem}
use georoute.System.Files.{Stable, Replaced}
use georoute.Flags.{CliFlags}
use georoute.Target.{is_empty}
use georoute.Fetch.Response.{RipeResp}
use georoute.Fetch.Cache.{Format}
use georoute.Fetch.Kept.{Kept}
use georoute.Metrics.{Metrics, measured, timed, observe_run, set_last_success}
use georoute.Metrics.Laws.{
  Blind, Reports, both-Reports, measured-Reports, timed-Reports, dated-Reports,
  set_last_success-Reports, observe_run-Reports,
}
use georoute.Health.Marker.{write_last_success_lem}
use georoute.Run.Specification.{Ran}
use georoute.Run.Laws.{run_lem}
use georoute.Main.{Process, stamped, reported, work, cycles}
use georoute.Main.Specification.{Worked, Cycled}

-- The marker is replaced or not; either way the others stay.
marked :
    (g : Bytes → Option Bytes) (r : Option Bytes) (path : Bytes) (x : Result (Unit {0})) (w : World)
    → Post (λ _ v. (c : Bytes) × Replaced g r path c v) (λ _. Stable g r) (w, x)
    → Kept g r path w
marked g r path (ok a) w h = (h.1.1, h.1.2)
marked g r path (err e) w h = ((λ q o. h.0 q), h.1)

-- The files are those of `u`, and no call has been made since.
abbrev pub At : World → World → Type 0
At u w = Stable (λ q. u.files (named q)) u.running w × (w.clock ≡ u.clock)

module _ (format : Format RipeResp) (push : CliFlags → Bytes → Sys (Unit {0})) (p : Process)
    (env : Env) (f : CliFlags) (m : Option Metrics) (fetched : Result RipeResp) (u : World) where
  abbrev From : Bool → World → Type 0
  From = Ran format env f fetched (λ q. u.files (named q)) u.running u.clock

  abbrev After : Bool → World → Type 0
  After b = Worked format env f fetched u b

  -- The marker of a run that came to the world `v`.
  stamped_lem :
      (v : World)
      → Hoare env
          (Stable (λ q. v.files (named q)) v.running)
          (stamped format push p f)
          (λ _. Kept (λ q. v.files (named q)) v.running f.last_success_file)
          (λ _ _. ⊥)
  stamped_lem v =
      if_lem (not (is_empty f.http_addr) || not (is_empty f.last_success_file))
        (λ y.
          bind_lem {f = λ _. pure tt}
            (attempt_lem {F = λ _ _. ⊥}
              (write_last_success_lem env (λ q. v.files (named q)) v.running f.last_success_file))
            (λ x. record {
              run = λ w h. marked (λ q. v.files (named q)) v.running f.last_success_file x w h;
            }))
        (λ n. record { run = λ w h. ((λ q o. h.0 q), h.1) })

  -- A report of the outcome keeps the outcome.
  reporting :
      (b : Bool) {o : Metrics → Sys (Unit {0})}
      → ((x : Metrics) → Reports (o x))
      → Hoare env (After b) (measured m o) (λ _. After b) (λ _ _. ⊥)
  reporting b h = (measured-Reports m h).keeps env (After b) (λ w ms n k. k)

  success-Reports :
      (x : Metrics)
      → Reports (
          timed (observe_run x (bytes "success")) >> (unix_now >>= (λ now. set_last_success x now)))
  success-Reports x =
      both-Reports (timed-Reports (observe_run-Reports x _))
        (dated-Reports (set_last_success-Reports x))

  abbrev Finished : World → Result (Unit {0}) → Type 0
  Finished w x = Post (λ _. From true) (λ _. From false) (w, x)

  -- A success that came to the world `v`, from there on.
  succeeded_lem :
      (v : World)
      → From true v
      → Hoare env
          (Stable (λ q. v.files (named q)) v.running)
          (reported format push p f m (ok tt))
          After
          (λ _ _. ⊥)
  succeeded_lem v h =
      bind_lem
        ((measured-Reports m success-Reports).keeps env (Stable (λ q. v.files (named q)) v.running)
          (λ w ms n k. k))
        (λ _.
          bind_lem {f = λ _. pure true} (stamped_lem v) (λ _. record { run = λ w k. (v, h, k) }))

  reported_lem :
      (x : Result (Unit {0}))
      → Hoare env (λ w. Finished w x) (reported format push p f m x) After (λ _ _. ⊥)
  reported_lem (ok a) = record { run = λ w h. (succeeded_lem w h).run w ((λ q. refl), refl) }
  reported_lem (err e) =
      bind_lem {f = λ _. pure false}
        (weaken (λ w h. (w, h, ((λ q o. refl), refl))) (λ a w h. h) (λ d w h. h)
          (reporting false (λ x. timed-Reports (observe_run-Reports x (bytes "error")))))
        (λ _. record { run = λ w h. h })

  -- A cycle with its reports and its marker.
  pub work_lem :
      bytes_eq f.target (bytes "frr") ≡ true
      → Hoare env (At u) (work format push p f m fetched) After (λ _ _. ⊥)
  unfolding work
  work_lem t =
      bind_lem
        (attempt_lem {F = λ _ _. ⊥} (
          run_lem format p.cancel push env f m fetched (λ q. u.files (named q)) u.running u.clock
            t))
        reported_lem

-- Cycles in a row, with their reports and their markers.
pub cycles_lem :
    (format : Format RipeResp) (push : CliFlags → Bytes → Sys (Unit {0})) (p : Process) (env : Env)
    (f : CliFlags) (m : Option Metrics) (l : List (Result RipeResp)) (u : World)
    → bytes_eq f.target (bytes "frr") ≡ true
    → Hoare env (At u) (cycles format push p f m l) (λ _. Cycled format env f l u) (λ _ _. ⊥)
unfolding cycles
cycles_lem format push p env f m [] u t = record { run = λ w h. h.0 }
cycles_lem format push p env f m (x ∷ l) u t =
    bind_lem {f = λ b. cycles format push p f m l} (work_lem format push p env f m x u t) (λ b.
      record {
        run = λ v h.
            (weaken {Q' = λ _. Cycled format env f (x ∷ l) u} (λ w k. k) (λ a w k. (b, v, h, k))
                (λ e w k. k) (cycles_lem format push p env f m l v t)).run
              v (((λ q. refl), refl), refl);
      })

-- A closed file is nothing to the cycles.
pub Cycled-Blind :
    (format : Format RipeResp) (env : Env) (f : CliFlags) (l : List (Result RipeResp)) (u : World)
    → Blind (Cycled format env f l u)
Cycled-Blind format env f [] u w ms n h = h
Cycled-Blind format env f (x ∷ []) u w ms n h = h
Cycled-Blind format env f (x ∷ y ∷ l) u w ms n (b, v, k, h) =
    (b, v, k, Cycled-Blind format env f (y ∷ l) v w ms n h)
