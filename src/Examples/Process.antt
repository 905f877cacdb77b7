-- ===== src/Examples/Process.antt =====
-- Runs of main.go's run and realMain, of health.go and of metrics.go.
use georoute.Base.{
  ◌+◌, arith, ℕ, ◌≤◌, ◌≡◌, refl, true, false, none, some, List, [], ◌∷◌, ◌++◌, pos, All,
}
use georoute.Netip.{Bytes}
use georoute.Text.{bytes, bytes_eq}
use georoute.Errors.{opaque, Result, ok, err, sentinel, server_closed}
use georoute.System.{
  or_else, mkdir_all, create_temp, write_file, close, rename, set_file, time_stamp, named, Sys,
  pure, World,
}
use georoute.System.Hoare.{Post}
use georoute.Flags.{CliFlags}
use georoute.Flags.Parsed.{flag_defaults}
use georoute.Fetch.{exhausted, fetch_with_retry}
use georoute.Fetch.Retry.{stop}
use georoute.Fetch.Response.{RipeResp, Response, fetch, http_error}
use georoute.Fetch.Cache.{Format, fetch_with_cache}
use georoute.Fetch.ClientErrors.{fetch_with_cache-ClientError}
use georoute.Metrics.{
  Metrics, new_metrics, observe_run, observe_fetch, observe_nft_apply, observe_frr_reload,
  set_prefix_count, set_last_success, set_cache_age,
}
use georoute.Metrics.Laws.{Fits, calls, distinct, reports-Fit}
use georoute.Health.Success.{serve_route-write_last_success}
use georoute.Health.{write_last_success, status, new_server, ready, serve_route}
use georoute.Health.Ready.{Documented, Tells, serve_route-Tells}
use georoute.Health.Life.{
  Call, pre_binds, starts_up, stops_loop, shuts_down, apply_calls, Keeps, apply_calls-Keeps,
}
use georoute.Run.{run}
use georoute.Run.Specification.{Ran}
use georoute.Run.Laws.{run-Ran}
use georoute.Main.{Process}
use georoute.Main.Lock.{
  boot, then_step, acquire, Machine, working, set_owner, set_stage, booted, working_exclusive,
}
use georoute.Examples.Configs.{router}
use georoute.Examples.Effects.{env, world}

-- A cache in which a feed is its status.
abbrev pub by_status : Format RipeResp
by_status = record {
  partial = λ t. [];
  encode = λ t. t.status;
  decode = λ t. ok (record { status = t; ipv4 = []; ipv6 = [] });
}

abbrev pub feed : RipeResp
feed = record {
  status = bytes "ok";
  ipv4 = bytes "10.0.0.0/24" ∷ bytes "10.0.1.0/24" ∷ [];
  ipv6 = [];
}

abbrev pub no_push : CliFlags → Bytes → Sys (Unit {0})
no_push f text = pure tt

abbrev frr_flags : CliFlags
frr_flags = record router { target = bytes "frr" }

is_frr : bytes_eq frr_flags.target (bytes "frr") ≡ true
unfolding bytes_eq
is_frr = refl

run-Ran_example :
    Post
      (λ _.
        Ran by_status env frr_flags
          (ok feed)
          (λ q. world.files (named q))
          world.running
          world.clock
          true)
      (λ _.
        Ran by_status env frr_flags
          (ok feed)
          (λ q. world.files (named q))
          world.running
          world.clock
          false)
      (run by_status none no_push frr_flags none (ok feed) env world)
run-Ran_example = run-Ran by_status none no_push env world frr_flags none (ok feed) is_frr

abbrev process : Process
process = record {
  cancel = none;
  fetched = ok feed;
  later = err (opaque []) ∷ ok feed ∷ [];
  check_added = ok tt;
  listened = ok 9090;
  served = some (sentinel server_closed);
  shut_down = none;
}

-- A daemon with its server.
abbrev daemon : CliFlags
daemon = record flag_defaults { refresh_interval = pos 3600000000000; http_addr = bytes ":9090" }

-- A library that answers as it documents.
abbrev by_outcome : ℕ → ℕ → Result (Unit {0}) → ℕ
by_outcome s e (ok a) = s
by_outcome s e (err x) = e

documented : Documented by_outcome
documented = record { on_success = λ s e. refl; on_error = λ s e x. refl }

serve_route-Tells_example :
    Tells env world
      (bytes "m")
      (pos 10)
      (serve_route by_outcome (bytes "m") (pos 10) ready env world).1
serve_route-Tells_example =
    serve_route-Tells by_outcome documented env world (bytes "m") (pos 10) ready tt

abbrev binds : List Call
binds = pre_binds (ok 9090) ∷ []

abbrev stops : List Call
stops = starts_up (ok 9091) none ∷ stops_loop ∷ shuts_down none ∷ []

apply_calls-Keeps_example :
    ((apply_calls new_server (binds ++ stops)).shutdowns ≤ 1)
    × Keeps (apply_calls new_server binds).ln (apply_calls (apply_calls new_server binds) stops).ln
apply_calls-Keeps_example = apply_calls-Keeps binds stops

-- The lock of every process.
abbrev one_lock : ℕ → Bytes
one_lock i = bytes "l"

-- The third process has the lock.
abbrev held : Machine
held = record booted {
  owner = set_owner booted.owner (bytes "l") (some 3);
  stage = set_stage booted.stage 3 working;
}

third_works : held.stage 3 ≡ working
unfolding set_stage
third_works = refl

working_exclusive_example : ◌≡◌ {A = ℕ} 3 3
working_exclusive_example =
    working_exclusive one_lock (then_step boot (acquire 3 refl refl)) 3 3 refl third_works
      third_works

abbrev ru : Metrics
ru = record { country = bytes "ru" }

reports-Fit_example :
    (distinct new_metrics ≡ true)
    × All Fits (calls env world (observe_run ru (bytes "error") (pos 2)))
    × All Fits (calls env world (observe_fetch ru (bytes "cache") (bytes "error") (pos 2)))
    × All Fits (calls env world (observe_nft_apply ru (bytes "error") (pos 2)))
    × All Fits (calls env world (observe_frr_reload ru (bytes "error") (pos 2)))
    × All Fits (calls env world (set_prefix_count ru (bytes "v4") (bytes "cache") 7))
    × All Fits (calls env world (set_last_success ru (pos 2)))
    × All Fits (calls env world (set_cache_age ru (pos 2)))
reports-Fit_example =
    reports-Fit env world ru (bytes "cache") (bytes "error") (bytes "v4") 7 (pos 2)

-- The only attempt is answered with 404.
abbrev gone : Response
gone = record { status_code = 404; body = bytes "no such country" }

abbrev asked_once : ℕ → Result RipeResp
asked_once k = fetch (λ url. ok tt) (λ url. ok gone) (λ text. err (opaque [])) (bytes "u")

fetch_with_cache-ClientError_example :
    fetch_with_cache by_status
      (bytes "f")
      (pos 10)
      (fetch_with_retry asked_once (λ k d. none) (pos (0 + 1)) (pos 2))
      env
      world
    ≡ (world, err (exhausted (some (http_error gone))))
fetch_with_cache-ClientError_example =
    fetch_with_cache-ClientError by_status env world (bytes "f") (pos 10) asked_once (λ k d. none)
      (pos 2) 0 (λ url. ok tt) (λ url. ok gone) (λ text. err (opaque [])) (bytes "u") gone stop refl
      refl refl refl (omega arith) (omega arith)

abbrev marked : World
marked = (write_last_success (bytes "m") env world).0

-- Every call works, and the marker is written.
is_marked : write_last_success (bytes "m") env world ≡ (marked, ok tt)
unfolding write_last_success or_else mkdir_all create_temp write_file close rename set_file
    time_stamp
is_marked = refl

serve_route-write_last_success_example :
    (serve_route by_outcome (bytes "m") (pos 10) ready env marked).1 ≡ ok (status 200)
serve_route-write_last_success_example =
    serve_route-write_last_success by_outcome env (bytes "m") (pos 10) world marked documented
      is_marked refl refl
