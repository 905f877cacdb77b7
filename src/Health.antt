-- ===== src/Health.antt =====
-- health.go: the marker of the last success, the readiness check, and the server's life.
pub mod Marker
pub mod Ready
pub mod Success
pub mod Life
use georoute.Base.{
  Bool, true, false, Option, none, some, ◌+◌, ℕ, ℤ, greater, ◌++◌, [], if◌then◌else◌,
}
use georoute.Netip.{Bytes}
use georoute.Text.{bytes}
use georoute.Errors.{
  Error, Result, ok, err, sentinel, detail, wrap, is, not_exist, last_success_missing,
  last_success_stale, server_closed,
}
use georoute.System.{
  named, Sys, ◌>>=◌, ◌>>◌, pure, throw, attempt, or_else, mkdir_all, create_temp, write_file, close,
  rename, remove, stat_age, time_stamp,
}

-- `writeLastSuccess`: the marker's text does not matter, so its write may fail.
unfoldable pub write_last_success : Bytes → Sys (Unit {0})
write_last_success path = do
  or_else (mkdir_all path) (bytes "mkdir last-success dir") (pure tt)
  tmp ← or_else (create_temp path) (bytes "create temp last-success") (pure tt)
  stamp ← time_stamp
  attempt (write_file tmp (stamp ++ bytes "\n"))
  or_else (close tmp) (bytes "close last-success") (remove tmp)
  or_else (rename tmp (named path)) (bytes "rename last-success") (remove tmp)

abbrev pub marker_age : Bytes → Result ℤ → Sys ℤ
marker_age path (ok age) = pure age
marker_age path (err e) =
    if is e not_exist
    then throw (detail (sentinel last_success_missing) path)
    else throw (wrap (bytes "stat last-success") e)

unfoldable pub last_success_age : Bytes → Sys ℤ
last_success_age path = do r ← attempt (stat_age (named path)); marker_age path r

-- The check that `newHealthServer` registers; the durations of its message are left out.
unfoldable pub check_last_success : Bytes → ℤ → Sys (Unit {0})
check_last_success path max_age = do
  age ← last_success_age path
  if greater age max_age then throw (detail (sentinel last_success_stale) []) else pure tt

-- The patterns of the mux: those that the health library names, and /metrics.
pub data Route : Type 0 where
  live ready startup health debug metrics : Route

-- The answer by a status, or a handler of a library.
pub data Answer : Type 0 where
  status : ℕ → Answer
  pprof scrape : Answer

-- `newHealthServer`'s mux. The parameter is how the health library makes a status of its success
-- status, its error status and the outcome of the check that it runs.
module _ (answer_of : ℕ → ℕ → Result (Unit {0}) → ℕ) where
  unfoldable pub handler_health : Bytes → ℤ → Sys Answer
  handler_health path max_age = do
    r ← attempt (check_last_success path max_age)
    pure (status (answer_of 200 503 r))

  unfoldable pub serve_route : Bytes → ℤ → Route → Sys Answer
  serve_route path max_age live = pure (status 200)
  serve_route path max_age ready = handler_health path max_age
  serve_route path max_age startup = handler_health path max_age
  serve_route path max_age health = handler_health path max_age
  serve_route path max_age debug = pure pprof
  serve_route path max_age metrics = pure scrape

-- The listener, what `sync.Once` remembers, and how often the library's loop was started and shut
-- down.
pub record HealthServer : Type 0 where
  pub ln : Option ℕ
  pub stop_bg_done : Bool
  pub starts : ℕ
  pub shutdowns : ℕ

abbrev pub new_server : HealthServer
new_server = record { ln = none; stop_bg_done = false; starts = 0; shutdowns = 0 }

abbrev bound : HealthServer → Result ℕ → HealthServer × Result (Unit {0})
bound h (ok l) = (record h { ln = some l }, ok tt)
bound h (err e) = (h, err (wrap (bytes "listen") e))

abbrev pub bound_once : HealthServer → Result ℕ → Option ℕ → HealthServer × Result (Unit {0})
bound_once h listened none = bound h listened
bound_once h listened (some l) = (h, ok tt)

-- `preBind`; the first argument is what listening gives.
unfoldable pub pre_bind : Result ℕ → HealthServer → HealthServer × Result (Unit {0})
pre_bind listened h = bound_once h listened h.ln

-- `serve`, by what `Serve` of the HTTP server returns.
unfoldable pub serve : Option Error → Result (Unit {0})
serve none = ok tt
serve (some e) = if is e server_closed then ok tt else err (wrap (bytes "serve") e)

abbrev pub served :
    Option Error → HealthServer × Result (Unit {0}) → HealthServer × Result (Unit {0})
served end (h, ok _) = (record h { starts = h.starts + 1 }, serve end)
served end (h, err e) = (h, err e)

unfoldable pub start : Result ℕ → Option Error → HealthServer → HealthServer × Result (Unit {0})
start listened end h = served end (pre_bind listened h)

unfoldable pub stop_background_loop : HealthServer → HealthServer
stop_background_loop h =
    if h.stop_bg_done then h else record h { stop_bg_done = true; shutdowns = h.shutdowns + 1 }

abbrev closed : Option Error → Result (Unit {0})
closed none = ok tt
closed (some e) = err (wrap (bytes "http shutdown") e)

-- `shutdown`, by what `Shutdown` of the HTTP server returns; the loop stops in either case.
unfoldable pub shutdown : Option Error → HealthServer → HealthServer × Result (Unit {0})
shutdown ended h = (stop_background_loop h, closed ended)
