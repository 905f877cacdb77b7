-- ===== src/Metrics.antt =====
-- metrics.go: the collectors, and the calls by which the program reports to them.
pub mod Laws
use georoute.Base.{ℕ, Option, none, some, List, [], ◌∷◌, ℤ, pos}
use georoute.Netip.{Bytes}
use georoute.Text.{bytes}
use georoute.Errors.{Result, ok, err}
use georoute.System.{Sys, ◌>>=◌, ◌>>◌, pure, measure, time_since, unix_now}
use georoute.System.Meters.{
  Collector, counter, gauge, histogram, inc, set_number, set_seconds, observe_seconds,
}

abbrev country_label : List Bytes
country_label = bytes "country" ∷ []

abbrev runs_total : Collector
runs_total = record {
  kind = counter;
  name = bytes "georoute_runs_total";
  labels = bytes "country" ∷ bytes "result" ∷ [];
}

abbrev fetches_total : Collector
fetches_total = record {
  kind = counter;
  name = bytes "georoute_fetches_total";
  labels = bytes "country" ∷ bytes "source" ∷ bytes "result" ∷ [];
}

abbrev nft_applies_total : Collector
nft_applies_total = record {
  kind = counter;
  name = bytes "georoute_nft_applies_total";
  labels = bytes "country" ∷ bytes "result" ∷ [];
}

abbrev frr_reloads_total : Collector
frr_reloads_total = record {
  kind = counter;
  name = bytes "georoute_frr_reloads_total";
  labels = bytes "country" ∷ bytes "result" ∷ [];
}

abbrev skipped_overlap_total : Collector
skipped_overlap_total = record {
  kind = counter;
  name = bytes "georoute_skipped_overlap_total";
  labels = country_label;
}

abbrev prefixes_count : Collector
prefixes_count = record {
  kind = gauge;
  name = bytes "georoute_prefixes";
  labels = bytes "country" ∷ bytes "family" ∷ bytes "source" ∷ [];
}

abbrev last_success_unix : Collector
last_success_unix = record {
  kind = gauge;
  name = bytes "georoute_last_success_unixtime";
  labels = country_label;
}

abbrev cache_age : Collector
cache_age = record {
  kind = gauge;
  name = bytes "georoute_cache_age_seconds";
  labels = country_label;
}

abbrev fetch_duration : Collector
fetch_duration = record {
  kind = histogram;
  name = bytes "georoute_fetch_duration_seconds";
  labels = bytes "country" ∷ bytes "source" ∷ [];
}

abbrev nft_apply_duration : Collector
nft_apply_duration = record {
  kind = histogram;
  name = bytes "georoute_nft_apply_duration_seconds";
  labels = country_label;
}

abbrev frr_reload_duration : Collector
frr_reload_duration = record {
  kind = histogram;
  name = bytes "georoute_frr_reload_duration_seconds";
  labels = country_label;
}

-- What `newMetrics` registers, in its order.
abbrev pub new_metrics : List Collector
new_metrics =
    runs_total ∷ fetches_total ∷ nft_applies_total ∷ frr_reloads_total ∷ skipped_overlap_total
    ∷ prefixes_count ∷ last_success_unix ∷ cache_age ∷ fetch_duration ∷ nft_apply_duration
    ∷ frr_reload_duration ∷ []

-- The struct `metrics` beside its collectors.
pub record Metrics : Type 0 where
  pub country : Bytes

-- `metricResultSuccess` or `metricResultError`, by the error of a call.
abbrev pub result_label {ℓ} : {A : Type ℓ} → Result A → Bytes
result_label (ok a) = bytes "success"
result_label (err e) = bytes "error"

-- `if m != nil { … }`
abbrev pub measured : Option Metrics → (Metrics → Sys (Unit {0})) → Sys (Unit {0})
measured none o = pure tt
measured (some m) o = o m

unfoldable pub observe_run : Metrics → Bytes → ℤ → Sys (Unit {0})
observe_run m result dur = measure (inc runs_total (m.country ∷ result ∷ []))

unfoldable pub observe_fetch : Metrics → Bytes → Bytes → ℤ → Sys (Unit {0})
observe_fetch m source result dur = do
  measure (inc fetches_total (m.country ∷ source ∷ result ∷ []))
  measure (observe_seconds fetch_duration (m.country ∷ source ∷ []) dur)

unfoldable pub observe_nft_apply : Metrics → Bytes → ℤ → Sys (Unit {0})
observe_nft_apply m result dur = do
  measure (inc nft_applies_total (m.country ∷ result ∷ []))
  measure (observe_seconds nft_apply_duration (m.country ∷ []) dur)

unfoldable pub observe_frr_reload : Metrics → Bytes → ℤ → Sys (Unit {0})
observe_frr_reload m result dur = do
  measure (inc frr_reloads_total (m.country ∷ result ∷ []))
  measure (observe_seconds frr_reload_duration (m.country ∷ []) dur)

unfoldable pub set_prefix_count : Metrics → Bytes → Bytes → ℕ → Sys (Unit {0})
set_prefix_count m family source count =
    measure (set_number prefixes_count (m.country ∷ family ∷ source ∷ []) (pos count))

unfoldable pub set_last_success : Metrics → ℤ → Sys (Unit {0})
set_last_success m t = measure (set_number last_success_unix (m.country ∷ []) t)

unfoldable pub set_cache_age : Metrics → ℤ → Sys (Unit {0})
set_cache_age m age = measure (set_seconds cache_age (m.country ∷ []) age)

-- `time.Since` in the argument of an observation.
abbrev pub timed : (ℤ → Sys (Unit {0})) → Sys (Unit {0})
timed o = time_since >>= o
