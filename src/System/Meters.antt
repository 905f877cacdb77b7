-- ===== src/System/Meters.antt =====
-- The collectors of the Prometheus client that metrics.go makes, and the calls on them.
use georoute.Base.{List, ℤ}
use georoute.Netip.{Bytes}

pub data Kind : Type 0 where
  counter gauge histogram : Kind

-- `NewCounterVec`, `NewGaugeVec` or `NewHistogramVec`: the series' name and its label names.
pub record Collector : Type 0 where
  pub kind : Kind
  pub name : Bytes
  pub labels : List Bytes

-- `WithLabelValues(…)` of a collector, and then `Inc()`, `Set(n)`, or `Set` or `Observe` of the
-- `Seconds()` of a duration, which is kept in nanoseconds.
pub data Measure : Type 0 where
  inc : Collector → List Bytes → Measure
  set_number : Collector → List Bytes → ℤ → Measure
  set_seconds : Collector → List Bytes → ℤ → Measure
  observe_seconds : Collector → List Bytes → ℤ → Measure
