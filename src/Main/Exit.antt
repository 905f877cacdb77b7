-- ===== src/Main/Exit.antt =====
-- main.go's `realMain` behind the parsing of the flags.
use georoute.Base.{◌∙◌, ℕ, ◌≡◌, true, Option}
use georoute.Netip.{Bytes}
use georoute.Text.{bytes, bytes_eq}
use georoute.System.{named, World, Env, Sys}
use georoute.System.Hoare.{Hoare}
use georoute.Flags.{CliFlags}
use georoute.Fetch.Response.{RipeResp}
use georoute.Fetch.Cache.{Format}
use georoute.Fetch.Kept.{Kept}
use georoute.Metrics.{Metrics}
use georoute.Health.{HealthServer}
use georoute.Main.{Process}
use georoute.Main.Laws.{At}
use georoute.Main.Specification.{Served, Exited, locked_world}

module _ (format : Format RipeResp) (push : CliFlags → Bytes → Sys (Unit {0})) (p : Process)
    (env : Env) (f : CliFlags) (frr : bytes_eq f.target (bytes "frr") ≡ true) where
  module _ (u : World) where
    abbrev Out : ℕ × Option HealthServer → World → Type 0
    Out y = Served format env f p u y.0

  module _ (w : World) where
    -- The process ends, from the world behind the lock.
    abbrev Ends : ℕ × Option HealthServer → World → Type 0
    Ends y = Exited format env f p w y.0

    abbrev u : World
    u = locked_world env f w

    abbrev Locked : World → Type 0
    Locked = Kept (λ q. w.files (named q)) w.running f.lock_file

    kept : (v : World) → Locked u → At u v → Locked v
    kept v k h = ((λ q o. h.0.0 q ∙ k.0 q o), h.0.1 ∙ k.1)
