-- ===== src/Examples.antt =====
-- Concrete runs of main.go, cache.go, rollback.go, refresh.go and target.go: the data that the
-- examples share.
pub mod Prefixes
pub mod Configs
pub mod Effects
pub mod Files
pub mod Router
pub mod Process
pub mod Texts
use georoute.Base.{ℕ, ◌*◌, ◌^◌, Bool, true, false, List, [], ◌∷◌, ◌++◌, All}
use georoute.Netip.{Addr, Prefix, IsAddr, IsMasked}

abbrev pub v4 : ℕ → Addr
v4 n = record { is4 = true; num = n; zone = [] }

abbrev pub net : ℕ → ℕ → Prefix
net n bits = record { addr = v4 n; bits = bits }
