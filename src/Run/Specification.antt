-- ===== src/Run/Specification.antt =====
-- main.go's `run`: what it promises of the files, nft and FRR.
use georoute.Base.{ℕ, ◌||◌, All, ◌≡◌, ◌⊎◌, Bool, true, false, Option, List}
use georoute.Netip.{Bytes, Addr, Prefix, IsAddr, covers}
use georoute.Feeds.{parse_prefixes}
use georoute.Feeds.Extras.{Accepted}
use georoute.Errors.{Result}
use georoute.System.{World, Env}
use georoute.System.Files.{Stable}
use georoute.Flags.{CliFlags}
use georoute.Fetch.{FeedSource}
use georoute.Fetch.Response.{RipeResp}
use georoute.Fetch.Cache.{Format}
use georoute.Fetch.Sources.{Origin}
use georoute.Feeds.Loading.{Extras}
use georoute.Pipeline.Specification.{Deployed, Updated}
use georoute.Run.{merged}

-- The merged list holds just the addresses of the feed's prefixes and of the extras.
abbrev pub IsExact : List Bytes → List Prefix → Type 0
IsExact raw extras =
    (a : Addr)
    → IsAddr a
    → covers (merged raw extras) a ≡ (covers (parse_prefixes raw) a || covers extras a)

-- What a target promises of its success or failure: of the two merged lists, the files before and
-- the world behind.
abbrev pub Landing : Type 1
Landing = Bool → List Prefix → List Prefix → (Bytes → Option Bytes) → World → Type 0

-- A feed with its origin, where the fetch's first call is the call `start`, the extras of both families, and what the target made of them, over the
-- files `g` that the fetch left.
pub record Delivered (Landed : Landing) (format : Format RipeResp) (env : Env) (f : CliFlags)
    (fetched : Result RipeResp) (before : Bytes → Option Bytes) (r : Option Bytes) (start : ℕ)
    (succeeded : Bool) (g : Bytes → Option Bytes) (w : World) : Type 0 where
  pub feed : RipeResp
  pub source : FeedSource
  pub origin : Origin format env before r start f.cache_file f.cache_max_age fetched feed source
  pub extras_v4 : List Prefix
  pub extras_v6 : List Prefix
  pub loaded_v4 : Extras g f.extras_v4_file 4 extras_v4
  pub loaded_v6 : Extras g f.extras_v6_file 6 extras_v6
  pub accepted : All (Accepted 4) extras_v4 × All (Accepted 6) extras_v6
  pub exact : IsExact feed.ipv4 extras_v4 × IsExact feed.ipv6 extras_v6
  pub landed : Landed succeeded (merged feed.ipv4 extras_v4) (merged feed.ipv6 extras_v6) g w

-- The fetch left the files `left`, which are the old ones but for the cache; either the run failed
-- with them, and with FRR as it was, or it delivered.
pub record RanTo (Landed : Landing) (format : Format RipeResp) (env : Env) (f : CliFlags)
    (fetched : Result RipeResp) (before : Bytes → Option Bytes) (r : Option Bytes) (start : ℕ)
    (succeeded : Bool) (w : World) : Type 0 where
  pub left : Bytes → Option Bytes
  pub kept : (q : Bytes) → ¬ (f.cache_file ≡ q) → left q ≡ before q
  pub ended :
      ((succeeded ≡ false) × Stable left r w)
      ⊎ Delivered Landed format env f fetched before r start succeeded left w

-- What target frr promises.
abbrev pub OnFrr : CliFlags → Option Bytes → Landing
OnFrr f r succeeded v4 v6 g w = Deployed f v4 v6 g r w × (succeeded ≡ true → Updated f v4 v6 g w)

abbrev pub Ran :
    Format RipeResp
    → Env
    → CliFlags
    → Result RipeResp
    → (Bytes → Option Bytes)
    → Option Bytes
    → ℕ
    → Bool
    → World
    → Type 0
Ran format env f fetched before r start = RanTo (OnFrr f r) format env f fetched before r start
