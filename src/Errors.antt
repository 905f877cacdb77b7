-- ===== src/Errors.antt =====
-- Go error values: sentinels, wrapping by `fmt.Errorf`, and `errors.Is`.
use georoute.Base.{Bool, true, false, ◌||◌, ◌∷◌, ◌++◌}
use georoute.Netip.{Bytes}
use georoute.Text.{bytes}

-- The package's sentinels (main.go, cache.go, extras.go, target.go, iosxe_ssh.go, health.go,
-- logging.go) and those of the standard library that the program tests for.
pub data Sentinel : Type 0 where
  bad_status http begin_missing end_missing locked : Sentinel
  cache_missing cache_stale : Sentinel
  extras_family_mismatch extras_invalid_prefix extras_too_large extras_line_too_long : Sentinel
  unsupported_target unsupported_target_mode apply_prefix_limit iosxe_apply_config : Sentinel
  iosxe_apply_rejected iosxe_postcheck_failed iosxe_save_rejected : Sentinel
  last_success_missing last_success_stale invalid_log_format invalid_log_level : Sentinel
  not_exist would_block too_long canceled server_closed : Sentinel

Sentinel-discrete : Discrete Sentinel
Sentinel-discrete = hlevel

-- `wrap` is `fmt.Errorf("context: %w", err)`, `detail` is `fmt.Errorf("%w: …", err, value)` with
-- the value behind it, `both` is `errors.Join` or a format with two `%w`.
pub data Error : Type 0 where
  sentinel : Sentinel → Error
  opaque : Bytes → Error
  wrap : Bytes → Error → Error
  detail : Error → Bytes → Error
  both : Error → Error → Error

pub data Result {ℓ} (A : Type ℓ) : Type ℓ where
  ok : A → Result A
  err : Error → Result A

infixl 5 ◌>>=◌ ◌>>◌
abbrev pub ◌>>=◌ {ℓ κ} : {A : Type ℓ} {B : Type κ} → Result A → (A → Result B) → Result B
ok a >>= f = f a
err e >>= f = err e

abbrev pub ◌>>◌ {ℓ κ} : {A : Type ℓ} {B : Type κ} → Result A → Result B → Result B
ok a >> r = r
err e >> r = err e

-- The context that a caller adds to an error.
abbrev pub in_context {ℓ} : {A : Type ℓ} → Bytes → Result A → Result A
in_context c (ok a) = ok a
in_context c (err e) = err (wrap c e)

abbrev eq_sentinel : Sentinel → Sentinel → Bool
eq_sentinel a b = elim (Sentinel-discrete a b) [ yes _ ↦ true | no _ ↦ false ]

-- `errors.Is(err, sentinel)`
unfoldable pub is : Error → Sentinel → Bool
unfolding Sentinel-discrete
is (sentinel s) t = eq_sentinel s t
is (opaque m) t = false
is (wrap c e) t = is e t
is (detail e v) t = is e t
is (both e f) t = is e t || is f t

-- The messages of the sentinels.
abbrev sentinel_text : Sentinel → Bytes
sentinel_text bad_status = bytes "RIPE Stat status not ok"
sentinel_text http = bytes "RIPE Stat HTTP error"
sentinel_text begin_missing = bytes "begin marker not found in FRR config"
sentinel_text end_missing = bytes "end marker not found or misplaced in FRR config"
sentinel_text locked = bytes "another georoute run holds the lock"
sentinel_text cache_missing = bytes "cache file does not exist"
sentinel_text cache_stale = bytes "cache file exceeds max age"
sentinel_text extras_family_mismatch = bytes "extras prefix family does not match flag"
sentinel_text extras_invalid_prefix = bytes "extras prefix invalid"
sentinel_text extras_too_large = bytes "extras file exceeds maximum size"
sentinel_text extras_line_too_long = bytes "extras line exceeds maximum length"
sentinel_text unsupported_target = bytes "unsupported target"
sentinel_text unsupported_target_mode = bytes "unsupported target mode"
sentinel_text apply_prefix_limit = bytes "iosxe apply prefix limit exceeded"
sentinel_text iosxe_apply_config = bytes "iosxe apply configuration incomplete"
sentinel_text iosxe_apply_rejected = bytes "iosxe apply rejected"
sentinel_text iosxe_postcheck_failed = bytes "iosxe postcheck failed"
sentinel_text iosxe_save_rejected = bytes "iosxe save rejected"
sentinel_text last_success_missing = bytes "last-success file missing"
sentinel_text last_success_stale = bytes "last-success older than max age"
sentinel_text invalid_log_format = bytes "invalid log format"
sentinel_text invalid_log_level = bytes "invalid log level"
sentinel_text not_exist = bytes "file does not exist"
sentinel_text would_block = bytes "resource temporarily unavailable"
sentinel_text too_long = bytes "bufio.Scanner: token too long"
sentinel_text canceled = bytes "context canceled"
sentinel_text server_closed = bytes "http: Server closed"

-- `err.Error()`
unfoldable pub error_text : Error → Bytes
error_text (sentinel s) = sentinel_text s
error_text (opaque m) = m
error_text (wrap c e) = c ++ (bytes ": " ++ error_text e)
error_text (detail e v) = error_text e ++ (bytes ": " ++ v)
error_text (both e f) = error_text e ++ (b'\n' ∷ error_text f)
