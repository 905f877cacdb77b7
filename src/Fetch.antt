-- ===== src/Fetch.antt =====
-- main.go's `fetchWithRetry`, and cache.go: the cached feed and the fallback to it.
pub mod Contains
pub mod Retry
pub mod Cache
pub mod Sources
pub mod Response
pub mod ClientErrors
pub mod Kept
pub mod Stored
use georoute.Base.{
  ℕ, zero, suc, ◌+◌, ◌-◌, ◌*◌, ◌%◌, ◌^◌, Bool, true, false, not, ◌&&◌, ◌||◌, Option, none, some,
  List, [], ◌∷◌, ◌++◌, ◌==◌, leb, ltb, if◌then◌else◌, length, take, ℤ, pos, negsuc, greater,
}
use georoute.Netip.{Bytes}
use georoute.Text.{bytes, bytes_eq, decimal}
use georoute.Errors.{
  Error, Result, ok, err, sentinel, opaque, wrap, detail, both, is, http, not_exist, cache_missing,
  cache_stale, error_text,
}
use georoute.System.{
  FilePath, named, Sys, ◌>>=◌, ◌>>◌, pure, throw, attempt, or_else, mkdir_all, create_temp,
  write_file, close, chmod, remove, rename, stat_age, read_file,
}

-- `containsStr`: the loop over the places where the needle still fits.
unfoldable pub contains_loop : Bytes → Bytes → Bool
contains_loop [] sub = leb (length sub) 0 && bytes_eq [] sub
contains_loop (c ∷ s) sub =
    let rest = contains_loop s sub in
    if leb (length sub) (length (c ∷ s))
    then (if bytes_eq (take (length sub) (c ∷ s)) sub then true else rest)
    else false

unfoldable pub contains_bytes : Bytes → Bytes → Bool
contains_bytes s sub = if ltb (length s) (length sub) then false else contains_loop s sub

-- The codes from `code` on, as many as the fuel.
unfoldable pub names_code : ℕ → ℕ → Bytes → Bool
names_code zero code msg = false
names_code (suc n) code msg =
    let rest = names_code n (code + 1) msg in
    if contains_bytes msg (bytes "status=" ++ decimal code) then true else rest

-- `isClientError`: 400 to 499 are a hundred codes.
unfoldable pub is_client_error : Error → Bool
is_client_error e = if is e http then names_code 100 400 (error_text e) else false

pub data FeedSource : Type 0 where
  fresh cache : FeedSource

-- `fmt.Errorf("retries exhausted: %w", lastErr)`; without an attempt there is no error to wrap.
abbrev pub exhausted : Option Error → Error
exhausted (some e) = wrap (bytes "retries exhausted") e
exhausted none = opaque (bytes "retries exhausted: %!w(<nil>)")

-- The signed number that 64 bits spell.
abbrev signed64 : ℕ → ℤ
signed64 m = if ltb m (2 ^ 63) then pos m else negsuc (2 ^ 64 - 1 - m)

-- `time.Duration(n) * d`, which wraps.
abbrev times : ℕ → ℤ → ℤ
times n (pos d) = signed64 (n * d % 2 ^ 64)
times n (negsuc d) = signed64 ((2 ^ 64 - n * (d + 1) % 2 ^ 64) % 2 ^ 64)

-- How the fetches and the waits end: `fetch k` is the k-th attempt, `wait k d` the wait for `d`
-- nanoseconds in front of it, with the error of a context that is done first.
module _ {Feed : Type 0} (fetch : ℕ → Result Feed) (wait : ℕ → ℤ → Option Error) where
  abbrev before : ℕ → ℤ → Option Error
  before attempt base = if attempt == 1 then none else wait attempt (times (attempt - 1) base)

  -- The attempts from `attempt` on, as many as the fuel.
  unfoldable pub retry_loop : ℕ → ℕ → ℤ → Option Error → Result Feed
  retry_loop zero attempt base last = err (exhausted last)
  retry_loop (suc n) attempt base last = elim (before attempt base) [
    | some e ↦ err (wrap (bytes "retry wait") e)
    | none ↦ elim (fetch attempt) [
      | ok feed ↦ ok feed
      | err e ↦ retry_loop n (attempt + 1) base (some e)
    ]
  ]

  -- `fetchWithRetry`
  unfoldable pub fetch_with_retry : ℤ → ℤ → Result Feed
  fetch_with_retry (pos n) base = retry_loop n 1 base none
  fetch_with_retry (negsuc n) base = err (exhausted none)
