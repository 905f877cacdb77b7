-- ===== src/Logging.antt =====
-- logging.go: the level and the format of the logger. What log/slog writes is not modelled.
use georoute.Base.{◌||◌, ◌++◌, if◌then◌else◌}
use georoute.Netip.{Bytes}
use georoute.Text.{bytes, bytes_eq, to_lower}
use georoute.Errors.{
  Result, ok, err, sentinel, detail, invalid_log_level, invalid_log_format, ◌>>=◌,
}

pub data Level : Type 0 where
  debug info warn error : Level

-- `slog.NewTextHandler` or `slog.NewJSONHandler`.
pub data Handler : Type 0 where
  text_handler json_handler : Level → Handler

unfoldable parse_log_level : Bytes → Result Level
unfolding to_lower bytes_eq
parse_log_level s =
    let lower = to_lower s in
    if bytes_eq lower (bytes "debug")
    then ok debug
    else if bytes_eq lower (bytes "info")
    then ok info
    else if bytes_eq lower (bytes "warn") || bytes_eq lower (bytes "warning")
    then ok warn
    else if bytes_eq lower (bytes "error")
    then ok error
    else err (detail (sentinel invalid_log_level) (s ++ bytes " (want debug|info|warn|error)"))

abbrev handler_of : Bytes → Level → Result Handler
handler_of format level =
    if bytes_eq format (bytes "text")
    then ok (text_handler level)
    else if bytes_eq format (bytes "json")
    then ok (json_handler level)
    else err (detail (sentinel invalid_log_format) format)

-- `newLogger`: the level is judged before the format.
unfoldable pub new_logger : Bytes → Bytes → Result Handler
unfolding parse_log_level bytes_eq
new_logger format level = parse_log_level level >>= handler_of format
