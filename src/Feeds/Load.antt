-- ===== src/Feeds/Load.antt =====
-- extras.go's `loadExtras` as a whole: the file is opened, sized, split into lines and scanned.
use georoute.Base.{
  ℕ, ◌+◌, true, false, Option, none, some, List, [], ◌∷◌, ◌++◌, ◌==◌, ltb, leb, length,
  if◌then◌else◌,
}
use georoute.Netip.{Bytes, Prefix, is_nil}
use georoute.Text.{bytes, decimal}
use georoute.Errors.{
  Error, Result, ok, err, sentinel, detail, wrap, is, not_exist, too_long, extras_too_large,
}
use georoute.System.{
  named, Sys, ◌>>=◌, ◌>>◌, pure, throw, attempt, or_else, resume, deferred, open_file, stat_size,
  read_stream, close,
}
use georoute.Feeds.{scan_extras}

abbrev pub extras_max_file_bytes : ℕ
extras_max_file_bytes = 1048576

abbrev extras_max_line_bytes : ℕ
extras_max_line_bytes = 4096

-- A trailing carriage return is not part of a line.
unfoldable pub drop_cr : Bytes → Bytes
drop_cr [] = []
drop_cr (c ∷ []) = if c == b'\r' then [] else c ∷ []
drop_cr (c ∷ d ∷ s) = c ∷ drop_cr (d ∷ s)

abbrev pub with_line : Bytes → List Bytes × Option Error → List Bytes × Option Error
with_line line (l, e) = (line ∷ l, e)

-- `bufio.Scanner` with `ScanLines` and a buffer of extras_max_line_bytes, behind the bytes `cur`
-- of the line: a line fails that fills the buffer without its newline.
unfoldable pub scan_lines : Bytes → Bytes → List Bytes × Option Error
scan_lines [] cur = if is_nil cur then ([], none) else (drop_cr cur ∷ [], none)
scan_lines (c ∷ s) cur = elim (c == b'\n') [
  | true ↦ with_line (drop_cr cur) (scan_lines s [])
  | false ↦ elim (leb extras_max_line_bytes (length cur + 1)) [
    | true ↦ ([], some (sentinel too_long))
    | false ↦ scan_lines s (cur ++ (c ∷ []))
  ]
]

abbrev pub scanned : ℕ → List Bytes × Option Error → Option Error → Result (List Prefix)
scanned family (lines, none) end = scan_extras family 0 lines end
scanned family (lines, some e) end = scan_extras family 0 lines (some e)

-- The scan of what the file's reader gives.
unfoldable pub scan_file : ℕ → Bytes × Option Error → Result (List Prefix)
scan_file family (text, end) = scanned family (scan_lines text []) end

abbrev pub opened : Bytes → Result (Unit {0}) → Sys (Unit {0})
opened path (ok _) = pure tt
opened path (err e) =
    if is e not_exist
    then throw (wrap (bytes "extras file") e)
    else throw (wrap (bytes "open extras") e)

abbrev pub check_size : Bytes → Option ℕ → Sys (Unit {0})
check_size path none = pure tt
check_size path (some n) =
    if ltb extras_max_file_bytes n
    then throw (detail (sentinel extras_too_large) (path ++ (bytes ": " ++ decimal n)))
    else pure tt

-- What is done between the opening and the closing.
unfoldable pub read_extras : Bytes → ℕ → Sys (List Prefix)
read_extras path family = do
  size ← or_else (stat_size (named path)) (bytes "stat extras") (pure tt)
  check_size path size
  x ← read_stream (named path)
  resume (scan_file family x)

unfoldable pub load_extras : Bytes → ℕ → Sys (List Prefix)
load_extras [] family = pure []
load_extras (c ∷ path) family = do
  r ← attempt (open_file (named (c ∷ path)))
  opened (c ∷ path) r
  deferred (read_extras (c ∷ path) family) (close (named (c ∷ path)))
