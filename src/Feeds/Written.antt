-- ===== src/Feeds/Written.antt =====
-- target.go's `writeTargetOutput` and extras.go's `loadExtras` on one file.
use mathlib.Core.Path.{subst}
use georoute.Base.{
  ℕ, ◌+◌, ◌≤◌, ◌≡◌, refl, sym, ◌∙◌, Bool-cases, inl, inr, false, none, Option, some, List, ◌∷◌,
  ◌++◌, All, ltb, length, arith,
}
use georoute.Netip.{Bytes, Prefix}
use georoute.Text.{bytes, bytes_eq}
use georoute.Errors.{Result, ok, err}
use georoute.System.{
  named, World, Env, or_else, deferred, read_file, open_file, stat_size, read_stream,
}
use georoute.System.Hoare.{Post}
use georoute.System.Files.{Stable}
use georoute.Target.{render_prefix_lines}
use georoute.Target.Run.{write_target_output}
use georoute.Target.Output.{to_stdout, Output, write_target_output-Output}
use georoute.Feeds.Load.{scan_file, load_extras, read_extras, extras_max_file_bytes}
use georoute.Feeds.RoundTrip.{Ipv4, scan_file-render_prefix_lines}

module _ (c : ℕ) (path : Bytes) (family : ℕ) (l : List Prefix) (env : Env) (v : World)
    (text : Bytes) where
  -- Where the calls work, a file of a bearable size gives what its scan gives.
  read_lem :
      v.files (named (c ∷ path)) ≡ some text
      → scan_file family (text, none) ≡ ok l
      → ltb extras_max_file_bytes (length text) ≡ false
      → env.fault v.clock ≡ none
      → env.fault (v.clock + 1) ≡ none
      → env.fault (v.clock + 1 + 1) ≡ none
      → (load_extras (c ∷ path) family env v).1 ≡ ok l
  unfolding load_extras open_file read_file deferred read_extras stat_size or_else read_stream
  read_lem at scan fits first second third =
      elim (Bool-cases (env.regular (v.clock + 1) (named (c ∷ path)))) [
        | inl y ↦ rw (at, first, at, second, y, fits, at, third, scan) refl
        | inr n ↦ rw (at, first, at, second, n, at, third, scan) refl
      ]

-- The text of a file after a success.
abbrev Holding : Bytes → Bytes → World × Result (Unit {0}) → Type 0
Holding path text (v, ok a) = v.files (named path) ≡ some text
Holding path text (v, err e) = Unit {0}

written :
    (path contents : Bytes) (g : Bytes → Option Bytes) (r : Option Bytes)
    (x : World × Result (Unit {0}))
    → to_stdout path ≡ false
    → Post (λ _. Output g r path contents) (λ _. Stable g r) x
    → Holding path (contents ++ bytes "\n") x
written path contents g r (v, ok a) plain (inl h) = cc (sym h.0 ∙ plain)
written path contents g r (v, ok a) plain (inr h) = h.1.0
written path contents g r (v, err e) plain h = tt

-- What is written to a path that does not stand for stdout.
write_target_output_lem :
    (path contents : Bytes) (env : Env) (w v : World)
    → to_stdout path ≡ false
    → write_target_output path contents env w ≡ (v, ok tt)
    → v.files (named path) ≡ some (contents ++ bytes "\n")
write_target_output_lem path contents env w v plain e =
    subst (Holding path (contents ++ bytes "\n")) e (
      written path contents (λ q. w.files (named q)) w.running
        (write_target_output path contents env w) plain
        ((write_target_output-Output env (λ q. w.files (named q)) w.running path contents).run w
          ((λ q. refl), refl)))

fits : (n m : ℕ) → m ≤ n → ltb n m ≡ false
fits n m h = ground arith

-- A list of masked IPv4 prefixes that `writeTargetOutput` has written to a file, in any order and
-- with any duplicates, is what `loadExtras` gives of that file right after it: if the three calls
-- of the reading whose errors count work, and the text has at most 1 MiB.
pub load_extras-write_target_output :
    (c : ℕ) (path : Bytes) (l : List Prefix) (env : Env) (w v : World)
    → All Ipv4 l
    → bytes_eq (c ∷ path) (bytes "-") ≡ false
    → write_target_output (c ∷ path) (render_prefix_lines l) env w ≡ (v, ok tt)
    → length (render_prefix_lines l ++ bytes "\n") ≤ extras_max_file_bytes
    → env.fault v.clock ≡ none
    → env.fault (v.clock + 1) ≡ none
    → env.fault (v.clock + 1 + 1) ≡ none
    → (load_extras (c ∷ path) 4 env v).1 ≡ ok l
load_extras-write_target_output c path l env w v h plain e small =
    read_lem c path 4 l env v (render_prefix_lines l ++ bytes "\n")
      (write_target_output_lem (c ∷ path) (render_prefix_lines l) env w v plain e)
      (scan_file-render_prefix_lines l h)
      (fits extras_max_file_bytes (length (render_prefix_lines l ++ bytes "\n")) small)
