-- ===== src/Feeds/Loading.antt =====
-- extras.go's `loadExtras`, call by call.
use mathlib.Core.Path.{subst}
use georoute.Base.{
  ℕ, ◌+◌, ◌≡◌, refl, sym, Bool, Bool-cases, inl, inr, Option, none, some, List, [], ◌∷◌, ltb,
}
use georoute.Netip.{Bytes, Prefix}
use georoute.Text.{bytes}
use georoute.Errors.{Error, Result, ok, err, is, not_exist, too_long}
use georoute.System.{
  FilePath, named, World, Env, pure, resume, deferred, finished, open_file, stat_size, read_stream,
  close, tick, size_ended, stream_ended,
}
use georoute.System.Hoare.{Post, Hoare, bind_lem, or_else_lem, attempt_lem, given, cleaned}
use georoute.System.Files.{Stable, close_stable_lem}
use georoute.Rollback.Specification.{read_file_lem}
use georoute.Feeds.{extras_line, scan_extras, scan_end, then_rest}
use georoute.Feeds.Load.{
  scanned, scan_file, scan_lines, opened, check_size, read_extras, load_extras,
  extras_max_file_bytes,
}

-- The extras of a path: none without a path, else the scan of the whole file.
abbrev pub Extras : (Bytes → Option Bytes) → Bytes → ℕ → List Prefix → Type 0
Extras g [] family l = l ≡ []
Extras g (c ∷ path) family l =
    (text : Bytes) × (g (c ∷ path) ≡ some text) × (scan_file family (text, none) ≡ ok l)

abbrev Fails : Result (List Prefix) → Type 0
Fails (ok l) = ⊥
Fails (err e) = Unit {0}

end-Fails : (n : ℕ) (e : Error) → Fails (scan_end n (some e))
end-Fails n e = elim (Bool-cases (is e too_long)) [ inl y ↦ rw y tt | inr y ↦ rw y tt ]

rest-Fails : (x y : Result (List Prefix)) → Fails y → Fails (then_rest x y)
rest-Fails (ok l) (err e) h = tt
rest-Fails (err x) y h = tt
rest-Fails (ok l) (ok m) h = absurd h

scan-Fails :
    (family n : ℕ) (lines : List Bytes) (e : Error) → Fails (scan_extras family n lines (some e))
unfolding scan_extras
scan-Fails family n [] e = end-Fails n e
scan-Fails family n (raw ∷ l) e =
    rest-Fails (extras_line family (n + 1) raw) (scan_extras family (n + 1) l (some e))
      (scan-Fails family (n + 1) l e)

-- A reading that ends in an error never gives extras.
scan_file-Fails : (family : ℕ) (text : Bytes) (e : Error) → Fails (scan_file family (text, some e))
unfolding scan_file
scan_file-Fails family text e = by_lines (scan_lines text [])
  where
    by_lines : (x : List Bytes × Option Error) → Fails (scanned family x (some e))
    by_lines (lines, none) = scan-Fails family 0 lines e
    by_lines (lines, some d) = scan-Fails family 0 lines d

module _ (env : Env) (g : Bytes → Option Bytes) (r : Option Bytes) where
  nothing : Hoare env (Stable g r) (pure {A = Unit {0}} tt) (λ _. Stable g r) (λ _. Stable g r)
  nothing = record { run = λ w h. h }

  opened_lem :
      (path : Bytes) (x : Result (Unit {0}))
      → Hoare env
          (λ w. Post (λ _. Stable g r) (λ _. Stable g r) (w, x))
          (opened path x)
          (λ _. Stable g r)
          (λ _. Stable g r)
  opened_lem path (ok a) = record { run = λ w h. h }
  opened_lem path (err e) = elim (Bool-cases (is e not_exist)) [
    | inl y ↦ rw y (record { run = λ w h. h })
    | inr n ↦ rw n (record { run = λ w h. h })
  ]

  open_file_lem :
      (p : Bytes) → Hoare env (Stable g r) (open_file (named p)) (λ _. Stable g r) (λ _. Stable g r)
  unfolding open_file
  open_file_lem p =
      bind_lem {f = λ b. pure tt} (read_file_lem env g r p) (λ b. record { run = λ w h. h.0 })

  sized_lem :
      (w : World) (b : Bool) (c : Option Bytes) (x : Option Error)
      → Stable g r w
      → Post (λ _. Stable g r) (λ _. Stable g r) (size_ended w b c x)
  sized_lem w b none none h = h
  sized_lem w b (some c) none h = h
  sized_lem w b c (some e) h = h

  stat_size_lem :
      (p : FilePath) → Hoare env (Stable g r) (stat_size p) (λ _. Stable g r) (λ _. Stable g r)
  unfolding stat_size
  stat_size_lem p = record {
    run = λ w h. sized_lem (tick w) (env.regular w.clock p) (w.files p) (env.fault w.clock) h;
  }

  check_size_lem :
      (path : Bytes) (n : Option ℕ)
      → Hoare env (Stable g r) (check_size path n) (λ _. Stable g r) (λ _. Stable g r)
  check_size_lem path none = record { run = λ w h. h }
  check_size_lem path (some n) = elim (Bool-cases (ltb extras_max_file_bytes n)) [
    | inl y ↦ rw y (record { run = λ w h. h })
    | inr y ↦ rw y (record { run = λ w h. h })
  ]

  -- What the reader of a file gives: all of it, or an error behind a part.
  abbrev Streamed : Bytes → Bytes × Option Error → Type 0
  Streamed path (text, none) = g path ≡ some text
  Streamed path (text, some e) = Unit {0}

  streamed_lem :
      (path : Bytes) (w : World) (n : ℕ) (c : Option Bytes) (x : Option Error)
      → Stable g r w
      → g path ≡ c
      → Post (λ y v. Streamed path y × Stable g r v) (λ _. Stable g r) (stream_ended w n c x)
  streamed_lem path w n none x h e = h
  streamed_lem path w n (some text) none h e = (e, h)
  streamed_lem path w n (some text) (some x) h e = (tt, h)

  read_stream_lem :
      (path : Bytes)
      → Hoare env
          (Stable g r)
          (read_stream (named path))
          (λ y w. Streamed path y × Stable g r w)
          (λ _. Stable g r)
  unfolding read_stream
  read_stream_lem path = record {
    run = λ w h.
        streamed_lem path (tick w) (env.written w.clock) (w.files (named path)) (env.fault w.clock)
          h (sym (h.0 path));
  }

  resumed_lem :
      (c : ℕ) (path : Bytes) (family : ℕ) (y : Bytes × Option Error) (x : Result (List Prefix))
      → scan_file family y ≡ x
      → Streamed (c ∷ path) y
      → Hoare env
          (Stable g r)
          (resume x)
          (λ l w. Extras g (c ∷ path) family l × Stable g r w)
          (λ _. Stable g r)
  resumed_lem c path family (text, none) (ok l) e s = record { run = λ w h. ((text, s, e), h) }
  resumed_lem c path family (text, some d) (ok l) e s =
      absurd (subst Fails e (scan_file-Fails family text d))
  resumed_lem c path family y (err d) e s = record { run = λ w h. h }

  read_extras_lem :
      (c : ℕ) (path : Bytes) (family : ℕ)
      → Hoare env
          (Stable g r)
          (read_extras (c ∷ path) family)
          (λ l w. Extras g (c ∷ path) family l × Stable g r w)
          (λ _. Stable g r)
  unfolding read_extras
  read_extras_lem c path family =
      bind_lem
        (or_else_lem (Stable g r) (bytes "stat extras") (stat_size_lem (named (c ∷ path))) nothing
          (λ e w h. h) (λ e w h. h))
        (λ n. bind_lem (check_size_lem (c ∷ path) n) (λ _.
          bind_lem (read_stream_lem (c ∷ path))
            (λ y. given (λ s. resumed_lem c path family y (scan_file family y) refl s))))

  closing :
      (p : FilePath) (T : List Prefix → Type 0) (x : World × Result (List Prefix))
      → Post (λ l w. T l × Stable g r w) (λ _. Stable g r) x
      → Post (λ l w. T l × Stable g r w) (λ _. Stable g r) (finished (close p) env x)
  closing p T (w, ok l) h =
      (h.0, cleaned (Stable g r) (close p env w) ((close_stable_lem env g r p).run w h.1))
  closing p T (w, err e) h =
      cleaned (Stable g r) (close p env w) ((close_stable_lem env g r p).run w h)

  -- The files stay, and a success gives the scan of the whole file.
  pub load_extras_lem :
      (path : Bytes) (family : ℕ)
      → Hoare env
          (Stable g r)
          (load_extras path family)
          (λ l w. Extras g path family l × Stable g r w)
          (λ _. Stable g r)
  unfolding load_extras deferred
  load_extras_lem [] family = record { run = λ w h. (refl, h) }
  load_extras_lem (c ∷ path) family =
      bind_lem (attempt_lem {F = λ _. Stable g r} (open_file_lem (c ∷ path)))
        (λ x. bind_lem (opened_lem (c ∷ path) x) (λ _. reading))
    where
      reading :
          Hoare env
            (Stable g r)
            (deferred (read_extras (c ∷ path) family) (close (named (c ∷ path))))
            (λ l w. Extras g (c ∷ path) family l × Stable g r w)
            (λ _. Stable g r)
      reading = record {
        run = λ w h.
            closing (named (c ∷ path)) (Extras g (c ∷ path) family)
              (read_extras (c ∷ path) family env w) ((read_extras_lem c path family).run w h);
      }
