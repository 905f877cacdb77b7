-- ===== src/Target/Output.antt =====
-- target.go's `writeTargetOutput`: stdout, or a file as a whole.
use georoute.Base.{◌≡◌, refl, Bool, true, false, ◌||◌, Option, inl, inr, ◌++◌, ◌⊎◌}
use georoute.Netip.{Bytes}
use georoute.Text.{bytes, bytes_eq}
use georoute.System.{World, Env, pure, print}
use georoute.System.Hoare.{Hoare, or_else_lem, weaken, if_lem}
use georoute.System.Files.{Stable, Replaced, ended_lem}
use georoute.System.AtomicWrite.{atomic_write_lem}
use georoute.Target.{is_empty}
use georoute.Target.Run.{write_target_output}

-- The path stands for stdout.
abbrev pub to_stdout : Bytes → Bool
to_stdout path = is_empty path || bytes_eq path (bytes "-")

-- Stdout ends with the text.
abbrev Shown : Bytes → World → Type 0
Shown text w = (before : Bytes) × (w.printed ≡ before ++ text)

-- The contents are the end of stdout and no file has changed, or the file is replaced by them.
abbrev pub Output : (Bytes → Option Bytes) → Option Bytes → Bytes → Bytes → World → Type 0
Output g r path contents w =
    ((to_stdout path ≡ true) × (Stable g r w × Shown (contents ++ bytes "\n") w))
    ⊎ ((to_stdout path ≡ false) × Replaced g r path (contents ++ bytes "\n") w)

module _ (env : Env) (g : Bytes → Option Bytes) (r : Option Bytes) where
  nothing : Hoare env (Stable g r) (pure {A = Unit {0}} tt) (λ _. Stable g r) (λ _. Stable g r)
  nothing = record { run = λ w h. h }

  print_lem :
      (text : Bytes)
      → Hoare env (Stable g r) (print text) (λ _ w. Stable g r w × Shown text w) (λ _. Stable g r)
  unfolding print
  print_lem text = record {
    run = λ w h.
        ended_lem (λ _ v. Stable g r v × Shown text v) (λ _. Stable g r) _ _ _ (env.fault w.clock)
          (h, (w.printed, refl)) (λ e. h);
  }

  pub write_target_output-Output :
      (path contents : Bytes)
      → Hoare env
          (Stable g r)
          (write_target_output path contents)
          (λ _. Output g r path contents)
          (λ _. Stable g r)
  unfolding write_target_output
  write_target_output-Output path contents =
      if_lem (to_stdout path)
        (λ y.
          weaken (λ w h. h) (λ a w h. inl (y, h)) (λ e w h. h)
            (or_else_lem (Stable g r) (bytes "write stdout") (print_lem (contents ++ bytes "\n"))
              nothing (λ e w h. h) (λ e w h. h)))
        (λ n.
          weaken (λ w h. h) (λ a w h. inr (n, h)) (λ e w h. h)
            (or_else_lem (Stable g r) (bytes "write target output")
              (atomic_write_lem env g r path (contents ++ bytes "\n")) nothing (λ e w h. h)
              (λ e w h. h)))
