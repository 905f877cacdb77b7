-- ===== src/Rollback/Specification.antt =====
-- rollback.go: what a swap of frr.conf promises, and its calls one by one.
use georoute.Base.{Bool, true, false, Option, none, some, ◌≡◌, sym, ◌∙◌, ◌⊎◌, ℕ, ap}
use georoute.Netip.{Bytes}
use georoute.Text.{bytes, bytes_eq}
use georoute.Errors.{Error, wrap, sentinel, opaque, detail, both}
use georoute.System.{
  FilePath, named, World, Env, read_file, frr_syntax_check, frr_reload, read_ended, tick,
}
use georoute.System.Hoare.{Post, Hoare}
use georoute.System.Files.{cases_lem, Stable, Staged}

-- One file has the contents, and the other named ones are those of `f`.
abbrev pub Changed : (Bytes → Option Bytes) → Bytes → Bytes → World → Type 0
Changed f path c w =
    (w.files (named path) ≡ some c) × ((q : Bytes) → ¬ (path ≡ q) → w.files (named q) ≡ f q)

-- vtysh accepted the contents.
abbrev pub Accepted : Env → Bytes → Type 0
Accepted env c = (n : ℕ) × (env.syntax n (some c) ≡ none)

-- The error that says that the backup is restored.
unfoldable pub says_restored : Error → Bool
unfolding bytes_eq
says_restored (sentinel s) = false
says_restored (opaque m) = false
says_restored (wrap c e) = bytes_eq c (bytes "reload failed, backup restored")
says_restored (detail e v) = false
says_restored (both e f) = false

-- Success: the new config was accepted, it is the live file, and FRR runs it.
abbrev pub Applied : Env → (Bytes → Option Bytes) → Bytes → Bytes → World → Type 0
Applied env f live c w = Accepted env c × (Changed f live c w × (w.running ≡ some c))

-- After an error the live file is the old one, or the new one where that was accepted; the other
-- named files are as before; and where the error says so, the old config is live and running.
abbrev pub Failed : Env → (Bytes → Option Bytes) → Bytes → Bytes → Error → World → Type 0
Failed env f live c e w =
    ((w.files (named live) ≡ f live) ⊎ (Accepted env c × (w.files (named live) ≡ some c)))
    × (((q : Bytes) → ¬ (live ≡ q) → w.files (named q) ≡ f q)
        × (says_restored e ≡ true → (w.files (named live) ≡ f live) × (w.running ≡ f live)))

read_lem :
    (f : Bytes → Option Bytes) (r : Option Bytes) (live : Bytes) (w : World) (o : Option Bytes)
    (x : Option Error)
    → Stable f r w
    → f live ≡ o
    → Post (λ b v. Stable f r v × (f live ≡ some b)) (λ _. Stable f r) (read_ended w o x)
read_lem f r live w none none h k = h
read_lem f r live w (some b) none h k = (h, k)
read_lem f r live w o (some e) h k = h

module _ (env : Env) (f : Bytes → Option Bytes) (r : Option Bytes) where
  pub read_file_lem :
      (live : Bytes)
      → Hoare env
          (Stable f r)
          (read_file (named live))
          (λ b w. Stable f r w × (f live ≡ some b))
          (λ _. Stable f r)
  unfolding read_file
  read_file_lem live = record {
    run = λ w h.
        read_lem f r live (tick w) (w.files (named live)) (env.fault w.clock) h (sym (h.0 live));
  }

  pub frr_syntax_check_lem :
      (p : FilePath) (c : Bytes)
      → Hoare env
          (Staged f r p c)
          (frr_syntax_check p)
          (λ _ w. Accepted env c × Stable f r w)
          (λ _. Stable f r)
  unfolding frr_syntax_check
  frr_syntax_check_lem p c = record {
    run = λ w h.
        cases_lem (λ _ v. Accepted env c × Stable f r v) (λ _. Stable f r) _ _ _ _
          (λ e. ((w.clock, sym (ap (env.syntax w.clock) h.1) ∙ e), h.0)) (λ e. h.0);
  }

  pub frr_reload_lem :
      (live c : Bytes)
      → Hoare env
          (Changed f live c)
          (frr_reload (named live))
          (λ _ w. Changed f live c w × (w.running ≡ some c))
          (λ _. Changed f live c)
  unfolding frr_reload
  frr_reload_lem live c = record {
    run = λ w h.
        cases_lem (λ _ v. Changed f live c v × (v.running ≡ some c)) (λ _. Changed f live c) _ _ _ _
          (λ e. (h, h.0)) (λ e. h);
  }
