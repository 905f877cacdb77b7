-- ===== src/System/Files.antt =====
-- Each call on files, and what it changes.
use georoute.Base.{
  ℕ, true, false, Option, none, some, [], ◌≡◌, refl, ◌∙◌, inl, inr, ==_iff, Bool-cases,
}
use georoute.Netip.{Bytes}
use georoute.Text.{bytes_eq}
use georoute.Text.Search.{bytes_eq_iff}
use georoute.Errors.{Error}
use georoute.System.{
  FilePath, named, temp, path_eq, World, Env, set_file, mkdir_all, create_temp, write_file, chmod,
  close, remove, rename, ended, put,
}
use georoute.System.Hoare.{Post, Hoare}

bytes_eq_refl : (a : Bytes) → bytes_eq a a ≡ true
bytes_eq_refl a = (bytes_eq_iff a a).1 refl

path_eq_refl : (p : FilePath) → path_eq p p ≡ true
unfolding path_eq
path_eq_refl (named a) = bytes_eq_refl a
path_eq_refl (temp a n) = rw (bytes_eq_refl a) ((==_iff n n).1 refl)

-- Looking up the file that was just put.
pub set_file-same :
    (files : FilePath → Option Bytes) (p : FilePath) (c : Option Bytes) → set_file files p c p ≡ c
unfolding set_file
set_file-same files p c = rw (path_eq_refl p) refl

pub set_file-other :
    (files : FilePath → Option Bytes) (p q : FilePath) (c : Option Bytes)
    → path_eq p q ≡ false
    → set_file files p c q ≡ files q
unfolding set_file
set_file-other files p q c h = rw h refl

-- A temporary file is not a named one, nor the other way round.
temp-named : (a b : Bytes) (n : ℕ) → path_eq (temp a n) (named b) ≡ false
unfolding path_eq
temp-named a b n = refl

pub named-other : (a b : Bytes) → ¬ (a ≡ b) → path_eq (named a) (named b) ≡ false
unfolding path_eq
named-other a b h = elim (Bool-cases (bytes_eq a b)) [
  | inl e ↦ absurd (h ((bytes_eq_iff a b).0 e))
  | inr e ↦ e
]

-- The named files are those of `f`, and FRR runs `r`.
abbrev pub Stable : (Bytes → Option Bytes) → Option Bytes → World → Type 0
Stable f r w = ((q : Bytes) → w.files (named q) ≡ f q) × (w.running ≡ r)

-- Stable, and a temporary file has the contents.
abbrev pub Staged : (Bytes → Option Bytes) → Option Bytes → FilePath → Bytes → World → Type 0
Staged f r p c w = Stable f r w × (w.files p ≡ some c)

-- One named file has new contents, the others are those of `f`.
abbrev pub Replaced : (Bytes → Option Bytes) → Option Bytes → Bytes → Bytes → World → Type 0
Replaced f r path c w =
    (w.files (named path) ≡ some c)
    × ((q : Bytes) → ¬ (path ≡ q) → w.files (named q) ≡ f q)
    × (w.running ≡ r)

-- The path is not one that the operator names.
abbrev pub IsTemp : FilePath → Type 0
IsTemp p = (q : Bytes) → path_eq p (named q) ≡ false

-- A call on the world that succeeds or fails as its fault says.
pub ended_lem {ℓ} :
    {A : Type ℓ} (Q : A → World → Type 0) (E : Error → World → Type 0) (broken done : World) (a : A)
    (o : Option Error)
    → Q a done
    → ((e : Error) → E e broken)
    → Post Q E (ended broken done a o)
ended_lem Q E broken done a none q e = q
ended_lem Q E broken done a (some x) q e = e x

-- The same, where the success tells that there was no fault.
pub cases_lem {ℓ} :
    {A : Type ℓ} (Q : A → World → Type 0) (E : Error → World → Type 0) (broken done : World) (a : A)
    (o : Option Error)
    → (o ≡ none → Q a done)
    → ((e : Error) → E e broken)
    → Post Q E (ended broken done a o)
cases_lem Q E broken done a none q e = q refl
cases_lem Q E broken done a (some x) q e = e x

pub Stable-put :
    (f : Bytes → Option Bytes) (r : Option Bytes) (w : World) (p : FilePath) (c : Option Bytes)
    → IsTemp p
    → Stable f r w
    → Stable f r (put w p c)
Stable-put f r w p c t (h, k) = (λ q. set_file-other w.files p (named q) c (t q) ∙ h q, k)

module _ (env : Env) (f : Bytes → Option Bytes) (r : Option Bytes) where
  pub mkdir_all_lem :
      (p : Bytes) → Hoare env (Stable f r) (mkdir_all p) (λ _. Stable f r) (λ _. Stable f r)
  unfolding mkdir_all
  mkdir_all_lem p = record {
    run = λ w h. ended_lem (λ _. Stable f r) (λ _. Stable f r) _ _ _ (env.fault w.clock) h (λ e. h);
  }

  pub create_temp_lem :
      (base : Bytes)
      → Hoare env (Stable f r) (create_temp base) (λ p w. IsTemp p × Stable f r w) (λ _. Stable f r)
  unfolding create_temp
  create_temp_lem base = record {
    run = λ w h.
        ended_lem (λ p v. IsTemp p × Stable f r v) (λ _. Stable f r) _ _ _ (env.fault w.clock)
          (
            (λ q. temp-named base q w.next),
            Stable-put f r w (temp base w.next) (some []) (λ q. temp-named base q w.next) h,
          )
          (λ e. h);
  }

  pub write_file_lem :
      (p : FilePath) (c : Bytes)
      → IsTemp p
      → Hoare env (Stable f r) (write_file p c) (λ _. Staged f r p c) (λ _. Stable f r)
  unfolding write_file
  write_file_lem p c t = record {
    run = λ w h.
        ended_lem (λ _. Staged f r p c) (λ _. Stable f r) _ _ _ (env.fault w.clock)
          (Stable-put f r w p (some c) t h, set_file-same w.files p (some c))
          (λ e. Stable-put f r w p _ t h);
  }

  pub chmod_lem :
      (p q : FilePath) (c : Bytes)
      → Hoare env (Staged f r q c) (chmod p) (λ _. Staged f r q c) (λ _. Stable f r)
  unfolding chmod
  chmod_lem p q c = record {
    run = λ w h.
        ended_lem (λ _. Staged f r q c) (λ _. Stable f r) _ _ _ (env.fault w.clock) h (λ e. h.0);
  }

  pub close_lem :
      (p q : FilePath) (c : Bytes)
      → Hoare env (Staged f r q c) (close p) (λ _. Staged f r q c) (λ _. Stable f r)
  unfolding close
  close_lem p q c = record {
    run = λ w h.
        ended_lem (λ _. Staged f r q c) (λ _. Stable f r) _ _ _ (env.fault w.clock) h (λ e. h.0);
  }

  pub remove_lem :
      (p : FilePath)
      → IsTemp p
      → Hoare env (Stable f r) (remove p) (λ _. Stable f r) (λ _. Stable f r)
  unfolding remove
  remove_lem p t = record {
    run = λ w h.
        ended_lem (λ _. Stable f r) (λ _. Stable f r) _ _ _ (env.fault w.clock)
          (Stable-put f r w p none t h) (λ e. h);
  }

  pub close_stable_lem :
      (p : FilePath) → Hoare env (Stable f r) (close p) (λ _. Stable f r) (λ _. Stable f r)
  unfolding close
  close_stable_lem p = record {
    run = λ w h. ended_lem (λ _. Stable f r) (λ _. Stable f r) _ _ _ (env.fault w.clock) h (λ e. h);
  }

  pub rename_lem :
      (p : FilePath) (path c : Bytes)
      → IsTemp p
      → Hoare env
          (Staged f r p c)
          (rename p (named path))
          (λ _. Replaced f r path c)
          (λ _. Stable f r)
  unfolding rename
  rename_lem p path c t = record {
    run = λ w h.
        ended_lem (λ _. Replaced f r path c) (λ _. Stable f r) _ _ _ (env.fault w.clock)
          (
            set_file-same (set_file w.files p none) (named path) (w.files p) ∙ h.1,
            (λ q other.
                set_file-other (set_file w.files p none) (named path) (named q) (w.files p)
                  (named-other path q other)
                ∙ (set_file-other w.files p (named q) none (t q) ∙ h.0.0 q)),
            h.0.1,
          )
          (λ e. h.0);
  }
