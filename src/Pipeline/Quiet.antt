-- ===== src/Pipeline/Quiet.antt =====
-- rollback.go's swap of frr.conf, as nft sees it.
use georoute.Base.{Bool, true, false, Option, none, some, Bool-cases, inl, inr}
use georoute.Netip.{Bytes}
use georoute.Errors.{Error, Result, ok, err, is, not_exist}
use georoute.System.{
  FilePath, named, World, Env, Sys, ◌>>=◌, ◌>>◌, pure, throw, attempt, or_else, deferred, finished,
  create_temp, write_file, chmod, close, remove, rename, read_file, read_ended, tick,
  frr_syntax_check, frr_reload, atomic_write,
}
use georoute.System.Hoare.{Post, Hoare, bind_lem, or_else_lem, attempt_lem, cleaned}
use georoute.System.Files.{ended_lem}
use georoute.Rollback.{
  read_backup, backup_of, rolled_back, resync, after_reload, swap, checked_swap,
  apply_frr_config_opts,
}

module _ (env : Env) (T : Option Bytes → Type 0) where
  abbrev Nft : World → Type 0
  Nft w = T w.nft

  -- What is known of the script that nft took last is known behind the part too.
  abbrev pub Quiet {ℓ} : {A : Type ℓ} → Sys A → Type ℓ
  Quiet m = Hoare env Nft m (λ _. Nft) (λ _. Nft)

  nothing {ℓ} : {A : Type ℓ} (a : A) → Quiet (pure a)
  nothing a = record { run = λ w h. h }

  fails {ℓ} : {A : Type ℓ} (e : Error) → Quiet (throw {A = A} e)
  fails e = record { run = λ w h. h }

  either {ℓ} : {A : Type ℓ} (x : Result A) (w : World) → Post (λ _. Nft) (λ _. Nft) (w, x) → Nft w
  either (ok a) w h = h
  either (err e) w h = h

  -- A call whose result is looked at.
  looked {ℓ κ} :
      {A : Type ℓ} {B : Type κ} {m : Sys A} {k : Result A → Sys B}
      → Quiet m
      → ((x : Result A) → Quiet (k x))
      → Quiet (attempt m >>= k)
  looked {k = rest} h k =
      bind_lem {f = rest} (attempt_lem {F = λ _. Nft} h)
        (λ x. record { run = λ w p. (k x).run w (either x w p) })

  wrapped {ℓ} :
      {A : Type ℓ} {m : Sys A} {cleanup : Sys (Unit {0})} (context : Bytes)
      → Quiet m
      → Quiet cleanup
      → Quiet (or_else m context cleanup)
  wrapped context h k = or_else_lem Nft context h k (λ e w p. p) (λ e w p. p)

  create_temp-Quiet : (base : Bytes) → Quiet (create_temp base)
  unfolding create_temp
  create_temp-Quiet base = record {
    run = λ w h. ended_lem (λ _. Nft) (λ _. Nft) _ _ _ (env.fault w.clock) h (λ e. h);
  }

  write_file-Quiet : (p : FilePath) (c : Bytes) → Quiet (write_file p c)
  unfolding write_file
  write_file-Quiet p c = record {
    run = λ w h. ended_lem (λ _. Nft) (λ _. Nft) _ _ _ (env.fault w.clock) h (λ e. h);
  }

  chmod-Quiet : (p : FilePath) → Quiet (chmod p)
  unfolding chmod
  chmod-Quiet p = record {
    run = λ w h. ended_lem (λ _. Nft) (λ _. Nft) _ _ _ (env.fault w.clock) h (λ e. h);
  }

  close-Quiet : (p : FilePath) → Quiet (close p)
  unfolding close
  close-Quiet p = record {
    run = λ w h. ended_lem (λ _. Nft) (λ _. Nft) _ _ _ (env.fault w.clock) h (λ e. h);
  }

  remove-Quiet : (p : FilePath) → Quiet (remove p)
  unfolding remove
  remove-Quiet p = record {
    run = λ w h. ended_lem (λ _. Nft) (λ _. Nft) _ _ _ (env.fault w.clock) h (λ e. h);
  }

  rename-Quiet : (p q : FilePath) → Quiet (rename p q)
  unfolding rename
  rename-Quiet p q = record {
    run = λ w h. ended_lem (λ _. Nft) (λ _. Nft) _ _ _ (env.fault w.clock) h (λ e. h);
  }

  check-Quiet : (p : FilePath) → Quiet (frr_syntax_check p)
  unfolding frr_syntax_check
  check-Quiet p = record {
    run = λ w h. ended_lem (λ _. Nft) (λ _. Nft) _ _ _ (env.syntax w.clock (w.files p)) h (λ e. h);
  }

  reload-Quiet : (p : FilePath) → Quiet (frr_reload p)
  unfolding frr_reload
  reload-Quiet p = record {
    run = λ w h. ended_lem (λ _. Nft) (λ _. Nft) _ _ _ (env.reload w.clock (w.files p)) h (λ e. h);
  }

  read_lem :
      (w : World) (c : Option Bytes) (x : Option Error)
      → Nft w
      → Post (λ _. Nft) (λ _. Nft) (read_ended w c x)
  read_lem w none none h = h
  read_lem w (some c) none h = h
  read_lem w c (some e) h = h

  pub read_file-Quiet : (p : FilePath) → Quiet (read_file p)
  unfolding read_file
  read_file-Quiet p = record { run = λ w h. read_lem (tick w) (w.files p) (env.fault w.clock) h }

  discard-Quiet : (p : FilePath) → Quiet (attempt (close p) >> remove p)
  discard-Quiet p = looked (close-Quiet p) (λ x. remove-Quiet p)

  atomic_write-Quiet : (path c : Bytes) → Quiet (atomic_write path c)
  unfolding atomic_write
  atomic_write-Quiet path c = bind_lem (wrapped _ (create_temp-Quiet path) (nothing tt)) (λ tmp.
      bind_lem (wrapped _ (write_file-Quiet tmp c) (discard-Quiet tmp)) (λ a.
        bind_lem (wrapped _ (chmod-Quiet tmp) (discard-Quiet tmp)) (λ b.
          bind_lem (wrapped _ (close-Quiet tmp) (remove-Quiet tmp))
            (λ d. wrapped _ (rename-Quiet tmp (named path)) (remove-Quiet tmp)))))

  backup-Quiet : (x : Result Bytes) → Quiet (backup_of x)
  backup-Quiet (ok b) = nothing (some b)
  backup-Quiet (err e) = elim (Bool-cases (is e not_exist)) [
    | inl y ↦ rw y (nothing none)
    | inr n ↦ rw n (fails _)
  ]

  rolled-Quiet : (e : Error) (x : Result (Unit {0})) → Quiet (rolled_back e x)
  rolled-Quiet e (ok a) = fails _
  rolled-Quiet e (err x) = fails _

  resync-Quiet : (live : Bytes) (e : Error) (x : Result (Unit {0})) → Quiet (resync live e x)
  resync-Quiet live e (ok a) = looked (reload-Quiet (named live)) (rolled-Quiet e)
  resync-Quiet live e (err x) = fails _

  after-Quiet :
      (live : Bytes) (b : Option Bytes) (x : Result (Unit {0})) → Quiet (after_reload live b x)
  unfolding after_reload
  after-Quiet live b (ok a) = nothing tt
  after-Quiet live none (err e) = fails _
  after-Quiet live (some c) (err e) = looked (atomic_write-Quiet live c) (resync-Quiet live e)

  swap-Quiet : (live c : Bytes) → Quiet (swap live c)
  unfolding swap read_backup
  swap-Quiet live c = bind_lem (looked (read_file-Quiet (named live)) backup-Quiet) (λ b.
      bind_lem (wrapped _ (atomic_write-Quiet live c) (nothing tt))
        (λ a. looked (reload-Quiet (named live)) (after-Quiet live b)))

  checked-Quiet : (live c : Bytes) (p : FilePath) → Quiet (checked_swap live c p)
  unfolding checked_swap
  checked-Quiet live c p =
      bind_lem (wrapped _ (write_file-Quiet p c) (looked (close-Quiet p) (λ x. nothing tt))) (λ a.
        bind_lem (wrapped _ (close-Quiet p) (nothing tt))
          (λ b. bind_lem (wrapped _ (check-Quiet p) (nothing tt)) (λ d. swap-Quiet live c)))

  removed :
      (p : FilePath) (x : World × Result (Unit {0}))
      → Post (λ _. Nft) (λ _. Nft) x
      → Post (λ _. Nft) (λ _. Nft) (finished (remove p) env x)
  removed p (w, ok a) h = cleaned Nft (remove p env w) ((remove-Quiet p).run w h)
  removed p (w, err e) h = cleaned Nft (remove p env w) ((remove-Quiet p).run w h)

  -- The swap of frr.conf leaves nft alone.
  pub apply_frr_config_opts-Quiet :
      (live c : Bytes) (skip : Bool) → Quiet (apply_frr_config_opts live c skip)
  unfolding apply_frr_config_opts deferred
  apply_frr_config_opts-Quiet live c true = atomic_write-Quiet live c
  apply_frr_config_opts-Quiet live c false =
      bind_lem {f = λ p. deferred (checked_swap live c p) (remove p)}
        (wrapped _ (create_temp-Quiet live) (nothing tt))
        (λ p. record {
          run = λ w h. removed p (checked_swap live c p env w) ((checked-Quiet live c p).run w h);
        })
