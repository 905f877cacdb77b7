-- ===== src/Rollback/Laws.antt =====
-- rollback.go's `applyFRRConfigOpts` against its promise.
use georoute.Base.{true, false, Option, some, ◌≡◌, refl, ◌∙◌, inl, inr, Bool-cases}
use georoute.Netip.{Bytes}
use georoute.Text.{bytes, bytes_eq}
use georoute.Errors.{Result, ok, err, wrap, is, not_exist}
use georoute.System.{
  deferred, finished, FilePath, named, World, Env, ◌>>◌, pure, attempt, close, remove,
}
use georoute.System.Hoare.{Post, Hoare, bind_lem, or_else_lem, attempt_lem, weaken, given, cleaned}
use georoute.System.Files.{
  Stable, Replaced, IsTemp, create_temp_lem, write_file_lem, close_lem, close_stable_lem,
  remove_lem,
}
use georoute.System.AtomicWrite.{atomic_write_lem}
use georoute.Rollback.{apply_frr_config_opts, checked_swap, swap, read_backup, backup_of}
use georoute.Rollback.Specification.{
  Accepted, Applied, Failed, says_restored, read_file_lem, frr_syntax_check_lem, frr_reload_lem,
}
use georoute.Rollback.Recovery.{throw_lem, untouched, IsBackup, after_reload_lem}

module _ (env : Env) (f : Bytes → Option Bytes) (r : Option Bytes) (live c : Bytes) where
  backup_of_lem :
      (x : Result Bytes)
      → Hoare env
          (λ w. Post (λ b v. Stable f r v × (f live ≡ some b)) (λ _. Stable f r) (w, x))
          (backup_of x)
          (λ o w. IsBackup env f r live c o × Stable f r w)
          (Failed env f live c)
  unfolding says_restored bytes_eq
  backup_of_lem (ok b) = record { run = λ w h. (h.1, h.0) }
  backup_of_lem (err e) = elim (Bool-cases (is e not_exist)) [
    | inl y ↦ rw y (record { run = λ w h. (tt, h) })
    | inr n ↦ rw n (
        throw_lem env f r live c _
          (λ w h. untouched env f r live c (wrap (bytes "read live for backup") e) w refl h))
  ]

  read_backup_lem :
      Hoare env
        (Stable f r)
        (read_backup live)
        (λ o w. IsBackup env f r live c o × Stable f r w)
        (Failed env f live c)
  unfolding read_backup
  read_backup_lem =
      bind_lem (attempt_lem {F = Failed env f live c} (read_file_lem env f r live)) backup_of_lem

  nothing : Hoare env (Stable f r) (pure {A = Unit {0}} tt) (λ _. Stable f r) (λ _. Stable f r)
  nothing = record { run = λ w h. h }

  closing :
      (staged : FilePath)
      → Hoare env
          (Stable f r)
          (attempt (close staged) >> pure {A = Unit {0}} tt)
          (λ _. Stable f r)
          (λ _. Stable f r)
  closing staged =
      bind_lem {f = λ _. pure {A = Unit {0}} tt}
        (attempt_lem {F = λ _. Stable f r} (close_stable_lem env f r staged))
        (λ x. record { run = λ w h. cleaned (Stable f r) (w, x) h })

  swap_lem :
      Accepted env c
      → Hoare env (Stable f r) (swap live c) (λ _. Applied env f live c) (Failed env f live c)
  unfolding swap says_restored bytes_eq
  swap_lem acc = bind_lem read_backup_lem (λ o. given (λ old.
      bind_lem
        (or_else_lem (Stable f r) (bytes "write live")
          (weaken (λ w h. h) (λ a w h. (h.0, h.1)) (λ e w h. h) (atomic_write_lem env f r live c))
          nothing (λ e w h. h)
          (λ e w h. untouched env f r live c (wrap (bytes "write live") e) w refl h))
        (λ a.
          bind_lem (attempt_lem {F = Failed env f live c} (frr_reload_lem env f r live c))
            (λ x. after_reload_lem env f r live c o x acc old))))

  checked_swap_lem :
      (staged : FilePath)
      → IsTemp staged
      → Hoare env
          (Stable f r)
          (checked_swap live c staged)
          (λ _. Applied env f live c)
          (Failed env f live c)
  unfolding checked_swap says_restored bytes_eq
  checked_swap_lem staged t =
      bind_lem
        (or_else_lem (Stable f r) (bytes "write staging") (write_file_lem env f r staged c t)
          (closing staged) (λ e w h. h)
          (λ e w h. untouched env f r live c (wrap (bytes "write staging") e) w refl h))
        (λ _.
          bind_lem
            (or_else_lem (Stable f r) (bytes "close staging") (close_lem env f r staged staged c)
              nothing (λ e w h. h)
              (λ e w h. untouched env f r live c (wrap (bytes "close staging") e) w refl h))
            (λ _.
              bind_lem
                (or_else_lem (Stable f r) (bytes "syntax check")
                  (frr_syntax_check_lem env f r staged c) nothing (λ e w h. h)
                  (λ e w h. untouched env f r live c (wrap (bytes "syntax check") e) w refl h))
                (λ _. given swap_lem)))

  carried :
      (v w : World) (x : Result (Unit {0}))
      → Post (λ _. Applied env f live c) (Failed env f live c) (w, x)
      → Stable (λ q. w.files (named q)) w.running v
      → Post (λ _. Applied env f live c) (Failed env f live c) (v, x)
  carried v w (ok a) (acc, ((new, others), run)) (files, running) =
      (acc, ((files live ∙ new, λ q o. files q ∙ others q o), running ∙ run))
  carried v w (err e) (inl old, (others, back)) (files, running) = (
    inl (files live ∙ old),
    ((λ q o. files q ∙ others q o), λ y. (files live ∙ (back y).0, running ∙ (back y).1)),
  )
  carried v w (err e) (inr (acc, new), (others, back)) (files, running) = (
    inr (acc, files live ∙ new),
    ((λ q o. files q ∙ others q o), λ y. (files live ∙ (back y).0, running ∙ (back y).1)),
  )

  -- Removing the staged file changes neither promise.
  removed :
      (staged : FilePath)
      → IsTemp staged
      → (out : World × Result (Unit {0}))
      → Post (λ _. Applied env f live c) (Failed env f live c) out
      → Post (λ _. Applied env f live c) (Failed env f live c) (finished (remove staged) env out)
  removed staged t (w, x) p = carried (remove staged env w).0 w x p (
      cleaned (Stable (λ q. w.files (named q)) w.running) (remove staged env w)
        ((remove_lem env (λ q. w.files (named q)) w.running staged t).run w ((λ q. refl), refl)))

  deferred_lem :
      (staged : FilePath)
      → IsTemp staged
      → Hoare env
          (Stable f r)
          (deferred (checked_swap live c staged) (remove staged))
          (λ _. Applied env f live c)
          (Failed env f live c)
  unfolding deferred
  deferred_lem staged t = record {
    run = λ w h.
        removed staged t (checked_swap live c staged env w) ((checked_swap_lem staged t).run w h);
  }

  -- The swap, from any world with these files.
  pub apply_lem :
      Hoare env
        (Stable f r)
        (apply_frr_config_opts live c false)
        (λ _. Applied env f live c)
        (Failed env f live c)
  unfolding apply_frr_config_opts says_restored bytes_eq
  apply_lem =
      bind_lem
        (or_else_lem (Stable f r) (bytes "create staging temp") (create_temp_lem env f r live)
          nothing (λ e w h. h)
          (λ e w h. untouched env f r live c (wrap (bytes "create staging temp") e) w refl h))
        (λ staged. given (λ t. deferred_lem staged t))

-- With the reload on, from any world and whatever call fails. After a success, vtysh accepted the
-- new config, it is the live file, FRR runs it, and the other named files are as before. After an
-- error, the live file is the old one, or the new one where vtysh accepted that; the other named
-- files are as before; and where the error says that the backup is restored, the old config is
-- live and runs.
pub apply_frr_config_opts-outcome :
    (env : Env) (w : World) (live new_contents : Bytes)
    → Post
        (λ _. Applied env (λ q. w.files (named q)) live new_contents)
        (Failed env (λ q. w.files (named q)) live new_contents)
        (apply_frr_config_opts live new_contents false env w)
apply_frr_config_opts-outcome env w live new_contents =
    (apply_lem env (λ q. w.files (named q)) w.running live new_contents).run w ((λ q. refl), refl)

-- With `--reload=false`, from any world: after a success the live file has the new contents; after
-- an error it has the old ones; the other named files and what FRR runs are as before.
apply_frr_config_opts-skip :
    (env : Env) (w : World) (live new_contents : Bytes)
    → Post
        (λ _. Replaced (λ q. w.files (named q)) w.running live new_contents)
        (λ _. Stable (λ q. w.files (named q)) w.running)
        (apply_frr_config_opts live new_contents true env w)
unfolding apply_frr_config_opts
apply_frr_config_opts-skip env w live new_contents =
    (atomic_write_lem env (λ q. w.files (named q)) w.running live new_contents).run w
      ((λ q. refl), refl)
