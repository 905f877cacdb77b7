-- ===== src/Pipeline/Laws.antt =====
-- main.go's `run` behind the aggregation, with target frr.
use georoute.Base.{true, ◌≡◌, refl, inl, inr, Option, some, List, if◌then◌else◌}
use georoute.Netip.{Bytes, Prefix}
use georoute.Text.{bytes, bytes_eq}
use georoute.Errors.{Error, Result, ok, err}
use georoute.System.{named, World, Env, Sys, pure, run_nft}
use georoute.System.Hoare.{Post, Hoare, bind_lem, or_else_lem, weaken, if_lem, both_lem}
use georoute.System.Files.{Stable, ended_lem}
use georoute.Rollback.Specification.{read_file_lem}
use georoute.Target.{validate_frr_target_mode}
use georoute.Flags.{CliFlags}
use georoute.Metrics.{Metrics}
use georoute.Metrics.Laws.{measured-Reports, timed-Reports, watched_lem, observe_nft_apply-Reports}
use georoute.Pipeline.{
  nft_script, fill_set, join_prefixes, apply_nft, next_conf, update_conf, nft_first, update_frr,
  in_mode, deploy,
}
use georoute.Pipeline.Quiet.{read_file-Quiet}
use georoute.Pipeline.Moving.{update_conf_lem, update_conf-Quiet}
use georoute.Pipeline.Specification.{ByNft, NftTook, Moved, Deployed, Updated}

module _ (env : Env) (g : Bytes → Option Bytes) (r : Option Bytes) where
  module _ (f : CliFlags) (m : Option Metrics) (v4 v6 : List Prefix) where
    unchanged : (w : World) → Stable g r w → Deployed f v4 v6 g r w
    unchanged w h = record { config = inl (h.0 f.frr_conf); others = λ q o. h.0 q; runs = inl h.1 }

    -- What is moved behind the script that nft took.
    deployed : (w : World) → NftTook f v4 v6 w → Moved f v4 v6 g w → Deployed f v4 v6 g r w
    deployed w t (inl old, others) = record { config = inl old; others = others; runs = inr t }
    deployed w t (inr new, others) = record { config = inr (t, new); others = others; runs = inr t }

    -- The config behind the script.
    updating :
        (cur : Bytes)
        → g f.frr_conf ≡ some cur
        → Hoare env
            (λ w. Stable g r w × NftTook f v4 v6 w)
            (update_conf f m cur (next_conf f v4 v6 cur))
            (λ _ w. Deployed f v4 v6 g r w × Updated f v4 v6 g w)
            (λ _. Deployed f v4 v6 g r)
    updating cur c =
        weaken (λ w h. h) (λ a w h. (deployed w h.1 h.0.0, λ _. (h.1, h.0.1)))
          (λ e w h. deployed w h.1 h.0)
          (both_lem
            (weaken {P' = λ w. Stable g r w × NftTook f v4 v6 w} (λ w h. h.0) (λ a w h. h)
              (λ e w h. h) (update_conf_lem env g r f m v4 v6 cur (next_conf f v4 v6 cur) c refl))
            (weaken {P' = λ w. Stable g r w × NftTook f v4 v6 w} (λ w h. h.1) (λ a w h. h)
              (λ e w h. h) (update_conf-Quiet env g r f m v4 v6 cur (next_conf f v4 v6 cur))))

    nothing : Hoare env (Stable g r) (pure {A = Unit {0}} tt) (λ _. Stable g r) (λ _. Stable g r)
    nothing = record { run = λ w h. h }

    run_nft_lem :
        Hoare env
          (Stable g r)
          (run_nft (nft_script f v4 v6))
          (λ _ w. Stable g r w × NftTook f v4 v6 w)
          (λ _. Stable g r)
    unfolding run_nft nft_script fill_set join_prefixes
    run_nft_lem = record {
      run = λ w h.
          ended_lem (λ _ v. Stable g r v × NftTook f v4 v6 v) (λ _. Stable g r) _ _ _
            (env.nft_check w.clock (nft_script f v4 v6)) (h, λ _. refl) (λ e. h);
    }

    nft_first_lem :
        Hoare env
          (Stable g r)
          (nft_first f m v4 v6)
          (λ _ w. Stable g r w × NftTook f v4 v6 w)
          (λ _. Stable g r)
    unfolding nft_first apply_nft
    nft_first_lem =
        if_lem f.update_nft
          (λ y.
            or_else_lem (Stable g r) (bytes "apply nft")
              (watched_lem {Q = λ _ w. Stable g r w × NftTook f v4 v6 w} {E = λ _. Stable g r}
                (λ a w ms k h. h) (λ e w ms k h. h)
                (λ r. measured-Reports m (λ x. timed-Reports (observe_nft_apply-Reports x _)))
                (or_else_lem (Stable g r) (bytes "nft -f") run_nft_lem nothing (λ e w h. h)
                  (λ e w h. h)))
              nothing (λ e w h. h) (λ e w h. h))
          (λ n. record { run = λ w h. (h, λ y. cc (y, n)) })

    update_frr_lem :
        Hoare env
          (Stable g r)
          (update_frr f m v4 v6)
          (λ _ w. Deployed f v4 v6 g r w × Updated f v4 v6 g w)
          (λ _. Deployed f v4 v6 g r)
    unfolding update_frr
    update_frr_lem =
        bind_lem (weaken (λ w h. h) (λ a w h. h) (λ e w h. unchanged w h) nft_first_lem) (λ _.
          bind_lem {f = λ cur. update_conf f m cur (next_conf f v4 v6 cur)}
            (or_else_lem (Stable g r) (bytes "read frr.conf")
              (weaken (λ w h. h) (λ cur w h. h) (λ e w h. h.0)
                (both_lem
                  (weaken {P' = λ w. Stable g r w × NftTook f v4 v6 w} (λ w h. h.0) (λ a w h. h)
                    (λ e w h. h) (read_file_lem env g r f.frr_conf))
                  (weaken {P' = λ w. Stable g r w × NftTook f v4 v6 w} (λ w h. h.1) (λ a w h. h)
                    (λ e w h. h) (read_file-Quiet env (ByNft f v4 v6) (named f.frr_conf)))))
              nothing (λ e w h. h) (λ e w h. unchanged w h))
            (λ cur. record { run = λ w h. (updating cur h.0.1).run w (h.0.0, h.1) }))

    mode_lem :
        (x : Result (Unit {0}))
        → Hoare env
            (Stable g r)
            (in_mode x (if f.dry_run then pure tt else update_frr f m v4 v6))
            (λ _ w. Deployed f v4 v6 g r w × Updated f v4 v6 g w)
            (λ _. Deployed f v4 v6 g r)
    mode_lem (err e) = record { run = λ w h. unchanged w h }
    mode_lem (ok _) =
        if_lem f.dry_run (λ y. record { run = λ w h. (unchanged w h, λ d. cc (y, d)) })
          (λ n. update_frr_lem)

    -- The same for any world with these files.
    pub deploy_lem :
        (cancel : Option Error) (push : CliFlags → Bytes → Sys (Unit {0}))
        → bytes_eq f.target (bytes "frr") ≡ true
        → Hoare env
            (Stable g r)
            (deploy cancel push f m v4 v6)
            (λ _ w. Deployed f v4 v6 g r w × Updated f v4 v6 g w)
            (λ _. Deployed f v4 v6 g r)
    unfolding deploy
    deploy_lem cancel push t = rw t (mode_lem (validate_frr_target_mode f.target_mode))

-- With target frr, from any world and whatever call fails: frr.conf is the old one, or it is the
-- old one with the block between the IPv4 markers and then the one between the IPv6 markers
-- replaced by the rendered lists, and then the script that nft took last, where it is to be
-- updated, flushes and fills both sets with the same lists; FRR runs what it ran unless nft took
-- that script; and every other named file is as before. After a success of a run that is not dry,
-- nft took that script where it is to, and frr.conf has both blocks replaced.
pub deploy-Deployed :
    (env : Env) (w : World) (cancel : Option Error) (push : CliFlags → Bytes → Sys (Unit {0}))
    (f : CliFlags) (m : Option Metrics) (v4 v6 : List Prefix)
    → bytes_eq f.target (bytes "frr") ≡ true
    → Post
        (λ _ v.
          Deployed f v4 v6 (λ q. w.files (named q)) w.running v
          × Updated f v4 v6 (λ q. w.files (named q)) v)
        (λ _. Deployed f v4 v6 (λ q. w.files (named q)) w.running)
        (deploy cancel push f m v4 v6 env w)
deploy-Deployed env w cancel push f m v4 v6 t =
    (deploy_lem env (λ q. w.files (named q)) w.running f m v4 v6 cancel push t).run w
      ((λ q. refl), refl)
