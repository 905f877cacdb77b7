-- ===== src/Pipeline.antt =====
-- main.go: `run` from the aggregated lists on, and `applyNft`.
pub mod Specification
pub mod Quiet
pub mod Moving
pub mod Laws
use georoute.Base.{
  ℕ, Bool, true, false, not, ◌&&◌, Option, none, some, List, [], ◌∷◌, ◌++◌, map, if◌then◌else◌,
}
use georoute.Netip.{Bytes, Prefix}
use georoute.Netip.Format.{prefix_string}
use georoute.Text.{bytes, bytes_eq, join}
use georoute.Errors.{Error, Result, ok, err, wrap, in_context}
use georoute.System.{
  FilePath, named, Sys, ◌>>=◌, ◌>>◌, pure, throw, or_else, read_file, run_nft, watched,
}
use georoute.Metrics.{Metrics, measured, timed, result_label, observe_nft_apply, observe_frr_reload}
use georoute.Frr.{Markers, markers, render_networks, splice}
use georoute.Flags.{CliFlags}
use georoute.Rollback.{apply_frr_config_opts}
use georoute.Target.{validate_frr_target_mode}
use georoute.Target.Run.{run_target}

unfoldable pub join_prefixes : List Prefix → Bytes
unfolding join prefix_string
join_prefixes l = join (map prefix_string l) (bytes ", ")

-- The lines that fill one set.
unfoldable pub fill_set : Bytes → List Prefix → Bytes
unfolding join_prefixes
fill_set name [] = bytes "flush set inet pbr " ++ (name ++ bytes "\n")
fill_set name (p ∷ l) =
    bytes "flush set inet pbr "
    ++ (name
        ++ (bytes "\nadd element inet pbr "
            ++ (name ++ (bytes " { " ++ (join_prefixes (p ∷ l) ++ bytes " }\n")))))

unfoldable pub nft_script : CliFlags → List Prefix → List Prefix → Bytes
unfolding fill_set
nft_script f v4 v6 = fill_set f.nft_set_v4 v4 ++ fill_set f.nft_set_v6 v6

-- `applyNft`
unfoldable pub apply_nft : CliFlags → List Prefix → List Prefix → Sys (Unit {0})
apply_nft f v4 v6 = or_else (run_nft (nft_script f v4 v6)) (bytes "nft -f") (pure tt)

abbrev pub splice_v6 : Markers → Bytes → Result Bytes → Result Bytes
splice_v6 m body (ok text) = in_context (bytes "splice v6") (splice text m.begin_v6 m.end_v6 body)
splice_v6 m body (err e) = err e

-- The next frr.conf: both blocks spliced into the current one.
unfoldable pub next_conf : CliFlags → List Prefix → List Prefix → Bytes → Result Bytes
next_conf f v4 v6 cur =
    let m = markers f.marker_prefix in
    splice_v6 m (render_networks v6 f.route_map) (
      in_context (bytes "splice v4")
        (splice cur m.begin_v4 m.end_v4 (render_networks v4 f.route_map)))

-- What follows the splicing.
unfoldable pub update_conf : CliFlags → Option Metrics → Bytes → Result Bytes → Sys (Unit {0})
update_conf f m cur (err e) = throw e
update_conf f m cur (ok next) =
    if not f.force && bytes_eq cur next
    then pure tt
    else or_else
        (watched (apply_frr_config_opts f.frr_conf next (not f.reload_ok))
          (λ r. measured m (λ x. timed (observe_frr_reload x (result_label r)))))
        (bytes "apply frr.conf") (pure tt)

-- nft first: the data plane before the routes.
unfoldable pub nft_first : CliFlags → Option Metrics → List Prefix → List Prefix → Sys (Unit {0})
nft_first f m v4 v6 =
    if f.update_nft
    then or_else
        (watched (apply_nft f v4 v6)
          (λ r. measured m (λ x. timed (observe_nft_apply x (result_label r)))))
        (bytes "apply nft") (pure tt)
    else pure tt

unfoldable pub update_frr : CliFlags → Option Metrics → List Prefix → List Prefix → Sys (Unit {0})
update_frr f m v4 v6 = do
  nft_first f m v4 v6
  cur ← or_else (read_file (named f.frr_conf)) (bytes "read frr.conf") (pure tt)
  update_conf f m cur (next_conf f v4 v6 cur)

abbrev pub in_mode : Result (Unit {0}) → Sys (Unit {0}) → Sys (Unit {0})
in_mode (ok _) m = m
in_mode (err e) m = throw e

-- `run` behind the aggregation; the parameters are `ctx.Err()` and `applyIOSXEOverSSH`.
unfoldable pub deploy :
    Option Error
    → (CliFlags → Bytes → Sys (Unit {0}))
    → CliFlags
    → Option Metrics
    → List Prefix
    → List Prefix
    → Sys (Unit {0})
deploy cancel push f m v4 v6 =
    if bytes_eq f.target (bytes "frr")
    then in_mode (validate_frr_target_mode f.target_mode)
        (if f.dry_run then pure tt else update_frr f m v4 v6)
    else run_target cancel push f v4
