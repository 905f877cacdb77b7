-- ===== src/Pipeline/Moving.antt =====
-- main.go's `run`: the swap of frr.conf, and what it leaves of nft.
use georoute.Base.{
  Bool, true, false, not, ◌&&◌, Bool-cases, ◌≡◌, refl, ap, ◌∙◌, inl, inr, Option, some, List,
}
use georoute.Netip.{Bytes, Prefix}
use georoute.Text.{bytes, bytes_eq}
use georoute.Text.Search.{bytes_eq_iff}
use georoute.Errors.{Result, ok, err, in_context}
use georoute.System.{named, World, Env}
use georoute.System.Hoare.{Hoare, or_else_lem, weaken, if_lem}
use georoute.System.Files.{Stable}
use georoute.Flags.{CliFlags}
use georoute.Metrics.{Metrics}
use georoute.Metrics.Laws.{measured-Reports, timed-Reports, watched_lem, observe_frr_reload-Reports}
use georoute.Pipeline.{splice_v6, next_conf, update_conf}
use georoute.Frr.{markers, render_networks, splice}
use georoute.Pipeline.Quiet.{Quiet, apply_frr_config_opts-Quiet}
use georoute.Pipeline.Specification.{ByNft, NftTook, Block, Spliced, Moved, Swapped, swapping}

module _ (env : Env) (g : Bytes → Option Bytes) (r : Option Bytes) where
  module _ (f : CliFlags) (m : Option Metrics) (v4 v6 : List Prefix) where
    unmoved : (w : World) → Stable g r w → Moved f v4 v6 g w
    unmoved w h = (inl (h.0 f.frr_conf), λ q o. h.0 q)

    swapped :
        (cur next : Bytes) (w : World)
        → ((v : World) → v.files (named f.frr_conf) ≡ some next → Spliced f v4 v6 g v)
        → Swapped env g r f.frr_conf next w
        → Moved f v4 v6 g w
    swapped cur next w s (inl old, others) = (inl old, others)
    swapped cur next w s (inr new, others) = (inr (s w new), others)

    -- The two blocks of the next config.
    Blocks : Bytes → Bytes → Type 0
    Blocks cur next =
        (between : Bytes) × Block f (bytes "-V4") v4 cur between
        × Block f (bytes "-V6") v6 between next

    in_context-ok :
        (context : Bytes) (x : Result Bytes) {text : Bytes}
        → in_context context x ≡ ok text
        → x ≡ ok text
    in_context-ok context (ok t) e = e
    in_context-ok context (err d) e = cc e

    splice_v6-Blocks :
        (x : Result Bytes) (cur next : Bytes)
        → in_context (bytes "splice v4") (
            splice cur
              (markers f.marker_prefix).begin_v4
              (markers f.marker_prefix).end_v4
              (render_networks v4 f.route_map))
          ≡ x
        → splice_v6 (markers f.marker_prefix) (render_networks v6 f.route_map) x ≡ ok next
        → Blocks cur next
    unfolding Blocks markers
    splice_v6-Blocks (ok text) cur next e h =
        (text, in_context-ok (bytes "splice v4") _ e, in_context-ok (bytes "splice v6") _ h)
    splice_v6-Blocks (err d) cur next e h = cc h

    next_conf-Blocks : (cur next : Bytes) → next_conf f v4 v6 cur ≡ ok next → Blocks cur next
    unfolding next_conf
    next_conf-Blocks cur next e = splice_v6-Blocks _ cur next refl e

    spliced :
        (cur next : Bytes)
        → g f.frr_conf ≡ some cur
        → next_conf f v4 v6 cur ≡ ok next
        → (w : World) → w.files (named f.frr_conf) ≡ some next
        → Spliced f v4 v6 g w
    unfolding Blocks
    spliced cur next c n w at =
        let (between, upper, lower) = next_conf-Blocks cur next n in
        (cur, between, next, c, upper, lower, at)

    same_text : (a : Bool) {cur next : Bytes} → (a && bytes_eq cur next) ≡ true → cur ≡ next
    same_text true {cur = cur} {next = next} h = (bytes_eq_iff cur next).0 h
    same_text false h = cc h

    pub update_conf_lem :
        (cur : Bytes) (x : Result Bytes)
        → g f.frr_conf ≡ some cur
        → next_conf f v4 v6 cur ≡ x
        → Hoare env
            (Stable g r)
            (update_conf f m cur x)
            (λ _ w. Moved f v4 v6 g w × Spliced f v4 v6 g w)
            (λ _. Moved f v4 v6 g)
    unfolding update_conf
    update_conf_lem cur (err e) c n = record { run = λ w h. unmoved w h }
    update_conf_lem cur (ok next) c n = elim (Bool-cases (not f.force && bytes_eq cur next)) [
      | inl y ↦ rw y (record {
        run = λ w h. (
          unmoved w h,
          spliced cur next c n w (h.0 f.frr_conf ∙ c ∙ ap some (same_text (not f.force) y)),
        );
      })
      | inr no_change ↦ rw no_change (
          or_else_lem (Swapped env g r f.frr_conf next) (bytes "apply frr.conf")
            (weaken (λ w h. h)
              (λ a w h. (swapped cur next w (spliced cur next c n) h.0, spliced cur next c n w h.1))
              (λ e w h. h)
              (watched_lem
                {Q = λ _ w.
                  Swapped env g r f.frr_conf next w × (w.files (named f.frr_conf) ≡ some next)}
                {E = λ _. Swapped env g r f.frr_conf next} (λ a w ms k h. h) (λ e w ms k h. h)
                (λ r. measured-Reports m (λ x. timed-Reports (observe_frr_reload-Reports x _)))
                (swapping env g r f.frr_conf next (not f.reload_ok))))
            (record { run = λ w h. h }) (λ e w h. h)
            (λ e w h. swapped cur next w (spliced cur next c n) h))
    ]

    pub update_conf-Quiet :
        (cur : Bytes) (x : Result Bytes) → Quiet env (ByNft f v4 v6) (update_conf f m cur x)
    unfolding update_conf
    update_conf-Quiet cur (err e) = record { run = λ w h. h }
    update_conf-Quiet cur (ok next) =
        if_lem (not f.force && bytes_eq cur next) (λ y. record { run = λ w h. h })
          (λ n.
            or_else_lem (NftTook f v4 v6) (bytes "apply frr.conf")
              (watched_lem {Q = λ _. NftTook f v4 v6} {E = λ _. NftTook f v4 v6} (λ a w ms k h. h)
                (λ e w ms k h. h)
                (λ r. measured-Reports m (λ x. timed-Reports (observe_frr_reload-Reports x _)))
                (apply_frr_config_opts-Quiet env (ByNft f v4 v6) f.frr_conf next (not f.reload_ok)))
              (record { run = λ w h. h }) (λ e w h. h) (λ e w h. h))
