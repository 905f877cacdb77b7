-- ===== src/Pipeline/Specification.antt =====
-- main.go's `run` behind the aggregation: what it promises of frr.conf, nft and FRR.
use georoute.Base.{Bool, true, false, ◌≡◌, ◌⊎◌, inl, inr, Option, some, List, [], ◌∷◌, ◌++◌, map}
use georoute.Netip.{Bytes, Prefix}
use georoute.Errors.{ok}
use georoute.System.{named, World, Env}
use georoute.System.Hoare.{Hoare, weaken}
use georoute.System.Files.{Stable}
use georoute.System.AtomicWrite.{atomic_write_lem}
use georoute.Rollback.{apply_frr_config_opts}
use georoute.Rollback.Laws.{apply_lem}
use georoute.Flags.{CliFlags}
use georoute.Frr.{render_networks, splice}
use georoute.Netip.Format.{prefix_string}
use georoute.Text.{bytes, join}

-- The lines for one set, as nft(8) reads them.
abbrev set_text : Bytes → List Prefix → Bytes
set_text name [] = bytes "flush set inet pbr " ++ (name ++ bytes "\n")
set_text name (p ∷ l) =
    bytes "flush set inet pbr "
    ++ (name
        ++ (bytes "\nadd element inet pbr "
            ++ (name
                ++ (bytes " { "
                    ++ (join (map prefix_string (p ∷ l)) (bytes ", ") ++ bytes " }\n")))))

-- Where nft is to be updated, the script that it took last flushes and fills the IPv4 set, and then
-- the IPv6 one.
abbrev pub ByNft : CliFlags → List Prefix → List Prefix → Option Bytes → Type 0
ByNft f v4 v6 script =
    f.update_nft ≡ true → script ≡ some (set_text f.nft_set_v4 v4 ++ set_text f.nft_set_v6 v6)

abbrev pub NftTook : CliFlags → List Prefix → List Prefix → World → Type 0
NftTook f v4 v6 w = ByNft f v4 v6 w.nft

-- A marker's line.
abbrev pub marker_text : Bytes → Bytes → Bytes → Bytes
marker_text kind prefix family = kind ++ (prefix ++ family)

-- The block between a family's markers is replaced by the rendered list.
abbrev pub Block : CliFlags → Bytes → List Prefix → Bytes → Bytes → Type 0
Block f family l cur next =
    splice cur (marker_text (bytes "  ! BEGIN-") f.marker_prefix family)
      (marker_text (bytes "  ! END-") f.marker_prefix family) (render_networks l f.route_map)
    ≡ ok next

-- The config file has the old text with the IPv4 block and the IPv6 block replaced.
abbrev pub Spliced : CliFlags → List Prefix → List Prefix → (Bytes → Option Bytes) → World → Type 0
Spliced f v4 v6 g w =
    (cur : Bytes) × (between : Bytes) × (next : Bytes) × (g f.frr_conf ≡ some cur)
    × Block f (bytes "-V4") v4 cur between
    × Block f (bytes "-V6") v6 between next
    × (w.files (named f.frr_conf) ≡ some next)

-- Unless the run is dry, nft took the script where it is to, and frr.conf is the spliced text.
abbrev pub Updated : CliFlags → List Prefix → List Prefix → (Bytes → Option Bytes) → World → Type 0
Updated f v4 v6 g w = f.dry_run ≡ false → NftTook f v4 v6 w × Spliced f v4 v6 g w

-- Without what nft took: the config file is the old one or the spliced one, the others are as before.
abbrev pub Moved : CliFlags → List Prefix → List Prefix → (Bytes → Option Bytes) → World → Type 0
Moved f v4 v6 g w =
    ((w.files (named f.frr_conf) ≡ g f.frr_conf) ⊎ Spliced f v4 v6 g w)
    × ((q : Bytes) → ¬ (f.frr_conf ≡ q) → w.files (named q) ≡ g q)

pub record Deployed (f : CliFlags) (v4 v6 : List Prefix) (g : Bytes → Option Bytes)
    (r : Option Bytes) (w : World) : Type 0 where
  pub config :
      (w.files (named f.frr_conf) ≡ g f.frr_conf) ⊎ (NftTook f v4 v6 w × Spliced f v4 v6 g w)
  pub others : (q : Bytes) → ¬ (f.frr_conf ≡ q) → w.files (named q) ≡ g q
  pub runs : (w.running ≡ r) ⊎ NftTook f v4 v6 w

forget : {A B C : Type 0} → A ⊎ (C × B) → A ⊎ B
forget (inl a) = inl a
forget (inr (c, b)) = inr b

module _ (env : Env) (g : Bytes → Option Bytes) (r : Option Bytes) where
  -- frr.conf is the old one or the next one, and the other named files are as before.
  abbrev pub Swapped : Bytes → Bytes → World → Type 0
  Swapped conf next w =
      ((w.files (named conf) ≡ g conf) ⊎ (w.files (named conf) ≡ some next))
      × ((q : Bytes) → ¬ (conf ≡ q) → w.files (named q) ≡ g q)

  pub swapping :
      (conf next : Bytes) (skip : Bool)
      → Hoare env
          (Stable g r)
          (apply_frr_config_opts conf next skip)
          (λ _ w. Swapped conf next w × (w.files (named conf) ≡ some next))
          (λ _. Swapped conf next)
  unfolding apply_frr_config_opts
  swapping conf next true =
      weaken (λ w h. h) (λ a w h. ((inr h.0, h.1), h.0)) (λ e w h. (inl (h.0 conf), λ q o. h.0 q))
        (atomic_write_lem env g r conf next)
  swapping conf next false =
      weaken (λ w h. h) (λ a w h. ((inr h.1.0.0, h.1.0.1), h.1.0.0)) (λ e w h. (forget h.0, h.1.0))
        (apply_lem env g r conf next)
