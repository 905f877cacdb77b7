-- ===== src/Flags/Laws.antt =====
-- main.go's `applyDefaults`.
use mathlib.Core.Path.{subst}
use georoute.Base.{
  arith, sym, ◌*◌, ℕ, true, false, ◌≡◌, ◌≢◌, refl, inl, inr, Bool-cases, ◌⊎◌, [], ◌∷◌, ◌++◌, ℤ, pos,
  negsuc, ◌==◌, ==_iff,
}
use georoute.Netip.{Bytes}
use georoute.Text.{bytes, bytes_eq, to_lower, to_upper}
use georoute.Flags.{
  CliFlags, second, text_or, number_or, apply_defaults, apply_base_defaults, apply_runtime_defaults,
  apply_iosxe_target_defaults, apply_iosxe_defaults,
}

-- A text that the operator gave stays, and only an empty one becomes the default.
pub data TextKept (default : Bytes) : Bytes → Bytes → Type 0 where
  text_given : {c : ℕ} {s : Bytes} → TextKept default (c ∷ s) (c ∷ s)
  text_unset : TextKept default [] default

-- A number that the operator gave stays, and only 0 becomes the default.
pub data NumberKept (default : ℕ) : ℤ → ℤ → Type 0 where
  number_given : {n : ℤ} → n ≢ pos 0 → NumberKept default n n
  number_unset : NumberKept default (pos 0) (pos default)

text_or-TextKept : (s d : Bytes) → TextKept d s (text_or s d)
text_or-TextKept [] d = text_unset
text_or-TextKept (c ∷ s) d = text_given

not_zero : (n : ℕ) → (n == 0) ≡ false → pos n ≢ pos 0
not_zero n h e = ground arith

number_or-NumberKept : (n : ℤ) (d : ℕ) → NumberKept d n (number_or n d)
number_or-NumberKept (negsuc n) d = number_given (λ e. cc e)
number_or-NumberKept (pos n) d = elim (Bool-cases (n == 0)) [
  | inl y ↦ rw y (subst (λ k. NumberKept d (pos k) (pos d)) (sym ((==_iff n 0).0 y)) number_unset)
  | inr k ↦ rw k (number_given (λ e. not_zero n k e))
]

-- The flags `g` are the flags `f` with their defaults, as docs/CONFIGURATION.md has them: for the
-- upper and the lower case of the country code. The static routes' names are filled for the IOS XE
-- target alone, and everything else is as it was.
pub record Defaulted (f g : CliFlags) (cc lower : Bytes) : Type 0 where
  pub route_map : TextKept (bytes "MARK-" ++ (cc ++ bytes "-EXIT")) f.route_map g.route_map
  pub nft_set_v4 : TextKept (lower ++ bytes "_v4") f.nft_set_v4 g.nft_set_v4
  pub nft_set_v6 : TextKept (lower ++ bytes "_v6") f.nft_set_v6 g.nft_set_v6
  pub marker_prefix : TextKept (cc ++ bytes "-FEED") f.marker_prefix g.marker_prefix
  pub feed_url :
      TextKept
        (bytes "https://stat.ripe.net/data/country-resource-list/data.json?resource="
          ++ (cc ++ bytes "&v4_format=prefix"))
        f.feed_url
        g.feed_url
  pub lock_file :
      TextKept (bytes "/run/georoute-" ++ (lower ++ bytes ".lock")) f.lock_file g.lock_file
  pub cache_file :
      TextKept
        (bytes "/var/lib/georoute/feed-" ++ (lower ++ bytes ".json.gz"))
        f.cache_file
        g.cache_file
  pub last_success_file :
      TextKept
        (bytes "/var/lib/georoute/last-success-" ++ lower)
        f.last_success_file
        g.last_success_file
  pub log_format : TextKept (bytes "text") f.log_format g.log_format
  pub log_level : TextKept (bytes "info") f.log_level g.log_level
  pub frr_reload_script :
      TextKept (bytes "/usr/lib/frr/frr-reload.py") f.frr_reload_script g.frr_reload_script
  pub nft_binary : TextKept (bytes "/usr/sbin/nft") f.nft_binary g.nft_binary
  pub target : TextKept (bytes "frr") f.target g.target
  pub target_mode : TextKept (bytes "apply") f.target_mode g.target_mode
  pub target_output : TextKept (bytes "-") f.target_output g.target_output
  pub iosxe_prefix_list :
      TextKept (bytes "PL-GEOROUTE-" ++ (cc ++ bytes "-V4")) f.iosxe_prefix_list g.iosxe_prefix_list
  pub iosxe_route_map :
      TextKept (bytes "RM-GEOROUTE-" ++ (cc ++ bytes "-OUT")) f.iosxe_route_map g.iosxe_route_map
  pub cache_max_age : NumberKept (7 * 24 * 3600 * second) f.cache_max_age g.cache_max_age
  pub ready_max_age : NumberKept (24 * 3600 * second) f.ready_max_age g.ready_max_age
  pub http_timeout : NumberKept (60 * second) f.http_timeout g.http_timeout
  pub frr_reload_timeout : NumberKept (180 * second) f.frr_reload_timeout g.frr_reload_timeout
  pub nft_timeout : NumberKept (30 * second) f.nft_timeout g.nft_timeout
  pub iosxe_ssh_timeout : NumberKept (30 * second) f.iosxe_ssh_timeout g.iosxe_ssh_timeout
  pub iosxe_ssh_port : NumberKept (22) f.iosxe_ssh_port g.iosxe_ssh_port
  pub retry_attempts : NumberKept (3) f.retry_attempts g.retry_attempts
  pub retry_base_delay : NumberKept (2 * second) f.retry_base_delay g.retry_base_delay
  pub iosxe_route_map_seq : NumberKept (10) f.iosxe_route_map_seq g.iosxe_route_map_seq
  pub iosxe_route_map_deny_seq :
      NumberKept (9999) f.iosxe_route_map_deny_seq g.iosxe_route_map_deny_seq
  pub iosxe_vrf_leak_route_map_seq :
      NumberKept (20) f.iosxe_vrf_leak_route_map_seq g.iosxe_vrf_leak_route_map_seq
  pub static_routes :
      ((bytes_eq g.target (bytes "iosxe") ≡ true)
        × TextKept
            (bytes "RM-GEOROUTE-" ++ (cc ++ bytes "-STATIC"))
            f.iosxe_static_route_map
            g.iosxe_static_route_map
        × TextKept (bytes "GEOROUTE_" ++ cc) f.iosxe_static_route_name g.iosxe_static_route_name)
      ⊎ ((bytes_eq g.target (bytes "iosxe") ≡ false)
          × (g.iosxe_static_route_map ≡ f.iosxe_static_route_map)
          × (g.iosxe_static_route_name ≡ f.iosxe_static_route_name))
  pub others : g ≡ record f {
    route_map = g.route_map;
    nft_set_v4 = g.nft_set_v4;
    nft_set_v6 = g.nft_set_v6;
    marker_prefix = g.marker_prefix;
    feed_url = g.feed_url;
    lock_file = g.lock_file;
    cache_file = g.cache_file;
    last_success_file = g.last_success_file;
    log_format = g.log_format;
    log_level = g.log_level;
    frr_reload_script = g.frr_reload_script;
    nft_binary = g.nft_binary;
    target = g.target;
    target_mode = g.target_mode;
    target_output = g.target_output;
    iosxe_prefix_list = g.iosxe_prefix_list;
    iosxe_route_map = g.iosxe_route_map;
    cache_max_age = g.cache_max_age;
    ready_max_age = g.ready_max_age;
    http_timeout = g.http_timeout;
    frr_reload_timeout = g.frr_reload_timeout;
    nft_timeout = g.nft_timeout;
    iosxe_ssh_timeout = g.iosxe_ssh_timeout;
    iosxe_ssh_port = g.iosxe_ssh_port;
    retry_attempts = g.retry_attempts;
    retry_base_delay = g.retry_base_delay;
    iosxe_route_map_seq = g.iosxe_route_map_seq;
    iosxe_route_map_deny_seq = g.iosxe_route_map_deny_seq;
    iosxe_vrf_leak_route_map_seq = g.iosxe_vrf_leak_route_map_seq;
    iosxe_static_route_map = g.iosxe_static_route_map;
    iosxe_static_route_name = g.iosxe_static_route_name;
  }

-- A flag that the operator gave is kept, one that is unset becomes the documented default for the
-- country, and no other flag changes.
pub apply_defaults-Defaulted :
    (f : CliFlags) → Defaulted f (apply_defaults f) (to_upper f.country) (to_lower f.country)
unfolding apply_defaults apply_base_defaults apply_runtime_defaults apply_iosxe_target_defaults
    apply_iosxe_defaults
apply_defaults-Defaulted f =
    elim (Bool-cases (bytes_eq (text_or f.target (bytes "frr")) (bytes "iosxe"))) [
      | inl y ↦ rw y (record {
        route_map = text_or-TextKept f.route_map _;
        nft_set_v4 = text_or-TextKept f.nft_set_v4 _;
        nft_set_v6 = text_or-TextKept f.nft_set_v6 _;
        marker_prefix = text_or-TextKept f.marker_prefix _;
        feed_url = text_or-TextKept f.feed_url _;
        lock_file = text_or-TextKept f.lock_file _;
        cache_file = text_or-TextKept f.cache_file _;
        last_success_file = text_or-TextKept f.last_success_file _;
        log_format = text_or-TextKept f.log_format _;
        log_level = text_or-TextKept f.log_level _;
        frr_reload_script = text_or-TextKept f.frr_reload_script _;
        nft_binary = text_or-TextKept f.nft_binary _;
        target = text_or-TextKept f.target _;
        target_mode = text_or-TextKept f.target_mode _;
        target_output = text_or-TextKept f.target_output _;
        iosxe_prefix_list = text_or-TextKept f.iosxe_prefix_list _;
        iosxe_route_map = text_or-TextKept f.iosxe_route_map _;
        cache_max_age = number_or-NumberKept f.cache_max_age _;
        ready_max_age = number_or-NumberKept f.ready_max_age _;
        http_timeout = number_or-NumberKept f.http_timeout _;
        frr_reload_timeout = number_or-NumberKept f.frr_reload_timeout _;
        nft_timeout = number_or-NumberKept f.nft_timeout _;
        iosxe_ssh_timeout = number_or-NumberKept f.iosxe_ssh_timeout _;
        iosxe_ssh_port = number_or-NumberKept f.iosxe_ssh_port _;
        retry_attempts = number_or-NumberKept f.retry_attempts _;
        retry_base_delay = number_or-NumberKept f.retry_base_delay _;
        iosxe_route_map_seq = number_or-NumberKept f.iosxe_route_map_seq _;
        iosxe_route_map_deny_seq = number_or-NumberKept f.iosxe_route_map_deny_seq _;
        iosxe_vrf_leak_route_map_seq = number_or-NumberKept f.iosxe_vrf_leak_route_map_seq _;
        static_routes = inl (
          y,
          text_or-TextKept f.iosxe_static_route_map _,
          text_or-TextKept f.iosxe_static_route_name _,
        );
        others = refl;
      })
      | inr n ↦ rw n (record {
        route_map = text_or-TextKept f.route_map _;
        nft_set_v4 = text_or-TextKept f.nft_set_v4 _;
        nft_set_v6 = text_or-TextKept f.nft_set_v6 _;
        marker_prefix = text_or-TextKept f.marker_prefix _;
        feed_url = text_or-TextKept f.feed_url _;
        lock_file = text_or-TextKept f.lock_file _;
        cache_file = text_or-TextKept f.cache_file _;
        last_success_file = text_or-TextKept f.last_success_file _;
        log_format = text_or-TextKept f.log_format _;
        log_level = text_or-TextKept f.log_level _;
        frr_reload_script = text_or-TextKept f.frr_reload_script _;
        nft_binary = text_or-TextKept f.nft_binary _;
        target = text_or-TextKept f.target _;
        target_mode = text_or-TextKept f.target_mode _;
        target_output = text_or-TextKept f.target_output _;
        iosxe_prefix_list = text_or-TextKept f.iosxe_prefix_list _;
        iosxe_route_map = text_or-TextKept f.iosxe_route_map _;
        cache_max_age = number_or-NumberKept f.cache_max_age _;
        ready_max_age = number_or-NumberKept f.ready_max_age _;
        http_timeout = number_or-NumberKept f.http_timeout _;
        frr_reload_timeout = number_or-NumberKept f.frr_reload_timeout _;
        nft_timeout = number_or-NumberKept f.nft_timeout _;
        iosxe_ssh_timeout = number_or-NumberKept f.iosxe_ssh_timeout _;
        iosxe_ssh_port = number_or-NumberKept f.iosxe_ssh_port _;
        retry_attempts = number_or-NumberKept f.retry_attempts _;
        retry_base_delay = number_or-NumberKept f.retry_base_delay _;
        iosxe_route_map_seq = number_or-NumberKept f.iosxe_route_map_seq _;
        iosxe_route_map_deny_seq = number_or-NumberKept f.iosxe_route_map_deny_seq _;
        iosxe_vrf_leak_route_map_seq = number_or-NumberKept f.iosxe_vrf_leak_route_map_seq _;
        static_routes = inr (n, refl, refl);
        others = refl;
      })
    ]
