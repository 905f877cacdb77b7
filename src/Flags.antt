-- ===== src/Flags.antt =====
-- main.go: the command line's flags (`cliFlags`) and the defaults that a country code implies.
pub mod Laws
pub mod Parsed
use georoute.Base.{
  ℕ, ◌*◌, Bool, true, false, ◌||◌, List, [], ◌∷◌, ◌++◌, ◌==◌, if◌then◌else◌, ℤ, pos, negsuc,
}
use georoute.Netip.{Bytes}
use georoute.Text.{bytes, bytes_eq, to_lower, to_upper}

-- Durations are nanoseconds.
pub record CliFlags : Type 0 where
  pub frr_conf : Bytes
  pub lock_file : Bytes
  pub country : Bytes
  pub route_map : Bytes
  pub nft_set_v4 : Bytes
  pub nft_set_v6 : Bytes
  pub marker_prefix : Bytes
  pub feed_url : Bytes
  pub extras_v4_file : Bytes
  pub extras_v6_file : Bytes
  pub cache_file : Bytes
  pub http_addr : Bytes
  pub last_success_file : Bytes
  pub log_format : Bytes
  pub log_level : Bytes
  pub frr_reload_script : Bytes
  pub nft_binary : Bytes
  pub target : Bytes
  pub target_mode : Bytes
  pub target_output : Bytes
  pub iosxe_prefix_list : Bytes
  pub iosxe_route_map : Bytes
  pub iosxe_static_next_hop : Bytes
  pub iosxe_static_route_map : Bytes
  pub iosxe_static_route_name : Bytes
  pub iosxe_bgp_as : Bytes
  pub iosxe_ssh_host : Bytes
  pub iosxe_ssh_user : Bytes
  pub iosxe_ssh_key_file : Bytes
  pub iosxe_known_hosts_file : Bytes
  pub iosxe_vrf_leak_route_map : Bytes
  pub cache_max_age : ℤ
  pub ready_max_age : ℤ
  pub http_timeout : ℤ
  pub frr_reload_timeout : ℤ
  pub nft_timeout : ℤ
  pub iosxe_ssh_timeout : ℤ
  pub retry_base_delay : ℤ
  pub refresh_interval : ℤ
  pub retry_attempts : ℤ
  pub iosxe_ssh_port : ℤ
  pub iosxe_route_map_seq : ℤ
  pub iosxe_route_map_deny_seq : ℤ
  pub iosxe_vrf_leak_route_map_seq : ℤ
  pub iosxe_static_tag : ℤ
  pub iosxe_apply_max_prefixes : ℤ
  pub iosxe_save_config : Bool
  pub reload_ok : Bool
  pub dry_run : Bool
  pub force : Bool
  pub update_nft : Bool
  pub iosxe_replace_prefix_list : Bool

-- `if s == "" { s = d }`
abbrev pub text_or : Bytes → Bytes → Bytes
text_or [] d = d
text_or (c ∷ s) d = c ∷ s

-- `if n == 0 { n = d }`
abbrev pub number_or : ℤ → ℕ → ℤ
number_or (pos n) d = if n == 0 then pos d else pos n
number_or (negsuc n) d = negsuc n

abbrev pub second : ℕ
second = 1000000000

abbrev hour : ℕ
hour = 3600000000000

unfoldable pub apply_base_defaults : CliFlags → Bytes → Bytes → CliFlags
apply_base_defaults f cc lower = record f {
  route_map = text_or f.route_map (bytes "MARK-" ++ (cc ++ bytes "-EXIT"));
  nft_set_v4 = text_or f.nft_set_v4 (lower ++ bytes "_v4");
  nft_set_v6 = text_or f.nft_set_v6 (lower ++ bytes "_v6");
  marker_prefix = text_or f.marker_prefix (cc ++ bytes "-FEED");
  feed_url = text_or f.feed_url (
      bytes "https://stat.ripe.net/data/country-resource-list/data.json?resource="
      ++ (cc ++ bytes "&v4_format=prefix"));
  lock_file = text_or f.lock_file (bytes "/run/georoute-" ++ (lower ++ bytes ".lock"));
  cache_file =
      text_or f.cache_file (bytes "/var/lib/georoute/feed-" ++ (lower ++ bytes ".json.gz"));
}

unfoldable pub apply_runtime_defaults : CliFlags → Bytes → CliFlags
apply_runtime_defaults f lower = record f {
  cache_max_age = number_or f.cache_max_age (7 * 24 * hour);
  last_success_file =
      text_or f.last_success_file (bytes "/var/lib/georoute/last-success-" ++ lower);
  ready_max_age = number_or f.ready_max_age (24 * hour);
  log_format = text_or f.log_format (bytes "text");
  log_level = text_or f.log_level (bytes "info");
  http_timeout = number_or f.http_timeout (60 * second);
  frr_reload_timeout = number_or f.frr_reload_timeout (180 * second);
  nft_timeout = number_or f.nft_timeout (30 * second);
  iosxe_ssh_timeout = number_or f.iosxe_ssh_timeout (30 * second);
  iosxe_ssh_port = number_or f.iosxe_ssh_port 22;
  retry_attempts = number_or f.retry_attempts 3;
  retry_base_delay = number_or f.retry_base_delay (2 * second);
  frr_reload_script = text_or f.frr_reload_script (bytes "/usr/lib/frr/frr-reload.py");
  nft_binary = text_or f.nft_binary (bytes "/usr/sbin/nft");
  target = text_or f.target (bytes "frr");
  target_mode = text_or f.target_mode (bytes "apply");
  target_output = text_or f.target_output (bytes "-");
}

unfoldable pub apply_iosxe_target_defaults : CliFlags → Bytes → CliFlags
unfolding bytes_eq
apply_iosxe_target_defaults f cc =
    let named_list = record f {
      iosxe_prefix_list = text_or f.iosxe_prefix_list (bytes "PL-GEOROUTE-" ++ (cc ++ bytes "-V4"));
    } in
    if bytes_eq f.target (bytes "iosxe")
    then record named_list {
      iosxe_static_route_map =
          text_or f.iosxe_static_route_map (bytes "RM-GEOROUTE-" ++ (cc ++ bytes "-STATIC"));
      iosxe_static_route_name = text_or f.iosxe_static_route_name (bytes "GEOROUTE_" ++ cc);
    }
    else named_list

unfoldable pub apply_iosxe_defaults : CliFlags → Bytes → CliFlags
apply_iosxe_defaults f cc = record f {
  iosxe_route_map = text_or f.iosxe_route_map (bytes "RM-GEOROUTE-" ++ (cc ++ bytes "-OUT"));
  iosxe_route_map_seq = number_or f.iosxe_route_map_seq 10;
  iosxe_route_map_deny_seq = number_or f.iosxe_route_map_deny_seq 9999;
  iosxe_vrf_leak_route_map_seq = number_or f.iosxe_vrf_leak_route_map_seq 20;
}

-- `applyDefaults`
unfoldable pub apply_defaults : CliFlags → CliFlags
apply_defaults f =
    let cc = to_upper f.country in
    let lower = to_lower f.country in
    apply_iosxe_defaults
      (apply_iosxe_target_defaults (apply_runtime_defaults (apply_base_defaults f cc lower) lower)
        cc)
      cc
