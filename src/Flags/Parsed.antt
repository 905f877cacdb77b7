-- ===== src/Flags/Parsed.antt =====
-- main.go's flag definitions in `realMain`: the options of a command line without any.
use georoute.Base.{[], true, false, pos}
use georoute.Text.{bytes}
use georoute.Flags.{CliFlags}

abbrev pub flag_defaults : CliFlags
flag_defaults = record {
  frr_conf = bytes "/etc/frr/frr.conf";
  reload_ok = true;
  dry_run = false;
  force = false;
  update_nft = true;
  lock_file = [];
  country = bytes "RU";
  route_map = [];
  nft_set_v4 = [];
  nft_set_v6 = [];
  marker_prefix = [];
  feed_url = [];
  extras_v4_file = [];
  extras_v6_file = [];
  cache_file = [];
  cache_max_age = pos 0;
  http_addr = [];
  last_success_file = [];
  ready_max_age = pos 0;
  log_format = [];
  log_level = [];
  http_timeout = pos 0;
  frr_reload_timeout = pos 0;
  nft_timeout = pos 0;
  retry_attempts = pos 0;
  retry_base_delay = pos 0;
  frr_reload_script = [];
  nft_binary = [];
  target = [];
  target_mode = [];
  target_output = [];
  iosxe_prefix_list = [];
  iosxe_route_map = [];
  iosxe_static_next_hop = [];
  iosxe_static_route_map = [];
  iosxe_static_route_name = [];
  iosxe_bgp_as = [];
  iosxe_ssh_host = [];
  iosxe_ssh_user = [];
  iosxe_ssh_key_file = [];
  iosxe_known_hosts_file = [];
  iosxe_vrf_leak_route_map = [];
  iosxe_ssh_port = pos 0;
  iosxe_ssh_timeout = pos 0;
  iosxe_route_map_seq = pos 0;
  iosxe_route_map_deny_seq = pos 0;
  iosxe_vrf_leak_route_map_seq = pos 0;
  iosxe_static_tag = pos 0;
  iosxe_apply_max_prefixes = pos 100;
  iosxe_save_config = false;
  iosxe_replace_prefix_list = false;
  refresh_interval = pos 0;
}
