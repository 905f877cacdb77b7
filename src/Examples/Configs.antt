-- ===== src/Examples/Configs.antt =====
-- Runs of main.go's `splice` and `applyDefaults`, and of target.go's guards.
use georoute.Base.{◌+◌, ◌^◌, ◌≡◌, ◌⊎◌, refl, true, false, none, List, [], ◌∷◌, arith, pos}
use georoute.Netip.{Bytes, Prefix}
use georoute.Text.{bytes, to_upper, to_lower, has_prefix, bytes_eq, contains_str}
use georoute.Errors.{ok}
use georoute.System.{Sys}
use georoute.Frr.{splice, body_text}
use georoute.Frr.Splicing.{document, IsCut, splice-document}
use georoute.Frr.Idempotent.{marker_text, splice_idempotent}
use georoute.Flags.{CliFlags, apply_defaults}
use georoute.Flags.Laws.{Defaulted, apply_defaults-Defaulted}
use georoute.Target.{ipv4_mask_octets, validate_iosxe_apply_guard}
use georoute.Target.Mask.{number_of, ipv4_mask_octets-number}
use georoute.Target.Run.{run_target}
use georoute.Target.Guards.{Ready, Pushes, validate_iosxe_apply_guard-Ready, run_target-push}
use georoute.Fetch.{contains_bytes}
use georoute.Fetch.Contains.{contains_bytes-contains_str}
use georoute.Examples.{net}

-- A config with a short block.
abbrev head : Bytes
head = bytes "r\n"

abbrev begin_line : Bytes
begin_line = bytes "  !B"

abbrev old : Bytes
old = bytes "x\n"

abbrev tail : Bytes
tail = bytes "\nz"

cut : IsCut head begin_line old (marker_text (bytes "E")) tail
unfolding has_prefix
cut = record {
  begin_first = (refl, (refl, tt));
  end_first = (refl, (refl, (refl, (refl, (refl, (refl, (refl, (refl, (refl, tt)))))))));
}

splice-document_example :
    splice
      (document head begin_line old (marker_text (bytes "E")) tail)
      begin_line
      (marker_text (bytes "E"))
      (bytes "y")
    ≡ ok (document head begin_line (body_text (bytes "y")) (marker_text (bytes "E")) tail)
splice-document_example =
    splice-document head begin_line old (marker_text (bytes "E")) tail cut (bytes "y")

splice_idempotent_example :
    (splice
        (document head begin_line old (marker_text (bytes "E")) tail)
        begin_line
        (marker_text (bytes "E"))
        (bytes "y")
      ≡ ok (document head begin_line (body_text (bytes "y")) (marker_text (bytes "E")) tail))
    × (splice
          (document head begin_line (body_text (bytes "y")) (marker_text (bytes "E")) tail)
          begin_line
          (marker_text (bytes "E"))
          (bytes "y")
        ≡ ok (document head begin_line (body_text (bytes "y")) (marker_text (bytes "E")) tail))
splice_idempotent_example =
    splice_idempotent head begin_line old tail (bytes "E") (refl, (refl, (refl, (refl, tt))))
      (refl, (refl, (refl, (refl, tt)))) cut (bytes "y") (refl, tt)

-- A router that everything is given for, and at most a hundred prefixes.
abbrev pub router : CliFlags
router = record {
  frr_conf = bytes "/etc/frr/frr.conf";
  lock_file = [];
  country = bytes "RU";
  route_map = [];
  nft_set_v4 = [];
  nft_set_v6 = [];
  marker_prefix = [];
  feed_url = [];
  extras_v4_file = [];
  extras_v6_file = [];
  cache_file = [];
  http_addr = [];
  last_success_file = [];
  log_format = [];
  log_level = [];
  frr_reload_script = [];
  nft_binary = [];
  target = bytes "iosxe";
  target_mode = bytes "apply";
  target_output = [];
  iosxe_prefix_list = [];
  iosxe_route_map = [];
  iosxe_static_next_hop = [];
  iosxe_static_route_map = [];
  iosxe_static_route_name = [];
  iosxe_bgp_as = [];
  iosxe_ssh_host = bytes "r1";
  iosxe_ssh_user = bytes "geo";
  iosxe_ssh_key_file = bytes "/k";
  iosxe_known_hosts_file = bytes "/h";
  iosxe_vrf_leak_route_map = [];
  cache_max_age = pos 0;
  ready_max_age = pos 0;
  http_timeout = pos 0;
  frr_reload_timeout = pos 0;
  nft_timeout = pos 0;
  iosxe_ssh_timeout = pos 0;
  retry_base_delay = pos 0;
  refresh_interval = pos 0;
  retry_attempts = pos 0;
  iosxe_ssh_port = pos 0;
  iosxe_route_map_seq = pos 0;
  iosxe_route_map_deny_seq = pos 0;
  iosxe_vrf_leak_route_map_seq = pos 0;
  iosxe_static_tag = pos 0;
  iosxe_apply_max_prefixes = pos 100;
  iosxe_save_config = true;
  reload_ok = true;
  dry_run = false;
  force = false;
  update_nft = true;
  iosxe_replace_prefix_list = false;
}

abbrev one_net : List Prefix
one_net = net 0x0a000000 24 ∷ []

apply_defaults-Defaulted_example :
    Defaulted router (apply_defaults router) (to_upper router.country) (to_lower router.country)
apply_defaults-Defaulted_example = apply_defaults-Defaulted router

guard_open : validate_iosxe_apply_guard router 1 ≡ ok tt
unfolding validate_iosxe_apply_guard bytes_eq
guard_open = refl

validate_iosxe_apply_guard-Ready_example : Ready router 1
validate_iosxe_apply_guard-Ready_example = validate_iosxe_apply_guard-Ready router 1 guard_open

run_target-push_example :
    ((candidate : Bytes) × Pushes none router one_net candidate
      × ((push : CliFlags → Bytes → Sys (Unit {0}))
          → run_target none push router one_net ≡ push router candidate))
    ⊎ ((push other : CliFlags → Bytes → Sys (Unit {0}))
        → run_target none push router one_net ≡ run_target none other router one_net)
run_target-push_example = run_target-push none router one_net

ipv4_mask_octets-number_example : number_of (ipv4_mask_octets 24) 0 + 2 ^ 8 ≡ 2 ^ 32
ipv4_mask_octets-number_example = ipv4_mask_octets-number 24 (omega arith)

contains_bytes-contains_str_example :
    contains_bytes (bytes "status=404 body=") (bytes "status=404")
    ≡ contains_str (bytes "status=404 body=") (bytes "status=404")
contains_bytes-contains_str_example =
    contains_bytes-contains_str (bytes "status=404 body=") (bytes "status=404")
