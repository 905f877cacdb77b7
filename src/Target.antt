-- ===== src/Target.antt =====
-- target.go: what the IOS XE and file targets render, the guards on a push, and `runTarget`.
pub mod Mask
pub mod Run
pub mod Guards
pub mod Output
use georoute.Base.{
  ℕ, zero, suc, ◌+◌, ◌-◌, ◌*◌, ◌/◌, ◌%◌, ◌^◌, Bool, true, false, not, ◌&&◌, ◌||◌, Option, none,
  some, List, [], ◌∷◌, ◌++◌, ◌==◌, leb, ltb, if◌then◌else◌, length, ℤ, pos, negsuc, is_positive,
  map,
}
use georoute.Netip.{Bytes, Addr, Prefix, masked}
use georoute.Netip.Format.{addr_string, prefix_string}
use georoute.Text.{bytes, bytes_eq, trim_newlines, join, decimal}
use georoute.Errors.{
  Error, Result, ok, err, sentinel, detail, wrap, unsupported_target, unsupported_target_mode,
  apply_prefix_limit, iosxe_apply_config, ◌>>◌,
}
use georoute.Flags.{CliFlags}

-- `if seq <= 0 { seq = d }`
abbrev positive_or : ℤ → ℕ → ℕ
positive_or (pos n) d = if n == 0 then d else n
positive_or (negsuc n) d = d

-- One line of `renderIOSXEPrefixList` for the i-th prefix.
abbrev permit_line : Bytes → ℕ → Prefix → Bytes
permit_line name seq p =
    bytes "ip prefix-list "
    ++ (name
        ++ (bytes " seq "
            ++ (decimal seq ++ (bytes " permit " ++ (prefix_string p ++ (b'\n' ∷ []))))))

unfoldable permit_lines : Bytes → ℕ → ℕ → List Prefix → Bytes
permit_lines name step i [] = []
permit_lines name step i (p ∷ l) =
    permit_line name ((i + 1) * step) p ++ permit_lines name step (i + 1) l

abbrev iosxe_deny_tail_seq : ℕ
iosxe_deny_tail_seq = 999999

unfoldable render_iosxe_prefix_list : Bytes → List Prefix → ℤ → Bytes
unfolding permit_lines
render_iosxe_prefix_list name [] step = []
render_iosxe_prefix_list name (p ∷ l) step = trim_newlines (
    permit_lines name (positive_or step 10) 0 (p ∷ l)
    ++ (bytes "ip prefix-list "
        ++ (name
            ++ (bytes " seq "
                ++ (decimal iosxe_deny_tail_seq ++ bytes " deny 0.0.0.0/0 le 32\n")))))

abbrev pub is_empty : Bytes → Bool
is_empty [] = true
is_empty (_ ∷ _) = false

abbrev permit_head : Bytes → Bytes → ℕ → Bytes
permit_head name prefix_list seq =
    bytes "route-map "
    ++ (name
        ++ (bytes " permit "
            ++ (decimal seq ++ (bytes "\n match ip address prefix-list " ++ prefix_list))))

unfoldable render_iosxe_route_map : Bytes → Bytes → ℤ → ℤ → Bytes
render_iosxe_route_map name prefix_list permit_seq deny_seq =
    if is_empty name || is_empty prefix_list
    then []
    else permit_head name prefix_list (positive_or permit_seq 10)
      ++ (bytes "\nroute-map " ++ (name ++ (bytes " deny " ++ decimal (positive_or deny_seq 9999))))

unfoldable render_iosxe_route_map_permit : Bytes → Bytes → ℤ → Bytes
render_iosxe_route_map_permit name prefix_list permit_seq =
    if is_empty name || is_empty prefix_list
    then []
    else permit_head name prefix_list (positive_or permit_seq 20)

-- The uint32 shift and the four bytes that are printed.
abbrev mask_number : ℕ → ℕ
mask_number bits = (4294967295 * 2 ^ (32 - bits)) % 2 ^ 32

unfoldable pub ipv4_mask_octets : ℕ → List ℕ
ipv4_mask_octets bits =
    if bits == 0
    then 0 ∷ 0 ∷ 0 ∷ 0 ∷ []
    else if leb 32 bits
    then 255 ∷ 255 ∷ 255 ∷ 255 ∷ []
    else mask_number bits / 2 ^ 24 % 256
      ∷ mask_number bits / 2 ^ 16 % 256
      ∷ mask_number bits / 2 ^ 8 % 256
      ∷ mask_number bits % 256
      ∷ []

unfoldable ipv4_mask_dotted : ℕ → Bytes
unfolding ipv4_mask_octets
ipv4_mask_dotted bits = join (map decimal (ipv4_mask_octets bits)) (bytes ".")

abbrev tag_part : ℤ → Bytes
tag_part (pos n) = if n == 0 then [] else bytes " tag " ++ decimal n
tag_part (negsuc n) = []

abbrev name_part : Bytes → Bytes
name_part [] = []
name_part (c ∷ s) = bytes " name " ++ c ∷ s

unfoldable static_lines : List Prefix → Bytes → Bytes → ℤ → Bytes
unfolding ipv4_mask_dotted
static_lines [] next_hop route_name tag = []
static_lines (p ∷ l) next_hop route_name tag =
    let rest = static_lines l next_hop route_name tag in
    if (masked p).addr.is4
    then bytes "ip route "
      ++ (addr_string (masked p).addr
          ++ (bytes " "
              ++ (ipv4_mask_dotted p.bits
                  ++ (bytes " "
                      ++ (next_hop
                          ++ (tag_part tag ++ (name_part route_name ++ (b'\n' ∷ rest))))))))
    else rest

unfoldable render_iosxe_static_routes : List Prefix → Bytes → Bytes → ℤ → Bytes
unfolding static_lines
render_iosxe_static_routes l next_hop route_name tag =
    if is_empty next_hop then [] else trim_newlines (static_lines l next_hop route_name tag)

unfoldable render_iosxe_bgp_redistribute_static : Bytes → Bytes → Bytes
render_iosxe_bgp_redistribute_static asn route_map =
    if is_empty asn || is_empty route_map
    then []
    else bytes "router bgp "
      ++ (asn
          ++ (bytes "\n address-family ipv4\n  redistribute static route-map "
              ++ (route_map ++ bytes "\n exit-address-family")))

abbrev present : List Bytes → List Bytes
present [] = []
present ([] ∷ l) = present l
present ((c ∷ s) ∷ l) = (c ∷ s) ∷ present l

-- The static route map is left out where nothing refers to it.
abbrev static_route_map : CliFlags → Bytes
static_route_map f =
    if not (is_empty f.iosxe_static_next_hop) || not (is_empty f.iosxe_bgp_as)
    then f.iosxe_static_route_map
    else []

unfoldable iosxe_parts : CliFlags → List Prefix → List Bytes
unfolding render_iosxe_prefix_list render_iosxe_static_routes render_iosxe_route_map
    render_iosxe_route_map_permit render_iosxe_bgp_redistribute_static
iosxe_parts f l =
    render_iosxe_prefix_list f.iosxe_prefix_list l (pos 10)
    ∷ render_iosxe_static_routes l f.iosxe_static_next_hop f.iosxe_static_route_name
        f.iosxe_static_tag
    ∷ render_iosxe_route_map (static_route_map f) f.iosxe_prefix_list (pos 10)
        f.iosxe_route_map_deny_seq
    ∷ render_iosxe_route_map_permit f.iosxe_vrf_leak_route_map f.iosxe_prefix_list
        f.iosxe_vrf_leak_route_map_seq
    ∷ render_iosxe_route_map f.iosxe_route_map f.iosxe_prefix_list f.iosxe_route_map_seq
        f.iosxe_route_map_deny_seq
    ∷ render_iosxe_bgp_redistribute_static f.iosxe_bgp_as (static_route_map f)
    ∷ []

unfoldable pub render_iosxe_candidate : CliFlags → List Prefix → Bytes
unfolding iosxe_parts
render_iosxe_candidate f l =
    if f.iosxe_replace_prefix_list && not (is_empty f.iosxe_prefix_list)
    then join (present ((bytes "no ip prefix-list " ++ f.iosxe_prefix_list) ∷ iosxe_parts f l))
        (bytes "\n")
    else join (present (iosxe_parts f l)) (bytes "\n")

unfoldable pub render_prefix_lines : List Prefix → Bytes
render_prefix_lines l = join (map prefix_string l) (bytes "\n")

unfoldable pub validate_frr_target_mode : Bytes → Result (Unit {0})
unfolding bytes_eq
validate_frr_target_mode mode =
    if bytes_eq mode (bytes "apply")
    then ok tt
    else err (detail (sentinel unsupported_target_mode) mode)

abbrev pub required : Bytes → Bytes → Result (Unit {0})
required [] flag = err (detail (sentinel iosxe_apply_config) (flag ++ bytes " is required"))
required (_ ∷ _) flag = ok tt

abbrev pub prefix_limit : ℤ → ℕ → Result (Unit {0})
prefix_limit (negsuc m) count = ok tt
prefix_limit (pos m) count =
    if ltb 0 m && ltb m count
    then err (
        detail (sentinel apply_prefix_limit)
          (bytes "prefixes=" ++ (decimal count ++ (bytes " max=" ++ decimal m))))
    else ok tt

unfoldable pub validate_iosxe_apply_guard : CliFlags → ℕ → Result (Unit {0})
validate_iosxe_apply_guard f count =
    if bytes_eq f.target_mode (bytes "apply")
    then (do
      prefix_limit f.iosxe_apply_max_prefixes count
      required f.iosxe_ssh_host (bytes "--iosxe-ssh-host")
      required f.iosxe_ssh_user (bytes "--iosxe-ssh-user")
      required f.iosxe_ssh_key_file (bytes "--iosxe-ssh-key-file")
      required f.iosxe_known_hosts_file (bytes "--iosxe-known-hosts-file"))
    else err (detail (sentinel unsupported_target_mode) f.target)
