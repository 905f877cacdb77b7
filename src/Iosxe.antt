-- ===== src/Iosxe.antt =====
-- iosxe_ssh.go: the script that is sent, the check of what the router answers, and the apply.
pub mod Laws
pub mod Session
pub mod Trust
use georoute.Base.{
  ℕ, Bool, true, false, not, ◌||◌, List, [], ◌∷◌, ◌++◌, if◌then◌else◌, leb, length, take,
}
use georoute.Netip.{Bytes}
use georoute.Text.{bytes, contains_str, join, split_byte, trim_space}
use georoute.Errors.{
  Error, Result, ok, err, sentinel, detail, iosxe_apply_rejected, iosxe_postcheck_failed,
  iosxe_save_rejected,
}
use georoute.System.{Sys, ◌>>=◌, ◌>>◌, pure, throw, or_else}
use georoute.Flags.{CliFlags}
use georoute.Target.{is_empty}
use georoute.Fetch.Response.{limit_error_body}

-- `if s != "" { list = append(list, item) }`, in front of the rest.
abbrev pub where_set : Bytes → Bytes → List Bytes → List Bytes
where_set [] item rest = rest
where_set (_ ∷ _) item rest = item ∷ rest

-- The commands behind the candidate's lines.
unfoldable closing_commands : CliFlags → List Bytes
closing_commands f =
    bytes "end"
    ∷ (bytes "show ip prefix-list " ++ f.iosxe_prefix_list)
    ∷ (bytes "show route-map " ++ f.iosxe_route_map)
    ∷ where_set f.iosxe_vrf_leak_route_map (bytes "show route-map " ++ f.iosxe_vrf_leak_route_map) (
        where_set f.iosxe_static_route_map (bytes "show route-map " ++ f.iosxe_static_route_map) (
          where_set f.iosxe_bgp_as (bytes "show running-config | section ^router bgp")
            (bytes "exit" ∷ [])))

unfoldable pub build_iosxe_apply_script : CliFlags → Bytes → Bytes
unfolding closing_commands
build_iosxe_apply_script f candidate =
    join
      (bytes "terminal length 0"
        ∷ bytes "configure terminal"
        ∷ (split_byte b'\n' (trim_space candidate) ++ closing_commands f))
      (bytes "\n")
    ++ bytes "\n"

unfoldable pub trim_command_output : Bytes → Bytes
trim_command_output out =
    let trimmed = trim_space out in
    if leb (length trimmed) limit_error_body then trimmed else take limit_error_body trimmed

-- The loop over the rejections.
unfoldable pub check_rejections : List Bytes → Bytes → Result (Unit {0})
check_rejections [] out = ok tt
check_rejections (marker ∷ l) out =
    let rest = check_rejections l out in
    if contains_str out marker
    then err (
        detail (sentinel iosxe_apply_rejected)
          (bytes "marker=" ++ (marker ++ (bytes " output=" ++ trim_command_output out))))
    else rest

-- The loop over what must be there.
unfoldable pub check_required : List Bytes → Bytes → Result (Unit {0})
check_required [] out = ok tt
check_required (marker ∷ l) out =
    let rest = check_required l out in
    if contains_str out marker
    then rest
    else err (
        detail (sentinel iosxe_postcheck_failed)
          (bytes "missing " ++ (marker ++ (bytes " in output=" ++ trim_command_output out))))

abbrev pub rejections : List Bytes
rejections = bytes "% Invalid" ∷ bytes "% Ambiguous" ∷ bytes "% Incomplete" ∷ bytes "Failed" ∷ []

unfoldable pub required_markers : CliFlags → List Bytes
required_markers f =
    f.iosxe_prefix_list
    ∷ f.iosxe_route_map
    ∷ where_set f.iosxe_vrf_leak_route_map f.iosxe_vrf_leak_route_map (
        where_set f.iosxe_static_route_map f.iosxe_static_route_map
          (where_set f.iosxe_bgp_as (bytes "redistribute static route-map") []))

abbrev pub and_required : Result (Unit {0}) → List Bytes → Bytes → Result (Unit {0})
and_required (ok _) l out = check_required l out
and_required (err e) l out = err e

unfoldable pub verify_iosxe_apply_output : CliFlags → Bytes → Result (Unit {0})
verify_iosxe_apply_output f out =
    and_required (check_rejections rejections out) (required_markers f) out

abbrev save_script : Bytes
save_script = bytes "terminal length 0\nwrite memory\nexit\n"

-- What follows the save.
unfoldable pub check_saved : Bytes → Sys (Unit {0})
check_saved out =
    if contains_str out (bytes "% Invalid") || contains_str out (bytes "% Ambiguous")
    then throw (detail (sentinel iosxe_save_rejected) (trim_command_output out))
    else pure tt

-- The running of a script over SSH (`runIOSXESSHScript`) is a parameter.
module _ (ssh : CliFlags → Bytes → Sys Bytes) where
  unfoldable pub save : CliFlags → Sys (Unit {0})
  save f = do out ← or_else (ssh f save_script) (bytes "iosxe ssh save") (pure tt); check_saved out

  abbrev pub verified : CliFlags → Result (Unit {0}) → Sys (Unit {0})
  verified f (ok _) = if f.iosxe_save_config then save f else pure tt
  verified f (err e) = throw e

  unfoldable pub apply_iosxe_over_ssh : CliFlags → Bytes → Sys (Unit {0})
  apply_iosxe_over_ssh f candidate = do
    out ← or_else (ssh f (build_iosxe_apply_script f candidate)) (bytes "iosxe ssh apply") (pure tt)
    verified f (verify_iosxe_apply_output f out)
