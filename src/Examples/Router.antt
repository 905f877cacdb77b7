-- ===== src/Examples/Router.antt =====
-- Runs of main.go's pipeline and of iosxe_ssh.go.
use georoute.Base.{none, ◌≤◌, ◌≡◌, ◌↔◌, refl, true, [], ◌∷◌, length}
use georoute.Netip.{Bytes}
use georoute.Text.{bytes, bytes_eq}
use georoute.Errors.{ok}
use georoute.System.{named, Sys, pure}
use georoute.System.Hoare.{Post}
use georoute.Flags.{CliFlags}
use georoute.Pipeline.{deploy}
use georoute.Pipeline.Specification.{Deployed, Updated}
use georoute.Pipeline.Laws.{deploy-Deployed}
use georoute.Iosxe.{verify_iosxe_apply_output, trim_command_output, apply_iosxe_over_ssh}
use georoute.Iosxe.Laws.{
  Applied, Accepted, verify_iosxe_apply_output_iff, trim_command_output-bound,
  apply_iosxe_over_ssh-Accepted,
}
use georoute.Iosxe.Session.{Ssh, run_iosxe_ssh_script}
use georoute.Iosxe.Trust.{Trusted, run_iosxe_ssh_script-Trusted}
use georoute.Examples.{net}
use georoute.Examples.Configs.{router}
use georoute.Examples.Effects.{env, world}

abbrev frr_flags : CliFlags
frr_flags = record router { target = bytes "frr" }

abbrev no_push : CliFlags → Bytes → Sys (Unit {0})
no_push f text = pure tt

is_frr : bytes_eq frr_flags.target (bytes "frr") ≡ true
unfolding bytes_eq
is_frr = refl

deploy-Deployed_example :
    Post
      (λ _ v.
        Deployed frr_flags (net 0x0a000000 24 ∷ []) [] (λ q. world.files (named q)) world.running v
        × Updated frr_flags (net 0x0a000000 24 ∷ []) [] (λ q. world.files (named q)) v)
      (λ _.
        Deployed frr_flags (net 0x0a000000 24 ∷ []) [] (λ q. world.files (named q)) world.running)
      (deploy none no_push frr_flags none (net 0x0a000000 24 ∷ []) [] env world)
deploy-Deployed_example =
    deploy-Deployed env world none no_push frr_flags none (net 0x0a000000 24 ∷ []) [] is_frr

-- The router's answer, with the prefix list and the route map.
abbrev answer : Bytes
answer = bytes "ip prefix-list PL: 1 entries\nroute-map RM, permit\n"

abbrev named_flags : CliFlags
named_flags = record router { iosxe_prefix_list = bytes "PL"; iosxe_route_map = bytes "RM" }

verify_iosxe_apply_output_iff_example :
    (verify_iosxe_apply_output named_flags answer ≡ ok tt) ↔ Applied named_flags answer
verify_iosxe_apply_output_iff_example = verify_iosxe_apply_output_iff named_flags answer

trim_command_output-bound_example : length (trim_command_output answer) ≤ 4096
trim_command_output-bound_example = trim_command_output-bound answer

abbrev session : CliFlags → Bytes → Sys Bytes
session f script = pure answer

apply_iosxe_over_ssh-Accepted_example :
    Post
      (λ _ _. Accepted session env world named_flags (bytes "x"))
      (λ _ _. Unit {0})
      (apply_iosxe_over_ssh session named_flags (bytes "x") env world)
apply_iosxe_over_ssh-Accepted_example =
    apply_iosxe_over_ssh-Accepted session env world named_flags (bytes "x")

-- A library that accepts everything, and a router that answers.
abbrev open_door : Ssh (Unit {0}) (Unit {0}) (Unit {0}) (Unit {0}) (Unit {0})
open_door = record {
  parse_private_key = λ key. ok tt;
  known_hosts = λ path. pure tt;
  dial = λ timeout addr. pure tt;
  new_client_conn = λ conn addr config. pure tt;
  close_conn = λ conn. pure tt;
  close_client = λ client. pure tt;
  new_session = λ client. pure tt;
  request_pty = λ session term rows columns. pure tt;
  stdin_pipe = λ session. pure tt;
  shell = λ session. pure tt;
  write_string = λ session text. pure tt;
  close_stdin = λ session. pure tt;
  wait = λ session. pure tt;
  expired = λ session. pure none;
  output = λ session. pure answer;
  close_session = λ session. pure tt;
}

run_iosxe_ssh_script-Trusted_example :
    Post
      (λ out _. Trusted open_door env named_flags world (bytes "x") out)
      (λ _ _. Unit {0})
      (run_iosxe_ssh_script open_door named_flags (bytes "x") env world)
run_iosxe_ssh_script-Trusted_example =
    run_iosxe_ssh_script-Trusted open_door env named_flags world (bytes "x")
