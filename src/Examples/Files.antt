-- ===== src/Examples/Files.antt =====
-- A list that target.go's writeTargetOutput writes and extras.go's loadExtras reads, and a run that
-- writes one.
use georoute.Base.{arith, ◌≡◌, ◌≤◌, true, false, none, refl, List, [], ◌∷◌, ◌++◌, All, length}
use georoute.Netip.{Prefix}
use georoute.Netip.Format.{prefix_string, addr_string}
use georoute.Text.{bytes, bytes_eq, join, decimal}
use georoute.Errors.{ok}
use georoute.System.{
  World, named, or_else, create_temp, write_file, close, chmod, rename, set_file, atomic_write,
}
use georoute.Target.{render_prefix_lines}
use georoute.Target.Run.{write_target_output}
use georoute.Feeds.Load.{load_extras, extras_max_file_bytes}
use georoute.Feeds.RoundTrip.{Ipv4}
use georoute.Feeds.Written.{load_extras-write_target_output}
use georoute.Flags.{CliFlags}
use georoute.System.Hoare.{Post}
use georoute.Run.{run}
use georoute.Run.Specification.{RanTo}
use georoute.Run.Rendering.{Rendered, run-Rendered}
use georoute.Examples.{net}
use georoute.Examples.Configs.{router}
use georoute.Examples.Process.{by_status, feed, no_push}
use georoute.Examples.Effects.{env, world}

-- Two masked prefixes, the longer one first.
abbrev listed : List Prefix
listed = net 0x0a000100 24 ∷ net 0x0a000000 8 ∷ []

listed-Ipv4 : All Ipv4 listed
listed-Ipv4 = (
  record {
    family = refl;
    masks = record {
      in_range = omega arith;
      valid = record { fits = omega arith; zone_free = refl };
      cleared = refl;
    };
  },
  (
    record {
      family = refl;
      masks = record {
        in_range = omega arith;
        valid = record { fits = omega arith; zone_free = refl };
        cleared = refl;
      };
    },
    tt,
  ),
)

abbrev saved : World
saved = (write_target_output (bytes "x") (render_prefix_lines listed) env world).0

-- Every call works, and the list is written.
is_saved : write_target_output (bytes "x") (render_prefix_lines listed) env world ≡ (saved, ok tt)
unfolding write_target_output atomic_write or_else create_temp write_file close chmod rename
    set_file
is_saved = refl

no_stdout : bytes_eq (bytes "x") (bytes "-") ≡ false
unfolding bytes_eq
no_stdout = refl

small : length (render_prefix_lines listed ++ bytes "\n") ≤ extras_max_file_bytes
unfolding render_prefix_lines prefix_string addr_string join decimal
small = omega arith

load_extras-write_target_output_example : (load_extras (bytes "x") 4 env saved).1 ≡ ok listed
load_extras-write_target_output_example =
    load_extras-write_target_output b'x' [] listed env world saved listed-Ipv4 no_stdout is_saved
      small refl refl refl

-- The file target, in render mode.
abbrev filing : CliFlags
filing = record router {
  target = bytes "file";
  target_mode = bytes "render";
  target_output = bytes "x";
}

no_frr : bytes_eq filing.target (bytes "frr") ≡ false
unfolding bytes_eq
no_frr = refl

is_render : bytes_eq filing.target_mode (bytes "render") ≡ true
unfolding bytes_eq
is_render = refl

run-Rendered_example :
    Post
      (λ _.
        RanTo
          (Rendered filing world.running)
          by_status
          env
          filing
          (ok feed)
          (λ q. world.files (named q))
          world.running
          world.clock
          true)
      (λ _.
        RanTo
          (Rendered filing world.running)
          by_status
          env
          filing
          (ok feed)
          (λ q. world.files (named q))
          world.running
          world.clock
          false)
      (run by_status none no_push filing none (ok feed) env world)
run-Rendered_example =
    run-Rendered by_status none no_push env world filing none (ok feed) no_frr is_render
