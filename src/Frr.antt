-- ===== src/Frr.antt =====
-- main.go: what goes into frr.conf (`markers`, `renderNetworks`, `splice`).
pub mod Splicing
pub mod Idempotent
use georoute.Base.{
  ℕ, suc, ◌+◌, ◌-◌, Bool, true, false, not, ◌&&◌, Option, none, some, List, [], ◌∷◌, ◌++◌, ◌==◌,
  leb, ltb, if◌then◌else◌, length, take, drop, get_elem?,
}
use georoute.Netip.{Bytes, Prefix, is_nil}
use georoute.Netip.Format.{prefix_string}
use georoute.Text.{bytes, index, trim_newlines}
use georoute.Errors.{Error, Result, ok, err, sentinel, detail, begin_missing, end_missing}

-- `cliFlags.markers`, in its order.
pub record Markers : Type 0 where
  pub begin_v4 : Bytes
  pub end_v4 : Bytes
  pub begin_v6 : Bytes
  pub end_v6 : Bytes

unfoldable pub markers : Bytes → Markers
markers prefix = record {
  begin_v4 = bytes "  ! BEGIN-" ++ (prefix ++ bytes "-V4");
  end_v4 = bytes "  ! END-" ++ (prefix ++ bytes "-V4");
  begin_v6 = bytes "  ! BEGIN-" ++ (prefix ++ bytes "-V6");
  end_v6 = bytes "  ! END-" ++ (prefix ++ bytes "-V6");
}

-- The lines of `renderNetworks` before the final trim.
unfoldable network_lines : List Prefix → Bytes → Bytes
network_lines [] route_map = []
network_lines (p ∷ l) route_map =
    bytes "  network "
    ++ (prefix_string p
        ++ (bytes " route-map " ++ (route_map ++ (b'\n' ∷ network_lines l route_map))))

unfoldable pub render_networks : List Prefix → Bytes → Bytes
unfolding network_lines
render_networks [] route_map = []
render_networks (p ∷ l) route_map = trim_newlines (network_lines (p ∷ l) route_map)

-- `bodyText`
unfoldable pub body_text : Bytes → Bytes
body_text [] = []
body_text (c ∷ s) = c ∷ s ++ b'\n' ∷ []

-- The position behind the begin marker and a newline that follows it.
unfoldable pub after_begin : Bytes → ℕ → Bytes → ℕ
after_begin cfg at marker =
    let after = at + length marker in
    elim (get_elem? cfg after) [ none ↦ after | some c ↦ if c == b'\n' then after + 1 else after ]

unfoldable pub splice : Bytes → Bytes → Bytes → Bytes → Result Bytes
splice cfg begin_marker end_marker body = elim (index cfg begin_marker) [
  | none ↦ err (detail (sentinel begin_missing) begin_marker)
  | some at ↦ elim (index cfg end_marker) [
    | none ↦ err (detail (sentinel end_missing) end_marker)
    | some stop ↦
        if ltb stop at
        then err (detail (sentinel end_missing) end_marker)
        else ok (take (after_begin cfg at begin_marker) cfg ++ (body_text body ++ drop stop cfg))
  ]
]
