-- ===== src/Ranges.antt =====
-- main.go: `rangeToCIDR`, the prefixes that make up an inclusive range of addresses.
pub mod Mask
pub mod First
pub mod Laws
use mathlib.Core.Option
use georoute.Base.{
  ℕ, zero, suc, ◌+◌, ◌-◌, ◌^◌, Bool, true, false, not, ◌||◌, Option, none, some, List, [], ◌∷◌,
  same, if◌then◌else◌, arith,
}
use georoute.Netip.{
  Addr, Prefix, width, compare_addr, is_gt, addr_eq, prefix_from, masked, last_addr, next_addr,
}

-- The inner loop: the shortest mask, down from `mask`, whose block starts at `start` and ends by
-- `end_addr`, found by shortening while that holds.
unfoldable pub find_mask : Addr → Addr → ℕ → ℕ
find_mask start end_addr zero = zero
find_mask start end_addr (suc try_mask) =
    let p = masked (prefix_from start try_mask) in
    let rest = find_mask start end_addr try_mask in
    if not (addr_eq p.addr start)
    then suc try_mask
    else if is_gt (compare_addr (last_addr p) end_addr)
    then suc try_mask
    else rest

-- The first prefix of a range.
unfoldable pub first_block : Addr → Addr → Prefix
first_block start end_addr = masked (prefix_from start (find_mask start end_addr (width start.is4)))

-- The outer loop on fuel: `none` means that the fuel ran out.
unfoldable pub range_loop : ℕ → Addr → Addr → Option (List Prefix)
range_loop zero start end_addr = none
range_loop (suc fuel) start end_addr = elim (is_gt (compare_addr start end_addr)) [
  | true ↦ some []
  | false ↦
      let p = first_block start end_addr in
      elim (next_addr (last_addr p)) [
        | none ↦ some (p ∷ [])
        | some next ↦ Option.map (λ l. p ∷ l) (range_loop fuel next end_addr)
      ]
]

-- The addresses from here to the end of the family: each round of the outer loop lowers it.
abbrev pub room : Addr → ℕ
room a = 2 ^ width a.is4 - a.num

unfoldable pub range_to_cidr : Addr → Addr → List Prefix
unfolding range_loop first_block find_mask masked addr_eq last_addr next_addr compare_addr
range_to_cidr start end_addr =
    if not (same start.is4 end_addr.is4) || is_gt (compare_addr start end_addr)
    then []
    else Option.get_or (range_loop (room start) start end_addr) []
