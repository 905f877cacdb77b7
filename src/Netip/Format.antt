-- ===== src/Netip/Format.antt =====
-- `Addr.String` and `Prefix.String` (net/netip), as the renderers of main.go and target.go use them.
use georoute.Base.{
  ℕ, zero, suc, ◌+◌, ◌-◌, ◌*◌, ◌/◌, ◌%◌, ◌^◌, Bool, not, ◌&&◌, List, [], ◌∷◌, ◌++◌, ◌==◌, leb, ltb,
  if◌then◌else◌,
}
use georoute.Netip.{Bytes, Addr, Prefix}
use georoute.Text.{bytes, decimal}

-- Four decimal bytes.
unfoldable pub string4 : ℕ → Bytes
unfolding decimal
string4 n =
    decimal (n / 2 ^ 24 % 256)
    ++ (b'.'
        ∷ (decimal (n / 2 ^ 16 % 256)
            ++ (b'.' ∷ (decimal (n / 2 ^ 8 % 256) ++ (b'.' ∷ decimal (n % 256))))))

abbrev hex_digit : ℕ → ℕ
hex_digit d = if ltb d 10 then 48 + d else 87 + d

-- Lower-case hexadecimal with no leading zeros, of a 16-bit group.
unfoldable hex16 : ℕ → Bytes
hex16 n =
    if ltb n 16
    then hex_digit n ∷ []
    else if ltb n 256
    then hex_digit (n / 16) ∷ hex_digit (n % 16) ∷ []
    else if ltb n 4096
    then hex_digit (n / 256) ∷ hex_digit (n / 16 % 16) ∷ hex_digit (n % 16) ∷ []
    else hex_digit (n / 4096)
      ∷ hex_digit (n / 256 % 16)
      ∷ hex_digit (n / 16 % 16)
      ∷ hex_digit (n % 16)
      ∷ []

-- The last `k` of the eight groups, most significant first.
unfoldable pub groups : ℕ → ℕ → List ℕ
groups zero n = []
groups (suc k) n = n / 2 ^ (16 * k) % 2 ^ 16 ∷ groups k n

-- How many groups in front are zero.
unfoldable pub zeros : List ℕ → ℕ
zeros [] = 0
zeros (g ∷ l) = let rest = zeros l in if g == 0 then suc rest else 0

-- The first longest run of at least two zero groups: its start and its length, so far.
unfoldable best_run : ℕ → List ℕ → ℕ → ℕ → ℕ × ℕ
unfolding zeros
best_run i [] start len = (start, len)
best_run i (g ∷ l) start len =
    let run = zeros (g ∷ l) in
    let better = leb 2 run && ltb len run in
    best_run (i + 1) l (if better then i else start) (if better then run else len)

-- The groups from index `i`, where `skip` more groups of the run are left out.
unfoldable join_groups : ℕ → List ℕ → ℕ → ℕ → ℕ → Bytes
unfolding hex16
join_groups i [] start len skip = []
join_groups i (g ∷ l) start len (suc skip) = join_groups (i + 1) l start len skip
join_groups i (g ∷ l) start len zero =
    let at_run = leb 2 len && i == start in
    let rest = join_groups (i + 1) l start len (if at_run then len - 1 else 0) in
    let behind_run = leb 2 len && i == start + len in
    if at_run
    then b':' ∷ b':' ∷ rest
    else if i == 0
    then hex16 g ++ rest
    else if behind_run
    then hex16 g ++ rest
    else b':' ∷ (hex16 g ++ rest)

unfoldable pub string6 : ℕ → Bytes
unfolding groups best_run join_groups
string6 n = let gs = groups 8 n in let run = best_run 0 gs 0 0 in join_groups 0 gs run.0 run.1 0

-- `Addr.Is4In6`
abbrev pub is4_in6 : Addr → Bool
is4_in6 a = not a.is4 && a.num / 2 ^ 32 == 0xffff

abbrev zone_suffix : Bytes → Bytes
zone_suffix [] = []
zone_suffix (c ∷ z) = b'%' ∷ c ∷ z

unfoldable pub addr_string : Addr → Bytes
unfolding string4 string6
addr_string a =
    if a.is4
    then string4 a.num
    else (if is4_in6 a then bytes "::ffff:" ++ string4 (a.num % 2 ^ 32) else string6 a.num)
      ++ zone_suffix a.zone

unfoldable pub prefix_string : Prefix → Bytes
unfolding addr_string decimal
prefix_string p = addr_string p.addr ++ (b'/' ∷ decimal p.bits)
