-- ===== src/Netip/Rank.antt =====
-- One number line for both families: IPv4 below IPv6, as `Addr.Compare` orders them.
use georoute.Base.{ℕ, ◌+◌, ◌^◌, ◌≡◌, Bool, List, ◌&&◌, ltb, leb, any, compare, if◌then◌else◌, arith}
use georoute.Netip.{Addr, Prefix, block, compare_addr, compare_bytes, IsAddr}

abbrev pub rank : Addr → ℕ
rank a = if a.is4 then a.num else 2 ^ 32 + a.num

-- The ranks of a prefix: `first p` up to, and without, `lim p`.
abbrev pub first : Prefix → ℕ
first p = rank p.addr

abbrev pub size : Prefix → ℕ
size p = block p.addr.is4 p.bits

abbrev pub lim : Prefix → ℕ
lim p = first p + size p

abbrev pub within : Prefix → ℕ → Bool
within p r = leb (first p) r && ltb r (lim p)

-- The address at a rank lies in one of the prefixes.
abbrev pub spans : List Prefix → ℕ → Bool
spans l r = any (λ p. within p r) l

-- On zone-free addresses `Addr.Compare` is the order of the ranks.
pub compare_addr-rank :
    (a b : Addr) → IsAddr a → IsAddr b → compare_addr a b ≡ compare (rank a) (rank b)
unfolding compare_addr compare_bytes
compare_addr-rank a b ha hb = ground arith
