-- ===== src/Feeds/Loaded.antt =====
-- extras.go's `loadExtras`: the family and the masks of what it gives.
use mathlib.Core.Path.{subst}
use georoute.Base.{ℕ, ◌≡◌, sym, Option, none, some, List, [], ◌∷◌, All}
use georoute.Netip.{Bytes, Prefix, IsMasked}
use georoute.Errors.{Error, ok}
use georoute.Feeds.Load.{scan_file, scan_lines, scanned}
use georoute.Feeds.Loading.{Extras}
use georoute.Feeds.Extras.{Accepted, scan_extras-Accepted}

scanned-Accepted :
    (family : ℕ) (x : List Bytes × Option Error) {l : List Prefix}
    → scanned family x none ≡ ok l
    → All (Accepted family) l
scanned-Accepted family (lines, none) e = scan_extras-Accepted family 0 lines none e
scanned-Accepted family (lines, some d) e = scan_extras-Accepted family 0 lines (some d) e

-- The extras of a file, or of none, were accepted as prefixes of the family.
pub Extras-Accepted :
    (g : Bytes → Option Bytes) (path : Bytes) (family : ℕ) (l : List Prefix)
    → Extras g path family l
    → All (Accepted family) l
unfolding scan_file
Extras-Accepted g [] family l e = subst (All (Accepted family)) (sym e) tt
Extras-Accepted g (c ∷ path) family l (text, at, e) = scanned-Accepted family (scan_lines text []) e

pub masks_of : (family : ℕ) (l : List Prefix) → All (Accepted family) l → All IsMasked l
masks_of family [] h = tt
masks_of family (p ∷ l) h = (h.0.masks, masks_of family l h.1)
