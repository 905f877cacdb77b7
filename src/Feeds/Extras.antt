-- ===== src/Feeds/Extras.antt =====
-- extras.go: the lines of an extras file, and the prefixes that `loadExtras` makes of them.
use mathlib.Core.Path.{subst}
use georoute.Base.{
  ℕ, ◌+◌, ◌≡◌, refl, Bool, true, false, Option, none, some, List, [], ◌∷◌, All, All-append,
  if◌then◌else◌, ◌⊎◌, inl, inr, Bool-cases,
}
use georoute.Netip.{Bytes, Prefix, IsMasked, masked, is_nil}
use georoute.Netip.Parse.{parse_prefix}
use georoute.Aggregate.Merging.{masked-IsMasked}
use georoute.Text.{trim_space}
use georoute.Errors.{Error, Result, ok, err, is, too_long}
use georoute.Feeds.{
  extras_line, scan_extras, scan_end, then_rest, matches_family, without_comment, without_bom,
}
use georoute.Feeds.Valid.{Valid, parse_prefix-Valid}

-- A masked prefix that was accepted as one of the family.
pub record Accepted (family : ℕ) (q : Prefix) : Type 0 where
  pub masks : IsMasked q
  pub given : Prefix
  pub cleared : q ≡ masked given
  pub of_family : matches_family given family ≡ true

abbrev Holds : ℕ → Result (List Prefix) → Type 0
Holds family (ok l) = All (Accepted family) l
Holds family (err e) = Unit {0}

if-Holds :
    (family : ℕ) (b : Bool) (x y : Result (List Prefix))
    → (b ≡ true → Holds family x)
    → Holds family y
    → Holds family (if b then x else y)
if-Holds family true x y h k = h refl
if-Holds family false x y h k = k

parsed-Holds :
    (family : ℕ) (o : Option Prefix) (bad : Error) (other : Prefix → Error)
    → Valid o
    → Holds family (elim o [
      | none ↦ err bad
      | some p ↦ if matches_family p family then ok (masked p ∷ []) else err (other p)
    ])
parsed-Holds family none bad other v = tt
parsed-Holds family (some p) bad other v =
    if-Holds family (matches_family p family) (ok (masked p ∷ [])) (err (other p))
      (λ f. (
        record { masks = masked-IsMasked p v.0 v.1; given = p; cleared = refl; of_family = f },
        tt,
      ))
      tt

extras_line-Holds :
    (family line_no : ℕ) (raw : Bytes) → Holds family (extras_line family line_no raw)
unfolding extras_line
extras_line-Holds family line_no raw =
    let clean = trim_space (without_comment (without_bom line_no raw)) in
    if-Holds family (is_nil clean) (ok []) _ (λ e. tt)
      (parsed-Holds family (parse_prefix clean) _ (λ p. _) (parse_prefix-Valid clean))

end-Holds : (family line_no : ℕ) (end : Option Error) → Holds family (scan_end line_no end)
end-Holds family line_no none = tt
end-Holds family line_no (some e) = if-Holds family (is e too_long) _ _ (λ y. tt) tt

rest-Holds :
    (family : ℕ) (x y : Result (List Prefix))
    → Holds family x
    → Holds family y
    → Holds family (then_rest x y)
rest-Holds family (ok l) (ok m) h k = All-append (Accepted family) l m h k
rest-Holds family (ok l) (err e) h k = tt
rest-Holds family (err e) y h k = tt

scan_lem :
    (family line_no : ℕ) (lines : List Bytes) (end : Option Error)
    → Holds family (scan_extras family line_no lines end)
unfolding scan_extras
scan_lem family line_no [] end = end-Holds family line_no end
scan_lem family line_no (raw ∷ l) end =
    rest-Holds family (extras_line family (line_no + 1) raw)
      (scan_extras family (line_no + 1) l end) (extras_line-Holds family (line_no + 1) raw)
      (scan_lem family (line_no + 1) l end)

-- The prefixes of an accepted list are masked ones of the family.
pub scan_extras-Accepted :
    (family line_no : ℕ) (lines : List Bytes) (end : Option Error) {l : List Prefix}
    → scan_extras family line_no lines end ≡ ok l
    → All (Accepted family) l
scan_extras-Accepted family line_no lines end e =
    subst (λ r. Holds family r) e (scan_lem family line_no lines end)

-- What a line says: its text without a mark, a comment and the space around it.
abbrev pub text_of : ℕ → Bytes → Bytes
text_of line_no raw = trim_space (without_comment (without_bom line_no raw))

-- The lines behind `n` lines say these prefixes: a line says nothing, or it is a prefix of the
-- family, which is masked. There is no other line.
pub data Scanned (family : ℕ) : ℕ → List Bytes → List Prefix → Type 0 where
  no_lines : {n : ℕ} → Scanned family n [] []
  blank :
      {n : ℕ} {raw : Bytes} {lines : List Bytes} {l : List Prefix}
      → text_of (n + 1) raw ≡ []
      → Scanned family (n + 1) lines l
      → Scanned family n (raw ∷ lines) l
  entry :
      {n : ℕ} {raw : Bytes} {lines : List Bytes} {l : List Prefix} (p : Prefix)
      → parse_prefix (text_of (n + 1) raw) ≡ some p
      → matches_family p family ≡ true
      → Scanned family (n + 1) lines l
      → Scanned family n (raw ∷ lines) (masked p ∷ l)

-- What one accepted line says.
abbrev Said : ℕ → ℕ → Bytes → Result (List Prefix) → Type 0
Said family k raw (err e) = Unit {0}
Said family k raw (ok l) =
    ((text_of k raw ≡ []) × (l ≡ []))
    ⊎ ((p : Prefix) × (parse_prefix (text_of k raw) ≡ some p)
        × (matches_family p family ≡ true)
        × (l ≡ masked p ∷ []))

nil_lem : (s : Bytes) → is_nil s ≡ true → s ≡ []
nil_lem [] h = refl
nil_lem (c ∷ s) h = cc h

entry_Said :
    (family k : ℕ) (raw : Bytes) (o : Option Prefix) (bad : Error) (other : Error)
    → parse_prefix (text_of k raw) ≡ o
    → Said family k raw (elim o [
      | none ↦ err bad
      | some p ↦ if matches_family p family then ok (masked p ∷ []) else err other
    ])
entry_Said family k raw none bad other e = tt
entry_Said family k raw (some p) bad other e = elim (Bool-cases (matches_family p family)) [
  | inl y ↦ rw y (inr (p, e, y, refl))
  | inr n ↦ rw n tt
]

line-Said : (family k : ℕ) (raw : Bytes) → Said family k raw (extras_line family k raw)
unfolding extras_line
line-Said family k raw = elim (Bool-cases (is_nil (text_of k raw))) [
  | inl y ↦ rw y (inl (nil_lem (text_of k raw) y, refl))
  | inr n ↦ rw n (entry_Said family k raw (parse_prefix (text_of k raw)) _ _ refl)
]

-- The list is the one that the lines say.
abbrev Scans : ℕ → ℕ → List Bytes → Option Error → Result (List Prefix) → Type 0
Scans family n lines end (err e) = Unit {0}
Scans family n lines end (ok l) = (end ≡ none) × Scanned family n lines l

end-Scans : (family n : ℕ) (end : Option Error) → Scans family n [] end (scan_end n end)
end-Scans family n none = (refl, no_lines)
end-Scans family n (some e) = elim (Bool-cases (is e too_long)) [
  | inl y ↦ rw y tt
  | inr k ↦ rw k tt
]

then-Scans :
    (family n : ℕ) (raw : Bytes) (lines : List Bytes) (end : Option Error)
    (x y : Result (List Prefix))
    → Said family (n + 1) raw x
    → Scans family (n + 1) lines end y
    → Scans family n (raw ∷ lines) end (then_rest x y)
then-Scans family n raw lines end (err e) y h k = tt
then-Scans family n raw lines end (ok l) (err e) h k = tt
then-Scans family n raw lines end (ok l) (ok m) (inl (b, e)) k = (k.0, rw e (blank b k.1))
then-Scans family n raw lines end (ok l) (ok m) (inr (p, e, f, g)) k = (k.0, rw g (entry p e f k.1))

scans_lem :
    (family n : ℕ) (lines : List Bytes) (end : Option Error)
    → Scans family n lines end (scan_extras family n lines end)
unfolding scan_extras
scans_lem family n [] end = end-Scans family n end
scans_lem family n (raw ∷ lines) end =
    then-Scans family n raw lines end (extras_line family (n + 1) raw)
      (scan_extras family (n + 1) lines end) (line-Said family (n + 1) raw)
      (scans_lem family (n + 1) lines end)

-- Where the lines of an extras file give prefixes, the scanner has come to the end of the file, and
-- the prefixes are what the lines say, in their order: each line has nothing but a comment and
-- space, or is the text of a prefix of the family, which is in the list with its host part
-- cleared. A line that is neither is never passed over.
pub scan_extras-Scanned :
    (family line_no : ℕ) (lines : List Bytes) (end : Option Error) {l : List Prefix}
    → scan_extras family line_no lines end ≡ ok l
    → (end ≡ none) × Scanned family line_no lines l
scan_extras-Scanned family line_no lines end e =
    subst (Scans family line_no lines end) e (scans_lem family line_no lines end)
