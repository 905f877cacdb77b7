-- ===== src/Frr/Idempotent.antt =====
-- main.go's `splice`, done twice with one body.
use native.Mathlib.Nat.{zero-add, suc-add}
use georoute.Base.{
  ℕ, zero, suc, ◌+◌, ◌≤◌, ◌≡◌, refl, sym, ◌∙◌, false, [], ◌∷◌, ◌++◌, ◌==◌, length, append_assoc,
  length-append, All, arith,
}
use georoute.Netip.{Bytes}
use georoute.Text.{has_prefix}
use georoute.Text.Search.{Absent}
use georoute.Errors.{ok}
use georoute.Frr.{body_text, splice}
use georoute.Frr.Splicing.{document, IsCut, splice-document}

-- The byte does not occur.
abbrev Lacks : ℕ → Bytes → Type 0
Lacks c = All (λ x. (x == c) ≡ false)

-- Behind a newline the text does not matter to a needle without one.
has_prefix_line :
    (a x y sub : Bytes)
    → Lacks b'\n' sub
    → has_prefix (a ++ b'\n' ∷ x) sub ≡ has_prefix (a ++ b'\n' ∷ y) sub
unfolding has_prefix
has_prefix_line a x y [] h = refl
has_prefix_line [] x y (c ∷ sub) h = ground arith
has_prefix_line (d ∷ a) x y (c ∷ sub) h = ground (arith, has_prefix_line a x y sub h.1)

Absent-line :
    (a x y sub : Bytes) (n : ℕ)
    → Lacks b'\n' sub
    → n ≤ length a
    → Absent (a ++ b'\n' ∷ x) sub n
    → Absent (a ++ b'\n' ∷ y) sub n
Absent-line a x y sub zero h k g = tt
Absent-line [] x y sub (suc n) h k g = absurd (omega arith)
Absent-line (d ∷ a) x y sub (suc n) h k g =
    (sym (has_prefix_line (d ∷ a) x y sub h) ∙ g.0, Absent-line a x y sub n h (omega arith) g.1)

Absent-append :
    (s t sub : Bytes) (n : ℕ)
    → Absent (s ++ t) sub (length s)
    → Absent t sub n
    → Absent (s ++ t) sub (length s + n)
Absent-append [] t sub n h k = rw zero-add k
Absent-append (c ∷ s) t sub n h k = rw suc-add (h.0, Absent-append s t sub n h.1 k)

-- A marker: two blanks, an exclamation mark and more, on one line.
abbrev pub marker_text : Bytes → Bytes
marker_text m = b' ' ∷ b' ' ∷ b'!' ∷ m

-- No marker begins in lines without an exclamation mark.
lines-Absent :
    (s rest m : Bytes)
    → Lacks b'!' s
    → Absent ((s ++ b'\n' ∷ []) ++ rest) (marker_text m) (length (s ++ b'\n' ∷ []))
unfolding has_prefix
lines-Absent [] rest m h = (ground arith, tt)
lines-Absent (c ∷ []) rest m h = (ground arith, (ground arith, tt))
lines-Absent (c ∷ d ∷ []) rest m h = (ground arith, (ground arith, (ground arith, tt)))
lines-Absent (c ∷ d ∷ e ∷ s) rest m h = (ground arith, lines-Absent (d ∷ e ∷ s) rest m h.1)

body-Absent :
    (body rest m : Bytes)
    → Lacks b'!' body
    → Absent (body_text body ++ rest) (marker_text m) (length (body_text body))
unfolding body_text
body-Absent [] rest m h = tt
body-Absent (c ∷ s) rest m h = lines-Absent (c ∷ s) rest m h

module _ (head begin_marker old tail m : Bytes) (line : Lacks b'\n' (marker_text m))
    (begin_line : Lacks b'\n' begin_marker) (cut : IsCut head begin_marker old (marker_text m) tail)
    (body : Bytes) (plain : Lacks b'!' body) where
  prefix_part :
      (x : Bytes)
      → document head begin_marker x (marker_text m) tail
        ≡ (head ++ begin_marker) ++ b'\n' ∷ (x ++ (marker_text m ++ tail))
  prefix_part x = sym (append_assoc head begin_marker (b'\n' ∷ (x ++ (marker_text m ++ tail))))

  within_head : length head ≤ length (head ++ begin_marker)
  within_head = omega (arith, length-append head begin_marker)

  Absent-shorter : (s sub : Bytes) (n k : ℕ) → n ≤ k → Absent s sub k → Absent s sub n
  Absent-shorter s sub zero k h a = tt
  Absent-shorter s sub (suc n) zero h a = absurd (omega arith)
  Absent-shorter [] sub (suc n) (suc k) h a = a
  Absent-shorter (c ∷ s) sub (suc n) (suc k) h a = (a.0, Absent-shorter s sub n k (omega arith) a.1)

  newline_part :
      (bt : Bytes)
      → Absent (bt ++ (marker_text m ++ tail)) (marker_text m) (length bt)
      → Absent (b'\n' ∷ (bt ++ (marker_text m ++ tail))) (marker_text m) (suc (length bt))
  unfolding has_prefix
  newline_part bt h = (ground arith, h)

  old_end :
      Absent
        ((head ++ begin_marker) ++ b'\n' ∷ (old ++ (marker_text m ++ tail)))
        (marker_text m)
        (length (head ++ begin_marker))
  old_end =
      Absent-shorter _ (marker_text m) _ _ (omega (arith, length-append head begin_marker))
        (rw (prefix_part old) at cut.end_first)

  positions :
      (n : ℕ) → length (head ++ begin_marker) + suc n ≡ length head + length begin_marker + 1 + n
  positions n = omega (arith, length-append head begin_marker)

  found :
      Absent
        ((head ++ begin_marker) ++ b'\n' ∷ (body_text body ++ (marker_text m ++ tail)))
        (marker_text m)
        (length head + length begin_marker + 1 + length (body_text body))
  found = rw (sym (positions (length (body_text body)))) (
      Absent-append (head ++ begin_marker) (b'\n' ∷ (body_text body ++ (marker_text m ++ tail)))
        (marker_text m) (suc (length (body_text body)))
        (Absent-line (head ++ begin_marker) (old ++ (marker_text m ++ tail)) _ (marker_text m)
          (length (head ++ begin_marker)) line (omega arith) old_end)
        (newline_part (body_text body) (body-Absent body (marker_text m ++ tail) m plain)))

  -- The end marker is not found in front of the new body, nor in it.
  end-Absent :
      Absent
        (document head begin_marker (body_text body) (marker_text m) tail)
        (marker_text m)
        (length head + length begin_marker + 1 + length (body_text body))
  end-Absent = rw (prefix_part (body_text body)) found

  -- The new config is cut in the same way.
  pub spliced-IsCut : IsCut head begin_marker (body_text body) (marker_text m) tail
  spliced-IsCut = record {
    begin_first = rw (prefix_part (body_text body)) (
        Absent-line (head ++ begin_marker) (old ++ (marker_text m ++ tail)) _ begin_marker
          (length head) begin_line within_head (rw (prefix_part old) at cut.begin_first));
    end_first = end-Absent;
  }

  -- Where the markers are single lines, the end marker begins with two blanks and an exclamation
  -- mark, and the body has no exclamation mark: splicing a body into a cut config, and the same body
  -- again into the result, both give the config with that body.
  pub splice_idempotent :
      (splice
          (document head begin_marker old (marker_text m) tail)
          begin_marker
          (marker_text m)
          body
        ≡ ok (document head begin_marker (body_text body) (marker_text m) tail))
      × (splice
            (document head begin_marker (body_text body) (marker_text m) tail)
            begin_marker
            (marker_text m)
            body
          ≡ ok (document head begin_marker (body_text body) (marker_text m) tail))
  splice_idempotent = (
    splice-document head begin_marker old (marker_text m) tail cut body,
    splice-document head begin_marker (body_text body) (marker_text m) tail spliced-IsCut body,
  )
