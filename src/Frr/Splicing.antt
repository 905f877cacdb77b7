-- ===== src/Frr/Splicing.antt =====
-- main.go's `splice` on a config that is cut at its markers.
use georoute.Base.{
  ℕ, ◌+◌, ◌≤◌, ◌≡◌, refl, sym, ◌∙◌, some, [], ◌∷◌, ◌++◌, length, take, drop, get_elem?,
  append_assoc, length-append, take-append, drop-append, arith,
}
use georoute.Netip.{Bytes}
use georoute.Text.{index}
use georoute.Text.Search.{Absent, has_prefix-append, index-first}
use georoute.Errors.{ok}
use georoute.Frr.{body_text, after_begin, splice}

-- A config cut at its markers: `head`, the begin marker, a newline, `old`, the end marker, `tail`.
abbrev pub document : Bytes → Bytes → Bytes → Bytes → Bytes → Bytes
document head begin_marker old end_marker tail =
    head ++ (begin_marker ++ (b'\n' ∷ (old ++ (end_marker ++ tail))))

-- Each marker is found first where the cut says.
pub record IsCut (head begin_marker old end_marker tail : Bytes) : Type 0 where
  pub begin_first :
      Absent (document head begin_marker old end_marker tail) begin_marker (length head)
  pub end_first :
      Absent
        (document head begin_marker old end_marker tail)
        end_marker
        (length head + length begin_marker + 1 + length old)

get_elem?-append : (xs ys : Bytes) (c : ℕ) → get_elem? (xs ++ c ∷ ys) (length xs) ≡ some c
get_elem?-append [] ys c = refl
get_elem?-append (x ∷ xs) ys c = get_elem?-append xs ys c

-- `splice` where both markers are found in order.
splice_at :
    (cfg begin_marker end_marker body : Bytes) (at stop : ℕ)
    → index cfg begin_marker ≡ some at
    → index cfg end_marker ≡ some stop
    → at ≤ stop
    → splice cfg begin_marker end_marker body
      ≡ ok (take (after_begin cfg at begin_marker) cfg ++ (body_text body ++ drop stop cfg))
unfolding splice
splice_at cfg begin_marker end_marker body at stop hb he le = ground arith

after_begin_newline :
    (cfg : Bytes) (at : ℕ) (marker : Bytes)
    → get_elem? cfg (at + length marker) ≡ some b'\n'
    → after_begin cfg at marker ≡ at + length marker + 1
unfolding after_begin
after_begin_newline cfg at marker h = ground arith

module _ (head begin_marker old end_marker tail : Bytes) where
  -- The three cuts of a document that `splice` makes or looks at.
  kept : Bytes
  kept = head ++ (begin_marker ++ b'\n' ∷ [])

  kept-length : length kept ≡ length head + length begin_marker + 1
  unfolding kept
  kept-length = omega (
    arith,
    length-append head (begin_marker ++ b'\n' ∷ []),
    length-append begin_marker (b'\n' ∷ []),
  )

  cut_newline :
      document head begin_marker old end_marker tail
      ≡ (head ++ begin_marker) ++ b'\n' ∷ (old ++ (end_marker ++ tail))
  cut_newline = sym (append_assoc head begin_marker (b'\n' ∷ (old ++ (end_marker ++ tail))))

  cut_kept : document head begin_marker old end_marker tail ≡ kept ++ (old ++ (end_marker ++ tail))
  unfolding kept
  cut_kept = simp append_assoc

  cut_end : document head begin_marker old end_marker tail ≡ (kept ++ old) ++ (end_marker ++ tail)
  cut_end = cut_kept ∙ sym (append_assoc kept old (end_marker ++ tail))

  before_end : length (kept ++ old) ≡ length head + length begin_marker + 1 + length old
  before_end = omega (arith, length-append kept old, kept-length)

  take-document :
      take (length head + length begin_marker + 1) (document head begin_marker old end_marker tail)
      ≡ kept
  take-document = rw (← kept-length, cut_kept) (take-append kept (old ++ (end_marker ++ tail)))

  drop-document :
      drop
        (length head + length begin_marker + 1 + length old)
        (document head begin_marker old end_marker tail)
      ≡ end_marker ++ tail
  drop-document = rw (← before_end, cut_end) (drop-append (kept ++ old) (end_marker ++ tail))

  newline-document :
      get_elem? (document head begin_marker old end_marker tail) (length head + length begin_marker)
      ≡ some b'\n'
  newline-document =
      rw (cut_newline, ← length-append head begin_marker)
        (get_elem?-append (head ++ begin_marker) (old ++ (end_marker ++ tail)) b'\n')

  module _ (cut : IsCut head begin_marker old end_marker tail) where
    index-begin :
        index (document head begin_marker old end_marker tail) begin_marker ≡ some (length head)
    index-begin =
        index-first head (begin_marker ++ (b'\n' ∷ (old ++ (end_marker ++ tail)))) begin_marker
          cut.begin_first (has_prefix-append begin_marker (b'\n' ∷ (old ++ (end_marker ++ tail))))

    index-end :
        index (document head begin_marker old end_marker tail) end_marker
        ≡ some (length head + length begin_marker + 1 + length old)
    index-end =
        rw (cut_end, ← before_end)
          (index-first (kept ++ old) (end_marker ++ tail) end_marker
            (rw (cut_end, ← before_end) at cut.end_first) (has_prefix-append end_marker tail))

    -- On a config cut at its markers `splice` replaces the old text by the body and its newline, and
    -- keeps every other byte.
    pub splice-document :
        (body : Bytes)
        → splice (document head begin_marker old end_marker tail) begin_marker end_marker body
          ≡ ok (document head begin_marker (body_text body) end_marker tail)
    splice-document body =
        splice_at (document head begin_marker old end_marker tail) begin_marker end_marker body
          (length head) (length head + length begin_marker + 1 + length old) index-begin index-end
          (omega arith)
        ∙ rw
            (
              after_begin_newline _ (length head) begin_marker newline-document,
              take-document,
              drop-document,
            )
            (unfold kept in simp append_assoc)
