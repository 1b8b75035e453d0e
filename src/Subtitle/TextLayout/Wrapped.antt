-- ===== src/Subtitle/TextLayout/Wrapped.antt =====
-- Word by word, the lines of wrap_codepoints are within the width of the box.
use subtitle_overlay_fw.Base.{
  ℕ, zero, suc, ◌+◌, ◌-◌, ◌≤◌, ◌<◌, ◌≡◌, ◌⊎◌, inl, inr, refl, sym, ap, ◌∙◌, true, false, not, ◌&&◌,
  Bool-cases, ◌==◌, List, [], ltb, if◌then◌else◌, length, get_or, arith,
}
use subtitle_overlay_fw.Subtitle.TextLayout.{
  span_advance, append_line, word_end, Wrap, end_line, place_word, wrap_words, wrap_codepoints,
}
use subtitle_overlay_fw.Subtitle.TextLayout.Width.{
  IsFont, AreFitting, IsLayout, append_line-IsLayout, split_word-IsLayout, word_end-bounds,
  span_advance-split, span_advance-one, span_advance-none,
}

module _ (advance : ℕ → ℕ) (font : IsFont advance) (cps : List ℕ) where
  abbrev adv : ℕ → ℕ → ℕ
  adv start count = span_advance advance cps start count

  -- The line that is being filled is empty, or fits and ends in front of the space before the cursor.
  abbrev IsLine : ℕ → Wrap → Type 0
  IsLine cursor w =
      (0 < w.line_count)
      × ((w.line_start + w.line_count ≤ length cps)
          × ((w.line_width ≡ adv w.line_start w.line_count)
              × ((w.line_width ≤ 988)
                  × ((0 < w.line_width)
                      × (cursor < length cps
                          → (cursor ≡ w.line_start + w.line_count + 1)
                            × (get_or cps (w.line_start + w.line_count) 0 ≡ 32))))))

  abbrev IsWrapped : ℕ → Wrap → Type 0
  IsWrapped cursor w =
      IsLayout advance font cps w.layout
      × (((w.line_count ≡ 0) × (w.line_width ≡ 0)) ⊎ IsLine cursor w)

  appended :
      (cursor : ℕ) (w : Wrap)
      → IsLayout advance font cps w.layout
      → IsLine cursor w
      → IsLayout advance font cps (append_line advance w.line_start w.line_count false w.layout)
  appended cursor w l i =
      append_line-IsLayout advance font cps w.line_start w.line_count false w.layout l
        (inr (i.0, (i.1.0, omega (arith, i.1.1.0, i.1.1.1.0))))

  end_line-IsWrapped :
      (cursor ww : ℕ) (w : Wrap)
      → IsWrapped cursor w
      → let v = end_line advance ww w in
        IsLayout advance font cps v.layout
        × (((v.line_count ≡ 0) × (v.line_width ≡ 0))
            ⊎ (IsLine cursor v × (v.line_width + advance 32 + ww ≤ 988)))
  unfolding end_line
  end_line-IsWrapped cursor ww w (l, i) =
      elim (Bool-cases (not (w.line_count == 0) && ltb 988 (w.line_width + advance 32 + ww))) [
        | inl e ↦ elim i [
          | inl empty ↦ absurd (ground (arith, e, empty))
          | inr line ↦ rw e (appended cursor w l line, inl (refl, refl))
        ]
        | inr e ↦ elim i [
          | inl empty ↦ rw e (l, inl empty)
          | inr line ↦ rw e (l, inr (line, ground (arith, e, line.0)))
        ]
      ]

  -- A word from the cursor to `end`, of this width
  abbrev IsWord : ℕ → ℕ → ℕ → Type 0
  IsWord cursor end ww =
      (cursor ≤ end)
      × ((end ≤ length cps)
          × ((end < length cps → get_or cps end 0 ≡ 32) × (ww ≡ adv cursor (end - cursor))))

  adv_positive : (start count : ℕ) → 0 < count → 0 < adv start count
  unfolding span_advance
  adv_positive start zero h = absurd (omega (arith, h))
  adv_positive start (suc count) h = omega (arith, (font (get_or cps start 0)).0)

  -- The cursor behind a word, and the space in front of it
  behind :
      (start end : ℕ)
      → start ≤ end
      → (end < length cps → get_or cps end 0 ≡ 32)
      → (if ltb end (length cps) then end + 1 else end) < length cps
      → ((if ltb end (length cps) then end + 1 else end) ≡ start + (end - start) + 1)
        × (get_or cps (start + (end - start)) 0 ≡ 32)
  behind start end le space h =
      let e : start + (end - start) ≡ end = omega (arith, le) in
      elim (Bool-cases (ltb end (length cps))) [
        | inl t ↦ rw t (omega (arith, e), ap (λ k. get_or cps k 0) e ∙ space (ground (arith, t)))
        | inr f ↦ absurd (ground (arith, f, h))
      ]

  -- A word behind a line and its space
  longer :
      (start count end cursor : ℕ)
      → cursor ≡ start + count + 1
      → get_or cps (start + count) 0 ≡ 32
      → cursor ≤ end
      → adv start (end - start) ≡ adv start count + advance 32 + adv cursor (end - cursor)
  longer start count end cursor at space le =
      let k : end - start ≡ count + (1 + (end - cursor)) = omega (arith, at, le) in
      let one : adv (start + count) 1 ≡ advance 32 =
        span_advance-one advance font cps (start + count) ∙ ap advance space in
      let next : adv (start + count + 1) (end - cursor) ≡ adv cursor (end - cursor) =
        ap (λ c. adv c (end - cursor)) (sym at) in
      ap (adv start) k
      ∙ omega (
        arith,
        one,
        next,
        span_advance-split advance font cps count (1 + (end - cursor)) start,
        span_advance-split advance font cps 1 (end - cursor) (start + count),
      )

  place_word-IsWrapped :
      (cursor end ww : ℕ) (w : Wrap)
      → cursor < length cps
      → IsWord cursor end ww
      → IsLayout advance font cps w.layout
      → ((w.line_count ≡ 0) × (w.line_width ≡ 0))
        ⊎ (IsLine cursor w × (w.line_width + advance 32 + ww ≤ 988))
      → IsWrapped
          (if ltb end (length cps) then end + 1 else end)
          (place_word advance cursor end ww w)
  unfolding place_word
  place_word-IsWrapped cursor end ww w c (ce, (en, (space, e))) l (inl (count, width)) =
      let none_ : (w.line_count == 0) ≡ true = ground (arith, count) in
      let none_wide : (w.line_width == 0) ≡ true = ground (arith, width) in
      elim (Bool-cases (ltb 988 ww)) [
        | inl big ↦
            rw (none_, big)
              (
                split_word-IsLayout advance font cps (end - cursor) cursor end w.layout en l,
                inl (count, width),
              )
        | inr small ↦
            rw (none_, small, none_wide)
              (
                l,
                elim (Bool-cases (end == cursor)) [
                  | inl same ↦
                      let none_here : end - cursor ≡ 0 = ground (arith, same) in
                      inl (none_here, e ∙ span_advance-none advance font cps cursor _ none_here)
                  | inr later ↦
                      let some_here : 0 < end - cursor = ground (arith, later, ce) in
                      inr (
                        some_here,
                        (
                          omega (arith, ce, en),
                          (
                            e,
                            (
                              ground (arith, small),
                              (
                                omega (arith, e, adv_positive cursor _ some_here),
                                behind cursor end ce space,
                              ),
                            ),
                          ),
                        ),
                      )
                ],
              )
      ]
  place_word-IsWrapped cursor end ww w c (ce, (en, (space, e))) l (inr (i, f)) =
      let some_ : (w.line_count == 0) ≡ false = ground (arith, i.0) in
      let at = i.1.1.1.1.1 c in
      let wide : (w.line_width == 0) ≡ false = ground (arith, i.1.1.1.1.0) in
      rw (some_, wide)
        (
          l,
          inr (
            omega (arith, at.0, ce),
            (
              omega (arith, at.0, ce, en),
              (
                omega (arith, e, i.1.1.0, longer w.line_start w.line_count end cursor at.0 at.1 ce),
                (
                  f,
                  (
                    omega (arith, i.1.1.1.1.0),
                    behind w.line_start end (omega (arith, at.0, ce)) space,
                  ),
                ),
              ),
            ),
          ),
        )

  -- The word at the cursor, in a list of codepoints that is equal
  abbrev Word : ℕ → List ℕ → Type 0
  Word cursor c =
      let end = word_end advance c (length c - cursor) cursor in
      IsWord cursor end (span_advance advance c cursor (end - cursor))
      × ((if ltb end (length c) then end + 1 else end)
          ≡ (if ltb end (length cps) then end + 1 else end))

  word : (cursor : ℕ) → cursor < length cps → Word cursor cps
  word cursor c =
      let b = word_end-bounds advance font cps (length cps - cursor) cursor in
      let all_ : cursor + (length cps - cursor) ≡ length cps = omega (arith, c) in
      (
        (
          b.0,
          (
            omega (arith, b.1.0, all_),
            (
              λ h. elim b.1.1 [
                | inl last ↦ absurd (omega (arith, last, all_, h))
                | inr space ↦ space
              ],
              refl,
            ),
          ),
        ),
        refl,
      )

  -- What one round of the outer loop leaves
  abbrev next_cursor : ℕ → Wrap → ℕ
  next_cursor cursor w =
      let count = length w.layout.codepoints in
      let end = word_end advance w.layout.codepoints (count - cursor) cursor in
      if ltb end count then end + 1 else end

  abbrev next_wrap : ℕ → Wrap → Wrap
  next_wrap cursor w =
      let c = w.layout.codepoints in
      let end = word_end advance c (length c - cursor) cursor in
      let word_width = span_advance advance c cursor (end - cursor) in
      place_word advance cursor end word_width (end_line advance word_width w)

  round-IsWrapped :
      (cursor : ℕ) (w : Wrap)
      → ltb cursor (length w.layout.codepoints) ≡ true
      → IsWrapped cursor w
      → IsWrapped (next_cursor cursor w) (next_wrap cursor w) × (cursor < next_cursor cursor w)
  round-IsWrapped cursor w t i =
      let c : cursor < length cps = coe 0 1 (j. cursor < length (i.0.0 j)) (ground (arith, t)) in
      let (there, same) = coe 1 0 (j. Word cursor (i.0.0 j)) (word cursor c) in
      let end = word_end advance w.layout.codepoints (length w.layout.codepoints - cursor) cursor in
      let ww = span_advance advance w.layout.codepoints cursor (end - cursor) in
      let v = end_line-IsWrapped cursor ww w i in
      let placed = place_word-IsWrapped cursor end ww (end_line advance ww w) c there v.0 v.1 in
      (coe 1 0 (j. IsWrapped (same j) (next_wrap cursor w)) placed, ground (arith, t, there.0))

  wrap_words-IsWrapped :
      (n cursor : ℕ) (w : Wrap)
      → IsWrapped cursor w
      → (end : ℕ) × IsWrapped end (wrap_words advance n cursor w)
  unfolding wrap_words
  wrap_words-IsWrapped zero cursor w i = (cursor, i)
  wrap_words-IsWrapped (suc n) cursor w i =
      elim (Bool-cases (ltb cursor (length w.layout.codepoints))) [
        | inr f ↦ rw f (cursor, i)
        | inl t ↦ rw t (
            wrap_words-IsWrapped n (next_cursor cursor w) (next_wrap cursor w)
              (round-IsWrapped cursor w t i).0)
      ]

  wrap_words-done :
      (n cursor : ℕ) (w : Wrap)
      → ltb cursor (length w.layout.codepoints) ≡ false
      → wrap_words advance n cursor w ≡ w
  unfolding wrap_words
  wrap_words-done zero cursor w f = refl
  wrap_words-done (suc n) cursor w f = rw f refl

  -- One round for each codepoint is enough.
  wrap_words-enough :
      (n k cursor : ℕ) (w : Wrap)
      → length cps ≤ cursor + n
      → IsWrapped cursor w
      → wrap_words advance (n + k) cursor w ≡ wrap_words advance n cursor w
  unfolding wrap_words
  wrap_words-enough zero k cursor w h i =
      let b : length w.layout.codepoints ≤ cursor =
        coe 1 0 (j. length (i.0.0 j) ≤ cursor) (omega (arith, h)) in
      wrap_words-done (0 + k) cursor w (ground (arith, b))
  wrap_words-enough (suc n) k cursor w h i =
      let s : suc n + k ≡ suc (n + k) = omega arith in
      rw s (elim (Bool-cases (ltb cursor (length w.layout.codepoints))) [
        | inr f ↦ rw f refl
        | inl t ↦
            let r = round-IsWrapped cursor w t i in
            rw t (
              wrap_words-enough n k (next_cursor cursor w) (next_wrap cursor w)
                (omega (arith, h, r.1)) r.0)
      ])

abbrev pub at_first : List ℕ → Wrap
at_first cps = record {
  layout = record { codepoints = cps; lines = [] };
  line_start = 0;
  line_count = 0;
  line_width = 0;
}

-- With a font whose glyphs all have an advance, and room for each of them on a line beside a hyphen,
-- there are at most 32 lines, and each lies in the text, has at least one codepoint, and is with its
-- hyphen not wider than the content of the box; more rounds of the outer loop than the text has
-- codepoints change nothing.
pub wrap_codepoints-AreFitting :
    (advance : ℕ → ℕ) (font : IsFont advance) (cps : List ℕ)
    → let l = wrap_codepoints advance (record { codepoints = cps; lines = [] }) in
      AreFitting advance font cps l.lines
      × ((length l.lines ≤ 32)
          × ((k : ℕ)
              → wrap_words advance (length cps + k) 0 (at_first cps)
                ≡ wrap_words advance (length cps) 0 (at_first cps)))
unfolding wrap_codepoints
wrap_codepoints-AreFitting advance font cps =
    let start : IsWrapped advance font cps 0 (at_first cps) =
      ((refl, (tt, omega arith)), inl (refl, refl)) in
    let (end, (l, line)) =
      wrap_words-IsWrapped advance font cps (length cps) 0 (at_first cps) start in
    let w = wrap_words advance (length cps) 0 (at_first cps) in
    let last =
      append_line-IsLayout advance font cps w.line_start w.line_count false w.layout l (elim line [
        | inl empty ↦ inl empty.0
        | inr i ↦ inr (i.0, (i.1.0, omega (arith, i.1.1.0, i.1.1.1.0)))
      ]) in
    (
      last.1.0,
      (
        last.1.1,
        λ k. wrap_words-enough advance font cps (length cps) k 0 (at_first cps) (omega arith) start,
      ),
    )
