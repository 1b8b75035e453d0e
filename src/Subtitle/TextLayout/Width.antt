-- ===== src/Subtitle/TextLayout/Width.antt =====
-- The width of the lines of subtitle_text_renderer.c's layout
use subtitle_overlay_fw.Base.{
  ℕ, zero, suc, ◌+◌, ◌-◌, ◌≤◌, ◌<◌, ◌≡◌, ◌⊎◌, inl, inr, refl, sym, ap, ◌∙◌, Bool, true, false, not,
  ◌||◌, ◌&&◌, Bool-cases, ◌==◌, List, [], ◌∷◌, ◌++◌, ltb, leb, length, length-append, get_or, arith,
}
use subtitle_overlay_fw.Subtitle.TextLayout.{
  Span, Layout, span_advance, append_line, fit_count, split_word, word_end,
}

-- Glyphs have an advance, and each has room on a line, with a hyphen beside it.
abbrev pub IsFont : (ℕ → ℕ) → Type 0
IsFont advance = (c : ℕ) → (0 < advance c) × (advance c + advance b'-' ≤ 988)

module _ (advance : ℕ → ℕ) (font : IsFont advance) (cps : List ℕ) where
  abbrev pub hyphen : Bool → ℕ
  hyphen true = advance b'-'
  hyphen false = 0

  -- A span that lies in the text and, with its hyphen, within the width of the content
  abbrev pub IsFitting : Span → Type 0
  IsFitting s =
      (0 < s.count)
      × ((s.start + s.count ≤ length cps)
          × (span_advance advance cps s.start s.count + hyphen s.append_hyphen ≤ 988))

  abbrev pub AreFitting : List Span → Type 0
  AreFitting [] = Unit
  AreFitting (s ∷ ss) = IsFitting s × AreFitting ss

  AreFitting-append : (ss ts : List Span) → AreFitting ss → AreFitting ts → AreFitting (ss ++ ts)
  AreFitting-append [] ts a b = b
  AreFitting-append (s ∷ ss) ts a b = (a.0, AreFitting-append ss ts a.1 b)

  -- A layout of these codepoints
  abbrev pub IsLayout : Layout → Type 0
  IsLayout l = (l.codepoints ≡ cps) × (AreFitting l.lines × (length l.lines ≤ 32))

  pub span_advance-split :
      (a b start : ℕ)
      → span_advance advance cps start (a + b)
        ≡ span_advance advance cps start a + span_advance advance cps (start + a) b
  unfolding span_advance
  span_advance-split zero b start =
      let none_ : 0 + b ≡ b = omega arith in
      let here : start + 0 ≡ start = omega arith in rw (none_, here) (omega arith)
  span_advance-split (suc a) b start =
      let one_less : suc a + b ≡ suc (a + b) = omega arith in
      let behind : start + suc a ≡ start + 1 + a = omega arith in
      rw (one_less, behind) (omega (arith, span_advance-split a b (start + 1)))

  pub span_advance-one :
      (start : ℕ) → span_advance advance cps start 1 ≡ advance (get_or cps start 0)
  unfolding span_advance
  span_advance-one start = omega arith

  pub span_advance-last :
      (start count : ℕ)
      → span_advance advance cps start (count + 1)
        ≡ span_advance advance cps start count + advance (get_or cps (start + count) 0)
  span_advance-last start count =
      span_advance-split count 1 start
      ∙ ap (λ (k : ℕ). span_advance advance cps start count + k) (span_advance-one (start + count))

  pub append_line-IsLayout :
      (start count : ℕ) (h : Bool) (l : Layout)
      → IsLayout l
      → (count ≡ 0) ⊎ IsFitting (record { start = start; count = count; append_hyphen = h })
      → IsLayout (append_line advance start count h l)
  unfolding append_line
  append_line-IsLayout start count h l i f =
      let skip = count == 0 || leb 32 (length l.lines) in
      elim (Bool-cases skip) [
        | inl yes_ ↦ rw yes_ i
        | inr more ↦
            let s : Span = record { start = start; count = count; append_hyphen = h } in
            let there : IsFitting s = elim f [
              | inl z ↦ absurd (ground (arith, more, z))
              | inr g ↦ g
            ] in
            rw more (
              i.0,
              (
                AreFitting-append l.lines (s ∷ []) i.1.0 (there, tt),
                ground (arith, more, length-append l.lines (s ∷ [])),
              ),
            )
      ]

  pub span_advance-none : (start count : ℕ) → count ≡ 0 → span_advance advance cps start count ≡ 0
  unfolding span_advance
  span_advance-none start count e = rw e refl

  fit_count-fits :
      (start n count w : ℕ)
      → w ≡ span_advance advance cps start count
      → w + advance b'-' ≤ 988
      → let r = fit_count advance cps start n count w in
        (r ≤ count + n)
        × ((span_advance advance cps start r + advance b'-' ≤ 988)
            × ((count ≤ r) × ((n ≡ 0) ⊎ (0 < r))))
  unfolding fit_count
  fit_count-fits start zero count w e h =
      (omega arith, (omega (arith, h, e), (omega arith, inl refl)))
  fit_count-fits start (suc n) count w e h =
      let next = advance (get_or cps (start + count) 0) in
      let small = font (get_or cps (start + count) 0) in
      let stop = not (count == 0) && ltb 988 (w + next + advance b'-') in
      let grown : w + next ≡ span_advance advance cps start (count + 1) =
        omega (arith, e, span_advance-last start count) in
      elim (Bool-cases stop) [
        | inl yes_ ↦
            rw yes_ (omega arith, (omega (arith, h, e), (omega arith, inr (ground (arith, yes_)))))
        | inr more ↦
            let fits : w + next + advance b'-' ≤ 988 = elim (Bool-cases (count == 0)) [
              | inl first ↦
                  omega (arith, e, small, span_advance-none start count (ground (arith, first)))
              | inr later ↦ ground (arith, later, more)
            ] in
            let ih = fit_count-fits start n (count + 1) (w + next) grown fits in
            rw more (
              omega (arith, ih.0),
              (ih.1.0, (omega (arith, ih.1.1.0), inr (omega (arith, ih.1.1.0)))),
            )
      ]

  pub word_end-bounds :
      (n cursor : ℕ)
      → let end = word_end advance cps n cursor in
        (cursor ≤ end) × ((end ≤ cursor + n) × ((end ≡ cursor + n) ⊎ (get_or cps end 0 ≡ 32)))
  unfolding word_end
  word_end-bounds zero cursor = (omega arith, (omega arith, inl (omega arith)))
  word_end-bounds (suc n) cursor =
      let ih = word_end-bounds n (cursor + 1) in
      elim (Bool-cases (get_or cps cursor 0 == 32)) [
        | inl space ↦ rw space (omega arith, (omega arith, inr (ground (arith, space))))
        | inr other ↦
            rw other (omega (arith, ih.0), (omega (arith, ih.1.0), ground (arith, ih.1.1)))
      ]

  fit_count-IsFitting :
      (start n : ℕ)
      → 0 < n
      → start + n ≤ length cps
      → IsFitting (record {
        start = start;
        count = fit_count advance cps start n 0 0;
        append_hyphen = true;
      })
  fit_count-IsFitting start n some_ b =
      let f =
        fit_count-fits start n 0 0 (sym (span_advance-none start 0 refl))
          (omega (arith, (font b'-').1)) in
      let positive : 0 < fit_count advance cps start n 0 0 = elim f.1.1.1 [
        | inl z ↦ absurd (omega (arith, z, some_))
        | inr g ↦ g
      ] in
      (positive, (omega (arith, f.0, b), f.1.0))

  -- A piece of a word that is too long: it fits, and is not empty.
  piece-IsLayout :
      (start end : ℕ) (l : Layout)
      → leb end start ≡ false
      → end ≤ length cps
      → IsLayout l
      → let count = fit_count advance l.codepoints start (end - start) 0 0 in
        IsLayout (append_line advance start count true l) × (0 < count)
  piece-IsLayout start end l open_ b i =
      let fits =
        coe 1 0
          (j. IsFitting (record {
            start = start;
            count = fit_count advance (i.0 j) start (end - start) 0 0;
            append_hyphen = true;
          }))
          (fit_count-IsFitting start (end - start) (ground (arith, open_))
            (ground (arith, open_, b))) in
      (
        append_line-IsLayout start (fit_count advance l.codepoints start (end - start) 0 0) true l i
            (inr fits),
        fits.0,
      )

  -- The rest of a word, where it fits
  rest-IsLayout :
      (start end : ℕ) (l : Layout)
      → leb end start ≡ false
      → leb (span_advance advance l.codepoints start (end - start)) 988 ≡ true
      → end ≤ length cps
      → IsLayout l
      → IsLayout (append_line advance start (end - start) false l)
  rest-IsLayout start end l open_ fits b i =
      let w0 : span_advance advance l.codepoints start (end - start) ≤ 988 = ground (arith, fits) in
      let w : span_advance advance cps start (end - start) ≤ 988 =
        coe 0 1 (j. span_advance advance (i.0 j) start (end - start) ≤ 988) w0 in
      append_line-IsLayout start (end - start) false l i
        (inr (ground (arith, open_), (ground (arith, open_, b), omega (arith, w))))

  pub split_word-IsLayout :
      (n start end : ℕ) (l : Layout)
      → end ≤ length cps
      → IsLayout l
      → IsLayout (split_word advance n start end l)
  unfolding split_word
  split_word-IsLayout zero start end l b i = i
  split_word-IsLayout (suc n) start end l b i = elim (Bool-cases (leb end start)) [
    | inl done ↦ rw done i
    | inr open_ ↦
        elim (Bool-cases (leb (span_advance advance l.codepoints start (end - start)) 988)) [
          | inl fits ↦ rw (open_, fits) (rest-IsLayout start end l open_ fits b i)
          | inr wide ↦
              let count = fit_count advance l.codepoints start (end - start) 0 0 in
              rw (open_, wide)
                (split_word-IsLayout n (start + count) end (append_line advance start count true l)
                  b (piece-IsLayout start end l open_ b i).0)
        ]
  ]

  split_word-done :
      (n start end : ℕ) (l : Layout) → leb end start ≡ true → split_word advance n start end l ≡ l
  unfolding split_word
  split_word-done zero start end l h = refl
  split_word-done (suc n) start end l h = rw h refl

  -- One round for each codepoint of the word is enough.
  pub split_word-enough :
      (n k start end : ℕ) (l : Layout)
      → end ≤ start + n
      → end ≤ length cps
      → IsLayout l
      → split_word advance (n + k) start end l ≡ split_word advance n start end l
  unfolding split_word
  split_word-enough zero k start end l h b i =
      split_word-done (0 + k) start end l (ground (arith, h))
  split_word-enough (suc n) k start end l h b i =
      let s : suc n + k ≡ suc (n + k) = omega arith in
      rw s (elim (Bool-cases (leb end start)) [
        | inl done ↦ rw done refl
        | inr open_ ↦
            elim (Bool-cases (leb (span_advance advance l.codepoints start (end - start)) 988)) [
              | inl fits ↦ rw (open_, fits) refl
              | inr wide ↦
                  let count = fit_count advance l.codepoints start (end - start) 0 0 in
                  let p = piece-IsLayout start end l open_ b i in
                  rw (open_, wide)
                    (split_word-enough n k (start + count) end
                      (append_line advance start count true l) (omega (arith, h, p.1)) b p.0)
            ]
      ])
