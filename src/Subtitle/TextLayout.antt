-- ===== src/Subtitle/TextLayout.antt =====
-- src/svc/subtitle_pipeline/subtitle_text_renderer.c, its word wrap: decoded text becomes lines, which
-- are spans of its codepoints. The font is its function from a codepoint to the advance
-- of its glyph. Sums of at most 512 advances of 16 bits do not wrap in 32. The codepoints are the
-- first codepoint_count entries of the array.
pub mod Width
pub mod Wrapped
use subtitle_overlay_fw.Base.{
  ℕ, zero, suc, ◌+◌, ◌*◌, ◌-◌, ◌%◌, Bool, true, false, not, ◌||◌, ◌&&◌, ◌==◌, List, [], ◌∷◌, ◌++◌,
  ltb, leb, if◌then◌else◌, length, get_or, drop,
}

-- RENDER_LAYOUT_MAX_LINES and RENDER_CONTENT_MAX_WIDTH
abbrev pub layout_max_lines : ℕ
layout_max_lines = 32

abbrev pub content_max_width : ℕ
content_max_width = 1024 - 2 * 18

-- render_span_t
pub record Span : Type 0 where
  pub start : ℕ
  pub count : ℕ
  pub append_hyphen : Bool

-- render_layout_t
pub record Layout : Type 0 where
  pub codepoints : List ℕ
  pub lines : List Span

-- The local variables of wrap_codepoints
pub record Wrap : Type 0 where
  pub layout : Layout
  pub line_start : ℕ
  pub line_count : ℕ
  pub line_width : ℕ

module _ (advance : ℕ → ℕ) where
  unfoldable pub span_advance : List ℕ → ℕ → ℕ → ℕ
  span_advance codepoints start zero = 0
  span_advance codepoints start (suc count) =
      advance (get_or codepoints start 0) + span_advance codepoints (start + 1) count

  unfoldable pub append_line : ℕ → ℕ → Bool → Layout → Layout
  append_line start count hyphen l =
      if count == 0 || leb layout_max_lines (length l.lines) then l else record l {
        lines = l.lines ++ (record { start = start; count = count; append_hyphen = hyphen } ∷ []);
      }

  -- The inner loop of split_word: how many codepoints fit beside a hyphen, `n` of them left
  unfoldable pub fit_count : List ℕ → ℕ → ℕ → ℕ → ℕ → ℕ
  fit_count codepoints start zero count width = count
  fit_count codepoints start (suc n) count width =
      let next = advance (get_or codepoints (start + count) 0) in
      let rest = fit_count codepoints start n (count + 1) (width + next) in
      if not (count == 0) && ltb content_max_width (width + next + advance b'-')
      then count
      else rest

  -- The first argument is fuel.
  unfoldable pub split_word : ℕ → ℕ → ℕ → Layout → Layout
  split_word zero start end l = l
  split_word (suc n) start end l =
      let count = fit_count l.codepoints start (end - start) 0 0 in
      let rest = split_word n (start + count) end (append_line start count true l) in
      if leb end start
      then l
      else if leb (span_advance l.codepoints start (end - start)) content_max_width
      then append_line start (end - start) false l
      else rest

  -- The inner loop of wrap_codepoints: the first space from `cursor` on, or the end, `n` away
  unfoldable pub word_end : List ℕ → ℕ → ℕ → ℕ
  word_end codepoints zero cursor = cursor
  word_end codepoints (suc n) cursor =
      let rest = word_end codepoints n (cursor + 1) in
      if get_or codepoints cursor 0 == 32 then cursor else rest

  -- The line is ended if the word does not fit beside it.
  unfoldable pub end_line : ℕ → Wrap → Wrap
  end_line word_width w =
      if not (w.line_count == 0) && ltb content_max_width (w.line_width + advance 32 + word_width)
      then record w {
        layout = append_line w.line_start w.line_count false w.layout;
        line_count = 0;
        line_width = 0;
      }
      else w

  unfoldable pub place_word : ℕ → ℕ → ℕ → Wrap → Wrap
  place_word word_start end word_width w =
      if w.line_count == 0 && ltb content_max_width word_width
      then record w { layout = split_word (end - word_start) word_start end w.layout }
      else let line_start = if w.line_count == 0 then word_start else w.line_start in
        record w {
          line_start = line_start;
          line_count = end - line_start;
          line_width =
              if w.line_width == 0 then word_width else w.line_width + advance 32 + word_width;
        }

  -- The outer loop; the first argument is fuel.
  unfoldable pub wrap_words : ℕ → ℕ → Wrap → Wrap
  wrap_words zero cursor w = w
  wrap_words (suc n) cursor w =
      let count = length w.layout.codepoints in
      let end = word_end w.layout.codepoints (count - cursor) cursor in
      let word_width = span_advance w.layout.codepoints cursor (end - cursor) in
      let next =
        wrap_words n (if ltb end count then end + 1 else end)
          (place_word cursor end word_width (end_line word_width w)) in
      if ltb cursor count then next else w

  unfoldable pub wrap_codepoints : Layout → Layout
  wrap_codepoints l =
      let w =
        wrap_words (length l.codepoints) 0
          (record { layout = l; line_start = 0; line_count = 0; line_width = 0 }) in
      append_line w.line_start w.line_count false w.layout
