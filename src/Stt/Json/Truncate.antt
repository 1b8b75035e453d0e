-- ===== src/Stt/Json/Truncate.antt =====
-- A string that does not fit in its destination, against UTF-8.
use subtitle_overlay_fw.Base.{
  ℕ, zero, suc, ◌+◌, ◌-◌, ◌≤◌, ◌<◌, ◌≡◌, ◌⊎◌, inl, inr, refl, sym, ap, ◌∙◌, true, false, ◌||◌,
  Bool-cases, some, List, [], ◌∷◌, ◌++◌, append_assoc, append-nil, ltb, leb, between, ◌==◌,
  if◌then◌else◌, length, length-append, take, get_or, take-append_length, take-append_le,
  take-append_ge, take-all, length-take, ok, arith,
}
use subtitle_overlay_fw.Stt.Json.{
  Written, nothing_written, put, skip_back, expected_length, trim, parse_string,
}
use subtitle_overlay_fw.Stt.Json.Text.{
  quote, IsPrintable, put_all, parse_string-quote, parse_string-quote_nonempty,
}

-- The bytes of one code point: a lead byte and as many continuation bytes as it announces
abbrev pub AreContinuations : List ℕ → Type 0
AreContinuations [] = Unit
AreContinuations (c ∷ cs) = ((0x80 ≤ c) × (c ≤ 0xbf)) × AreContinuations cs

abbrev pub IsCodePoint : List ℕ → Type 0
IsCodePoint [] = ⊥
IsCodePoint (lead ∷ cs) =
    AreContinuations cs
    × (((lead < 0x80) × (length cs ≡ 0))
        ⊎ (((0xc0 ≤ lead) × ((lead ≤ 0xdf) × (length cs ≡ 1)))
            ⊎ (((0xe0 ≤ lead) × ((lead ≤ 0xef) × (length cs ≡ 2)))
                ⊎ ((0xf0 ≤ lead) × ((lead ≤ 0xf7) × (length cs ≡ 3))))))

-- UTF-8 text as its code points
abbrev pub AreCodePoints : List (List ℕ) → Type 0
AreCodePoints [] = Unit
AreCodePoints (p ∷ ps) = IsCodePoint p × AreCodePoints ps

unfoldable pub join : List (List ℕ) → List ℕ
join [] = []
join (p ∷ ps) = p ++ join ps

-- As many whole code points as there is room for
unfoldable pub fit_whole : ℕ → List (List ℕ) → List ℕ
fit_whole room [] = []
fit_whole room (p ∷ ps) =
    let rest = fit_whole (room - length p) ps in if leb (length p) room then p ++ rest else []

take-nil : (n : ℕ) → take {A = ℕ} n [] ≡ []
take-nil zero = refl
take-nil (suc n) = refl

ltb-suc : (m n : ℕ) → ltb m n ≡ ltb (suc m) (suc n)
ltb-suc m n = ground arith

put-fits :
    (size c : ℕ) (w : Written)
    → ltb (length w.dst + 1) size ≡ true
    → put (some size) c w ≡ record w { dst = w.dst ++ (c ∷ []); non_empty = true }
unfolding put
put-fits size c w h = rw h refl

put-full :
    (size c : ℕ) (w : Written)
    → ltb (length w.dst + 1) size ≡ false
    → put (some size) c w ≡ record w { was_truncated = true; non_empty = true }
unfolding put
put-full size c w h = rw h refl

-- What the stores leave
pub put_all-take :
    (size : ℕ) (t : List ℕ) (w : Written)
    → length w.dst < size
    → ((put_all (some size) t w).dst ≡ w.dst ++ take (size - 1 - length w.dst) t)
      × ((put_all (some size) t w).was_truncated
          ≡ (w.was_truncated || ltb (size - 1 - length w.dst) (length t)))
unfolding put_all
put_all-take size [] w h =
    (rw (take-nil (size - 1 - length w.dst)) (sym (append-nil w.dst)), ground arith)
put_all-take size (c ∷ cs) w h = elim (Bool-cases (ltb (length w.dst + 1) size)) [
  | inl fits ↦
      let w1 : Written = record w { dst = w.dst ++ (c ∷ []); non_empty = true } in
      let len = length-append w.dst (c ∷ []) in
      let ih = put_all-take size cs w1 (ground (arith, fits, len)) in
      let room : (n : ℕ) × (size - 1 - length w.dst ≡ suc n) × (size - 1 - length w1.dst ≡ n) =
        (size - 1 - length w1.dst, ground (arith, fits, len), refl) in
      rw (put-fits size c w fits, put_all, room.1)
        (
          ih.0 ∙ rw (room.2, append_assoc) refl,
          ih.1 ∙ rw room.2 (ap (λ b. w.was_truncated || b) (ltb-suc room.0 (length cs))),
        )
  | inr full ↦
      let w1 : Written = record w { was_truncated = true; non_empty = true } in
      let ih = put_all-take size cs w1 h in
      let none_left : size - 1 - length w.dst ≡ 0 = ground (arith, full, h) in
      rw (put-full size c w full, put_all, none_left)
        (ih.0 ∙ rw none_left refl, ih.1 ∙ ground arith)
]

lead-expected :
    (lead : ℕ) (cs : List ℕ)
    → IsCodePoint (lead ∷ cs)
    → (between 0x80 0xbf lead ≡ false) × (expected_length lead ≡ suc (length cs))
unfolding expected_length
lead-expected lead cs p = ground (arith, p.1)

get_or-append_at :
    (xs ys : List ℕ) (i j d : ℕ) → i ≡ j + length xs → get_or (xs ++ ys) i d ≡ get_or ys j d
get_or-append_at [] ys i j d e = ap (λ k. get_or ys k d) (omega (arith, e))
get_or-append_at (x ∷ xs) ys zero j d e = absurd (omega (arith, e))
get_or-append_at (x ∷ xs) ys (suc i) j d e = get_or-append_at xs ys i j d (omega (arith, e))

get_or-AreContinuations :
    (cs : List ℕ) (j : ℕ)
    → AreContinuations cs
    → j < length cs
    → between 0x80 0xbf (get_or cs j 0) ≡ true
get_or-AreContinuations [] j a h = absurd (omega arith)
get_or-AreContinuations (c ∷ cs) zero a h = ground (arith, a.0)
get_or-AreContinuations (c ∷ cs) (suc j) a h = get_or-AreContinuations cs j a.1 (omega arith)

-- Going back over continuation bytes stops behind the lead byte.
skip_back-lead :
    (xs cs : List ℕ) (lead j i : ℕ)
    → between 0x80 0xbf lead ≡ false
    → AreContinuations cs
    → j ≤ length cs
    → i ≡ j + length xs
    → skip_back (xs ++ lead ∷ cs) (suc i) ≡ suc (length xs)
unfolding skip_back
skip_back-lead xs cs lead zero i l a h e =
    rw (get_or-append_at xs (lead ∷ cs) i 0 0 e, l) (ap suc (omega (arith, e)))
skip_back-lead xs cs lead (suc j) zero l a h e = absurd (omega (arith, e))
skip_back-lead xs cs lead (suc j) (suc i) l a h e =
    rw (get_or-append_at xs (lead ∷ cs) (suc i) (suc j) 0 e, get_or-AreContinuations cs j a h)
      (skip_back-lead xs cs lead j i l a (omega (arith, h)) (omega (arith, e)))

take-append_at : (xs ys : List ℕ) → take (length xs) (xs ++ ys) ≡ xs
take-append_at xs ys = take-append_length xs ys

-- A text that ends in a code point, the last `n` of whose bytes stand there
trim-lead :
    (xs cs : List ℕ) (lead : ℕ)
    → between 0x80 0xbf lead ≡ false
    → AreContinuations cs
    → trim (xs ++ lead ∷ cs) ≡ (
        if expected_length lead == 0 || ltb (suc (length cs)) (expected_length lead)
        then xs
        else xs ++ lead ∷ cs)
unfolding trim
trim-lead xs cs lead l a =
    let whole = xs ++ lead ∷ cs in
    let n = suc (length cs) in
    let len : length whole ≡ suc (length cs + length xs) =
      omega (arith, length-append xs (lead ∷ cs)) in
    let back : skip_back whole (length whole) ≡ suc (length xs) =
      rw len
        (skip_back-lead xs cs lead (length cs) (length cs + length xs) l a (omega arith) refl) in
    let at_lead : get_or whole (length xs) 0 ≡ lead =
      get_or-append_at xs (lead ∷ cs) (length xs) 0 0 (omega arith) in
    let width : length whole - length xs ≡ n = omega (arith, len) in
    let some_ : (suc (length xs) == 0) ≡ false = ground arith in
    let index : suc (length xs) - 1 ≡ length xs = omega arith in
    rw (back, trim) (rw (some_, index, at_lead, width, take-append_at xs (lead ∷ cs)) refl)

-- The whole code points that fit are nothing, or end in one.
fit_whole-last :
    (room : ℕ) (ps : List (List ℕ))
    → AreCodePoints ps
    → (fit_whole room ps ≡ [])
      ⊎ ((xs : List ℕ) × (q : List ℕ) × (IsCodePoint q) × (fit_whole room ps ≡ xs ++ q))
unfolding fit_whole
fit_whole-last room [] a = inl refl
fit_whole-last room (p ∷ ps) a = elim (Bool-cases (leb (length p) room)) [
  | inl fits ↦ rw fits (
      inr (elim (fit_whole-last (room - length p) ps a.1) [
        | inl e ↦ ([], p, a.0, rw (e, append-nil) refl)
        | inr r ↦ let (xs, q, c, e) = r in (p ++ xs, q, c, rw e (sym (append_assoc p xs q)))
      ]))
  | inr full ↦ rw full (inl refl)
]

-- Cutting at any byte leaves the whole code points that fit, and the start of one more.
take-join :
    (room : ℕ) (ps : List (List ℕ))
    → AreCodePoints ps
    → (take room (join ps) ≡ fit_whole room ps)
      ⊎ ((lead : ℕ) × (k : ℕ) × (cs : List ℕ) × (IsCodePoint (lead ∷ cs))
          × (k < length cs)
          × (take room (join ps) ≡ fit_whole room ps ++ lead ∷ take k cs))
unfolding join fit_whole
take-join room [] a = inl (take-nil room)
take-join room (p ∷ ps) a = elim (Bool-cases (leb (length p) room)) [
  | inl fits ↦
      let cut = take-append_ge room p (join ps) (ground (arith, fits)) in
      rw (fits, cut)
        (elim (take-join (room - length p) ps a.1) [
          | inl e ↦ inl (rw e refl)
          | inr r ↦
              let (lead, k, cs, c, h, e) = r in inr (lead, k, cs, c, h, rw (e, append_assoc) refl)
        ])
  | inr full ↦ rw full (first room p a.0 (ground (arith, full)))
]
  where
    first :
        (room : ℕ) (p : List ℕ)
        → IsCodePoint p
        → room < length p
        → (take room (p ++ join ps) ≡ [])
          ⊎ ((lead : ℕ) × (k : ℕ) × (cs : List ℕ) × (IsCodePoint (lead ∷ cs))
              × (k < length cs)
              × (take room (p ++ join ps) ≡ lead ∷ take k cs))
    first room [] c h = absurd c
    first zero (lead ∷ cs) c h = inl refl
    first (suc k) (lead ∷ cs) c h = inr (
      lead,
      k,
      cs,
      c,
      omega (arith, h),
      ap (◌∷◌ lead) (take-append_le k cs (join ps) (omega (arith, h))),
    )

trim-whole : (xs q : List ℕ) → IsCodePoint q → trim (xs ++ q) ≡ xs ++ q
trim-whole xs [] c = absurd c
trim-whole xs (lead ∷ cs) c =
    let (l, width) = lead-expected lead cs c in
    let complete : (suc (length cs) == 0 || ltb (suc (length cs)) (suc (length cs))) ≡ false =
      ground arith in
    trim-lead xs cs lead l c.0 ∙ rw (width, complete) refl

AreContinuations-take : (k : ℕ) (cs : List ℕ) → AreContinuations cs → AreContinuations (take k cs)
AreContinuations-take zero cs a = tt
AreContinuations-take (suc k) [] a = tt
AreContinuations-take (suc k) (c ∷ cs) a = (a.0, AreContinuations-take k cs a.1)

trim-partial :
    (xs cs : List ℕ) (lead k : ℕ)
    → IsCodePoint (lead ∷ cs)
    → k < length cs
    → trim (xs ++ lead ∷ take k cs) ≡ xs
trim-partial xs cs lead k c h =
    let (l, width) = lead-expected lead cs c in
    let short : (suc (length cs) == 0 || ltb (suc (length (take k cs))) (suc (length cs))) ≡ true =
      ground (arith, length-take k cs, h) in
    trim-lead xs (take k cs) lead l (AreContinuations-take k cs c.0) ∙ rw (width, short) refl

trim-nil : trim [] ≡ []
unfolding trim skip_back
trim-nil = refl

trim-join :
    (room : ℕ) (ps : List (List ℕ))
    → AreCodePoints ps
    → trim (take room (join ps)) ≡ fit_whole room ps
trim-join room ps a = elim (take-join room ps a) [
  | inl e ↦ rw e (elim (fit_whole-last room ps a) [
    | inl none_ ↦ rw none_ trim-nil
    | inr r ↦ let (xs, q, c, whole) = r in rw whole (trim-whole xs q c)
  ])
  | inr r ↦ let (lead, k, cs, c, h, e) = r in rw e (trim-partial (fit_whole room ps) cs lead k c h)
]

fit_whole-all :
    (room : ℕ) (ps : List (List ℕ)) → length (join ps) ≤ room → fit_whole room ps ≡ join ps
unfolding fit_whole join
fit_whole-all room [] h = refl
fit_whole-all room (p ∷ ps) h =
    let len = length-append p (join ps) in
    let fits : leb (length p) room ≡ true = ground (arith, h, len) in
    rw fits (ap (λ r. p ++ r) (fit_whole-all (room - length p) ps (omega (arith, h, len))))

-- What is left of a text in a buffer of `size` > 0 bytes
pub stored-fit_whole :
    (size : ℕ) (ps : List (List ℕ))
    → 0 < size
    → AreCodePoints ps
    → let w = put_all (some size) (join ps) nothing_written in
      ((if w.was_truncated then trim w.dst else w.dst) ≡ fit_whole (size - 1) ps)
      × (w.was_truncated ≡ ltb (size - 1) (length (join ps)))
stored-fit_whole size ps pos a =
    let t = join ps in
    let stored = put_all-take size t nothing_written pos in
    let cut : (if ltb (size - 1) (length t) then trim (take (size - 1) t) else take (size - 1) t)
        ≡ fit_whole (size - 1) ps =
      elim (Bool-cases (ltb (size - 1) (length t))) [
        | inl long ↦ rw long (trim-join (size - 1) ps a)
        | inr short ↦
            let small : length t ≤ size - 1 = ground (arith, short) in
            rw short (take-all (size - 1) t small ∙ sym (fit_whole-all (size - 1) ps small))
      ] in
    let room : size - 1 - 0 ≡ size - 1 = omega arith in
    let bytes : (put_all (some size) t nothing_written).dst ≡ take (size - 1) t =
      stored.0 ∙ ap (λ (k : ℕ). take k t) room in
    let flag : (put_all (some size) t nothing_written).was_truncated ≡ ltb (size - 1) (length t) =
      stored.1 ∙ ap (λ (k : ℕ). ltb k (length t)) room in
    (rw (bytes, flag) cut, flag)

-- A quoted UTF-8 text without control characters, read into a buffer of `size` > 0 bytes, leaves
-- there exactly the whole code points that fit in front of the terminator; the truncation flag
-- says whether any byte of the text is missing, and the cursor ends behind the closing quote.
pub parse_string-fit_whole :
    (size : ℕ) (ps : List (List ℕ)) (rest : List ℕ)
    → 0 < size
    → AreCodePoints ps
    → IsPrintable (join ps)
    → parse_string (some size) false (quote (join ps) ++ rest)
      ≡ ok ((fit_whole (size - 1) ps, ltb (size - 1) (length (join ps))), rest)
parse_string-fit_whole size ps rest pos a p =
    let positive : (size == 0) ≡ false = ground arith in
    let stored = stored-fit_whole size ps pos a in
    parse_string-quote (some size) (join ps) rest p positive ∙ rw (stored.0, stored.1) refl

-- The same for a text that must not be empty
pub parse_string-fit_whole_nonempty :
    (size : ℕ) (p : List ℕ) (ps : List (List ℕ)) (rest : List ℕ)
    → 0 < size
    → AreCodePoints (p ∷ ps)
    → IsPrintable (join (p ∷ ps))
    → parse_string (some size) true (quote (join (p ∷ ps)) ++ rest)
      ≡ ok ((fit_whole (size - 1) (p ∷ ps), ltb (size - 1) (length (join (p ∷ ps)))), rest)
unfolding join
parse_string-fit_whole_nonempty size [] ps rest pos a t = absurd a.0
parse_string-fit_whole_nonempty size (c ∷ cs) ps rest pos a t =
    let positive : (size == 0) ≡ false = ground arith in
    let stored = stored-fit_whole size ((c ∷ cs) ∷ ps) pos a in
    parse_string-quote_nonempty (some size) c (cs ++ join ps) rest t positive
    ∙ rw (stored.0, stored.1) refl
