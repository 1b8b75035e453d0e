-- ===== src/Subtitle/Sanitize/Laws.antt =====
-- The sanitizer's output fits, is supported, and supported text passes through unchanged.
use subtitle_overlay_fw.Base.{
  ℕ, zero, suc, ◌+◌, ◌-◌, ◌≤◌, ◌<◌, ◌≡◌, ◌≢◌, refl, sym, ap, ◌∙◌, Bool, true, false, not, ◌||◌,
  ◌&&◌, some, List, [], ◌∷◌, ◌++◌, append-nil, append_assoc, arith, ltb, leb, between, ◌==◌, length,
  length-append, length-drop, get_or, drop, ok, Bool-cases, inl, inr,
}
use subtitle_overlay_fw.Subtitle.Sanitize.{
  is_continuation, encoded_length, is_supported_spanish, normalize_ascii, emit_bytes,
  replace_punctuation, continuations, round, sanitize_loop, sanitize,
}
use subtitle_overlay_fw.Subtitle.Sanitize.Supported.{
  IsSupported, nil, ascii, spanish, IsSupported-append,
}

continuations-le : (n : ℕ) (rest : List ℕ) → continuations n rest ≤ length rest
unfolding continuations
continuations-le zero rest = omega arith
continuations-le (suc n) [] = omega arith
continuations-le (suc n) (c ∷ rest) = ground (arith, continuations-le n rest)

get_or-beyond : (xs : List ℕ) (i : ℕ) → length xs ≤ i → get_or xs i 0 ≡ 0
get_or-beyond [] i h = refl
get_or-beyond (x ∷ xs) zero h = elim h [ ]
get_or-beyond (x ∷ xs) (suc i) h = get_or-beyond xs i (omega arith)

-- A round consumes at least one byte, and none behind the terminator.
pub round_progress :
    (lead : ℕ) (rest : List ℕ)
    → (1 ≤ (round lead rest).1) × ((round lead rest).1 ≤ suc (length rest))
unfolding round
round_progress lead rest = ground (
  arith,
  get_or-beyond rest 0,
  get_or-beyond rest 1,
  continuations-le (encoded_length lead - 1) rest,
)

one-IsSupported : (c : ℕ) → 0x20 ≤ c → c ≤ 0x7e → c ≢ b'"' → IsSupported (c ∷ [])
one-IsSupported c lo hi ne = ascii lo hi ne nil

normalize_ascii-range :
    (c : ℕ)
    → c ≤ 0x7e
    → (0x20 ≤ normalize_ascii c) × (normalize_ascii c ≤ 0x7e) × (normalize_ascii c ≢ b'"')
unfolding normalize_ascii
normalize_ascii-range c h = (ground arith, ground arith, ground arith)

space-IsSupported : IsSupported (b' ' ∷ [])
space-IsSupported = one-IsSupported b' ' (omega arith) (omega arith) (omega arith)

dot-IsSupported : {cs : List ℕ} → IsSupported cs → IsSupported (b'.' ∷ cs)
dot-IsSupported p = ascii (omega arith) (omega arith) (omega arith) p

replace_punctuation-IsSupported : (p : ℕ) → IsSupported (replace_punctuation p)
unfolding replace_punctuation
replace_punctuation-IsSupported p = elim (Bool-cases (between 0x98 0x9d p)) [
  | inl e ↦ rw e (one-IsSupported b'\'' (omega arith) (omega arith) (omega arith))
  | inr e ↦ elim (Bool-cases (p == 0x93 || p == 0x94)) [
    | inl f ↦ rw (e, f) (one-IsSupported b'-' (omega arith) (omega arith) (omega arith))
    | inr f ↦ elim (Bool-cases (p == 0xa6)) [
      | inl g ↦ rw (e, f, g) (dot-IsSupported (dot-IsSupported (dot-IsSupported nil)))
      | inr g ↦ rw (e, f, g) space-IsSupported
    ]
  ]
]

-- The test for a two-byte character that is kept, and the one for typographic punctuation.
abbrev keeps : ℕ → ℕ → Bool
keeps lead next =
    (encoded_length lead == 2 && not (next == 0))
    && (is_continuation next && is_supported_spanish lead next)

abbrev replaces : ℕ → ℕ → ℕ → Bool
replaces lead next after = lead == 0xe2 && (next == 0x80 && not (after == 0))

round-IsSupported : (lead : ℕ) (rest : List ℕ) → IsSupported (round lead rest).0
unfolding round
round-IsSupported lead rest =
    let next = get_or rest 0 0 in
    let after = get_or rest 1 0 in
    elim (Bool-cases (leb lead 0x7e)) [
      | inl a ↦
          let (lo, hi, ne) = normalize_ascii-range lead (ground arith) in
          rw a (one-IsSupported (normalize_ascii lead) lo hi ne)
      | inr a ↦ elim (Bool-cases (keeps lead next)) [
        | inl k ↦ rw (a, k) (spanish (ground arith) nil)
        | inr k ↦ elim (Bool-cases (replaces lead next after)) [
          | inl r ↦ rw (a, k, r) (replace_punctuation-IsSupported after)
          | inr r ↦ rw (a, k, r) space-IsSupported
        ]
      ]
    ]

emit_bytes-IsSupported :
    (out bytes : List ℕ) (size : ℕ)
    → IsSupported out
    → IsSupported bytes
    → IsSupported (emit_bytes out size bytes)
unfolding emit_bytes
emit_bytes-IsSupported out bytes size p q =
    elim (Bool-cases (ltb (length out + length bytes) size)) [
      | inl e ↦ rw e (IsSupported-append p q)
      | inr e ↦ rw e p
    ]

emit_bytes-fits :
    (out bytes : List ℕ) (size : ℕ) → length out < size → length (emit_bytes out size bytes) < size
unfolding emit_bytes
emit_bytes-fits out bytes size h = ground (arith, length-append out bytes)

sanitize_loop-good :
    (n : ℕ) (input : List ℕ) (size : ℕ) (out : List ℕ)
    → IsSupported out
    → length out < size
    → IsSupported (sanitize_loop n input size out)
      × (length (sanitize_loop n input size out) < size)
unfolding sanitize_loop
sanitize_loop-good zero input size out p h = (p, h)
sanitize_loop-good (suc n) [] size out p h = (p, h)
sanitize_loop-good (suc n) (lead ∷ rest) size out p h =
    let (bytes, consumed) = round lead rest in
    sanitize_loop-good n (drop consumed (lead ∷ rest)) size (emit_bytes out size bytes)
      (emit_bytes-IsSupported out bytes size p (round-IsSupported lead rest))
      (emit_bytes-fits out bytes size h)

-- The fuel never cuts the loop short: any two amounts of at least the input's length agree.
pub sanitize_loop_enough :
    (n m : ℕ) (input : List ℕ) (size : ℕ) (out : List ℕ)
    → length input ≤ n
    → length input ≤ m
    → sanitize_loop n input size out ≡ sanitize_loop m input size out
unfolding sanitize_loop
sanitize_loop_enough zero zero input size out h k = refl
sanitize_loop_enough zero (suc m) [] size out h k = refl
sanitize_loop_enough zero (suc m) (c ∷ cs) size out h k = elim h [ ]
sanitize_loop_enough (suc n) zero [] size out h k = refl
sanitize_loop_enough (suc n) zero (c ∷ cs) size out h k = elim k [ ]
sanitize_loop_enough (suc n) (suc m) [] size out h k = refl
sanitize_loop_enough (suc n) (suc m) (lead ∷ rest) size out h k =
    let consumed = (round lead rest).1 in
    let progress = round_progress lead rest in
    let left = length-drop consumed (lead ∷ rest) in
    sanitize_loop_enough n m (drop consumed (lead ∷ rest)) size
      (emit_bytes out size (round lead rest).0) (omega (arith, left, progress))
      (omega (arith, left, progress))

-- For a destination of at least one byte, sanitizing succeeds; what it writes leaves room for the
-- terminator, and is printable ASCII without double quotes and whole supported Spanish characters.
pub sanitize_good :
    (input : List ℕ) (out_size : ℕ)
    → 0 < out_size
    → (out : List ℕ) × (sanitize (some input) true out_size ≡ ok out)
      × IsSupported out
      × (length out < out_size)
unfolding sanitize
sanitize_good input size h =
    let (p, fits) = sanitize_loop-good (length input) input size [] nil h in
    let busy : (size == 0) ≡ false = ground arith in
    (sanitize_loop (length input) input size [], rw busy, p, fits)

round-ascii : (c : ℕ) (rest : List ℕ) → 0x20 ≤ c → c ≤ 0x7e → c ≢ b'"' → round c rest ≡ (c ∷ [], 1)
unfolding round normalize_ascii
round-ascii c rest lo hi ne = ground arith

-- A supported Spanish character is a well-formed two-byte sequence.
spanish-shape :
    (lead next : ℕ)
    → is_supported_spanish lead next ≡ true
    → (leb lead 0x7e ≡ false)
      × (encoded_length lead ≡ 2)
      × (is_continuation next ≡ true)
      × (next ≢ 0)
unfolding is_supported_spanish encoded_length is_continuation
spanish-shape lead next h = (ground arith, ground arith, ground arith, ground arith)

round-spanish :
    (lead next : ℕ) (rest : List ℕ)
    → is_supported_spanish lead next ≡ true
    → round lead (next ∷ rest) ≡ (lead ∷ next ∷ [], 2)
unfolding round
round-spanish lead next rest h =
    let (high, two, cont, ne) = spanish-shape lead next h in ground arith

emit_bytes-room :
    (out bytes : List ℕ) (size : ℕ)
    → length out + length bytes < size
    → emit_bytes out size bytes ≡ out ++ bytes
unfolding emit_bytes
emit_bytes-room out bytes size h = ground arith

sanitize_loop-supported :
    (n : ℕ) {input : List ℕ} (size : ℕ) (out : List ℕ)
    → IsSupported input
    → length input ≤ n
    → length out + length input < size
    → sanitize_loop n input size out ≡ out ++ input
unfolding sanitize_loop
sanitize_loop-supported zero size out nil h room = sym (append-nil out)
sanitize_loop-supported (suc n) size out nil h room = sym (append-nil out)
sanitize_loop-supported zero size out (ascii _ _ _ _) h room = elim h [ ]
sanitize_loop-supported zero size out (spanish _ _) h room = elim h [ ]
sanitize_loop-supported (suc n) size out (ascii {c} {cs} lo hi ne p) h room =
    rw (round-ascii c cs lo hi ne, emit_bytes-room out (c ∷ []) size (omega arith))
      (sanitize_loop-supported n size (out ++ (c ∷ [])) p (omega arith)
          (omega (arith, length-append out (c ∷ [])))
        ∙ append_assoc out (c ∷ []) cs)
sanitize_loop-supported (suc n) size out (spanish {lead} {next} {cs} s p) h room =
    let pair = lead ∷ next ∷ [] in
    rw (round-spanish lead next cs s, emit_bytes-room out pair size (omega arith))
      (sanitize_loop-supported n size (out ++ pair) p (omega arith)
          (omega (arith, length-append out pair))
        ∙ append_assoc out pair cs)

-- Supported text that fits in the destination with its terminator passes through unchanged.
pub sanitize-supported :
    {input : List ℕ} (out_size : ℕ)
    → IsSupported input
    → length input < out_size
    → sanitize (some input) true out_size ≡ ok input
unfolding sanitize
sanitize-supported {input} size p h =
    let busy : (size == 0) ≡ false = ground arith in
    rw busy (ap ok (sanitize_loop-supported (length input) size [] p (omega arith) (omega arith)))
