-- ===== src/Stt/Json/Skip.antt =====
-- A printed value is skipped, and nothing behind it.
use subtitle_overlay_fw.Base.{
  ℕ, zero, suc, ◌+◌, ◌*◌, ◌≤◌, ◌<◌, ◌≡◌, refl, ap, ◌∙◌, Bool, true, false, ◌||◌, none, List, [],
  ◌∷◌, ◌++◌, append_assoc, leb, length, length-append, ok, err, einval, arith,
}
use subtitle_overlay_fw.Stt.Json.{
  Floating, skip_whitespace, kind_of, scalar, closing, empty_container, comma, closed, malformed,
  after_member, skip_value_at, skip_members, skip_value, same, true_token, null_token, false_token,
  max_depth,
}
use subtitle_overlay_fw.Stt.Json.Text.{
  IsBlank, skip_whitespace-IsBlank, Delimited, IsToken, IsPrintable,
}
use subtitle_overlay_fw.Stt.Json.Tree.{
  Json, Members, null, yes, no, number, text, empty, container, last, more, opening, print_key,
  print, print_members, IsWellFormed, AreWellFormed,
}
use subtitle_overlay_fw.Stt.Json.Pieces.{
  Opens-append, Opens-IsInk, empty_container-Opens, number-plain, double_of-starts, print-Opens,
  print_members-Opens, ends_token-closing, Delimited-IsBlank, after_member-closing,
  after_member-comma, skip_key-print_key, print_key-append, length-print_key, skip_scalar-number,
  skip_scalar-word, skip_value_at-text, skip_value_at-empty,
}

module _ (f : Floating) (sp : List ℕ) (blank : IsBlank sp) where
  abbrev Skips : Json → Type 0
  Skips v =
      (k depth n : ℕ) (rest : List ℕ)
      → IsWellFormed f k v
      → depth + k ≡ 4
      → Delimited rest
      → 2 * length (print sp v) < n
      → skip_value_at f n depth (print sp v ++ rest) ≡ ok rest

  abbrev SkipsMembers : Members → Type 0
  SkipsMembers ms =
      (is_object : Bool) (k depth n : ℕ) (rest : List ℕ)
      → AreWellFormed f k ms
      → depth + k ≡ 3
      → suc (2 * length (print_members sp is_object ms)) < n
      → skip_members f n depth is_object (print_members sp is_object ms ++ rest) ≡ ok rest

  Skips-number : (token : List ℕ) → Skips (number token)
  unfolding print skip_value_at
  Skips-number [] k depth n rest w b d h = absurd w
  Skips-number (c ∷ cs) k depth zero rest w b d h = absurd (omega arith)
  Skips-number (c ∷ cs) k depth (suc n) rest w b d h =
      let plain = (number-plain c (double_of-starts f c cs w.1.0 w.1.1)).0 in
      rw (plain, skip_value_at) (skip_scalar-number f sp blank (c ∷ cs) rest w d)

  skip_value_at-opening :
      (is_object : Bool) (depth n : ℕ) (xs ys : List ℕ)
      → depth < 4
      → skip_whitespace xs ≡ ys
      → empty_container is_object ys ≡ none
      → skip_value_at f (suc n) depth (opening is_object ∷ xs) ≡ skip_members f n depth is_object ys
  unfolding skip_value_at
  skip_value_at-opening true depth n xs ys d s e =
      let deep : leb 4 depth ≡ false = ground arith in
      let none_ : empty_container true (skip_whitespace xs) ≡ none = rw s e in
      rw (deep, skip_value_at, none_) (ap (skip_members f n depth true) s)
  skip_value_at-opening false depth n xs ys d s e =
      let deep : leb 4 depth ≡ false = ground arith in
      let none_ : empty_container false (skip_whitespace xs) ≡ none = rw s e in
      rw (deep, skip_value_at, none_) (ap (skip_members f n depth false) s)

  Skips-container :
      (is_object : Bool) (ms : Members) → SkipsMembers ms → Skips (container is_object ms)
  unfolding print
  Skips-container is_object ms ih zero depth n rest w b d h = absurd w
  Skips-container is_object ms ih (suc k) depth zero rest w b d h = absurd (omega arith)
  Skips-container is_object ms ih (suc k) depth (suc n) rest w b d h =
      let body = print_members sp is_object ms in
      let opens = Opens-append body rest (print_members-Opens f sp blank is_object k ms w) in
      let skipped : skip_whitespace ((sp ++ body) ++ rest) ≡ body ++ rest =
        rw append_assoc
          (skip_whitespace-IsBlank sp (body ++ rest) blank (Opens-IsInk (body ++ rest) opens)) in
      let fuel : suc (2 * length body) < n = omega (arith, h, length-append sp body) in
      skip_value_at-opening is_object depth n ((sp ++ body) ++ rest) (body ++ rest)
        (omega (arith, b)) skipped (empty_container-Opens is_object (body ++ rest) opens)
      ∙ ih is_object k depth n rest w (omega (arith, b)) fuel

  -- One member: its key, its value, and what the step behind it makes of the rest
  skip_members-step :
      (is_object : Bool) (depth n : ℕ) (key : List ℕ) (v : Json) (tail : List ℕ) (k : ℕ)
      → IsPrintable key
      → IsWellFormed f k v
      → skip_value_at f n (depth + 1) (print sp v ++ tail) ≡ ok tail
      → skip_members f (suc n) depth is_object (print_key sp is_object key (print sp v ++ tail))
        ≡ elim (after_member is_object (skip_whitespace tail)) [
          | comma next ↦ skip_members f n depth is_object next
          | closed rest' ↦ ok rest'
          | malformed ↦ err einval
        ]
  unfolding skip_members
  skip_members-step is_object depth n key v tail k p w e =
      let ink =
        Opens-IsInk (print sp v ++ tail)
          (Opens-append (print sp v) tail (print-Opens f sp blank k v w)) in
      rw (skip_key-print_key f sp blank is_object key (print sp v ++ tail) p ink, skip_members, e)
        refl

  SkipsMembers-last : (key : List ℕ) (v : Json) → Skips v → SkipsMembers (last key v)
  unfolding print_members
  SkipsMembers-last key v ih is_object k depth zero rest w b h = absurd (omega arith)
  SkipsMembers-last key v ih is_object k depth (suc n) rest w b h =
      let tail = sp ++ closing is_object ∷ rest in
      let own = print sp v ++ (sp ++ closing is_object ∷ []) in
      let fuel : 2 * length (print sp v) < n = omega (
        arith,
        h,
        length-print_key f sp blank is_object key own,
        length-append (print sp v) (sp ++ closing is_object ∷ []),
        length-append sp (closing is_object ∷ []),
      ) in
      let value =
        ih k (depth + 1) n tail w.1 (omega (arith, b))
          (Delimited-IsBlank f sp blank (closing is_object) rest
            (ends_token-closing f sp blank is_object) sp blank)
          fuel in
      let shape : print_key sp is_object key own ++ rest
          ≡ print_key sp is_object key (print sp v ++ tail) =
        print_key-append f sp blank is_object key own rest
        ∙ ap (print_key sp is_object key) (simp append_assoc) in
      ap (skip_members f (suc n) depth is_object) shape
      ∙ skip_members-step is_object depth n key v tail k w.0 w.1 value
      ∙ rw (after_member-closing f sp blank is_object rest) refl

  SkipsMembers-more :
      (key : List ℕ) (v : Json) (ms : Members)
      → Skips v
      → SkipsMembers ms
      → SkipsMembers (more key v ms)
  unfolding print_members
  SkipsMembers-more key v ms ih ihs is_object k depth zero rest w b h = absurd (omega arith)
  SkipsMembers-more key v ms ih ihs is_object k depth (suc n) rest w b h =
      let others = print_members sp is_object ms in
      let tail = sp ++ b',' ∷ (sp ++ (others ++ rest)) in
      let own = print sp v ++ (sp ++ b',' ∷ (sp ++ others)) in
      let size : 1 + length (print sp v) + length others ≤ length (print_key sp is_object key own) =
        omega (
          arith,
          length-print_key f sp blank is_object key own,
          length-append (print sp v) (sp ++ b',' ∷ (sp ++ others)),
          length-append sp (b',' ∷ (sp ++ others)),
          length-append sp others,
        ) in
      let fuel : 2 * length (print sp v) < n = omega (arith, h, size) in
      let fuels : suc (2 * length others) < n = omega (arith, h, size) in
      let value =
        ih k (depth + 1) n tail w.1.0 (omega (arith, b))
          (Delimited-IsBlank f sp blank b',' (sp ++ (others ++ rest)) refl sp blank) fuel in
      let shape : print_key sp is_object key own ++ rest
          ≡ print_key sp is_object key (print sp v ++ tail) =
        print_key-append f sp blank is_object key own rest
        ∙ ap (print_key sp is_object key) (simp append_assoc) in
      let ink =
        Opens-IsInk (others ++ rest)
          (Opens-append others rest (print_members-Opens f sp blank is_object k ms w.1.1)) in
      ap (skip_members f (suc n) depth is_object) shape
      ∙ skip_members-step is_object depth n key v tail k w.0 w.1.0 value
      ∙ rw (after_member-comma f sp blank is_object (others ++ rest) ink)
          (ihs is_object k depth n rest w.1.1 b fuels)

  Skips-word :
      (v : Json) (c : ℕ) (cs : List ℕ)
      → print sp v ≡ c ∷ cs
      → kind_of c ≡ scalar
      → IsToken (c ∷ cs)
      → (same (c ∷ cs) true_token || (same (c ∷ cs) null_token || same (c ∷ cs) false_token)) ≡ true
      → Skips v
  unfolding skip_value_at
  Skips-word v c cs q kind t e k depth zero rest w b d h = absurd (omega arith)
  Skips-word v c cs q kind t e k depth (suc n) rest w b d h =
      rw (q, kind, skip_value_at) (skip_scalar-word f sp blank c cs rest t e d)

  Skips-text : (t : List ℕ) → Skips (text t)
  unfolding print
  Skips-text t k depth zero rest w b d h = absurd (omega arith)
  Skips-text t k depth (suc n) rest w b d h = skip_value_at-text f sp blank n depth t rest w

  Skips-empty : (is_object : Bool) → Skips (empty is_object)
  unfolding print
  Skips-empty is_object k depth zero rest w b d h = absurd (omega arith)
  Skips-empty is_object k depth (suc n) rest w b d h =
      rw append_assoc (skip_value_at-empty f sp blank n depth is_object rest (omega (arith, w, b)))

  -- A value of nesting at most 4 - depth is skipped at that depth, to the very character behind it.
  skip_value_at-print : (v : Json) → Skips v
  unfolding print same
  skip_value_at-print v = elim v as Skips SkipsMembers [
    | null ↦
        Skips-word null b'n' (b'u' ∷ b'l' ∷ b'l' ∷ []) refl refl (refl, (refl, (refl, (refl, tt))))
          refl
    | yes ↦
        Skips-word yes b't' (b'r' ∷ b'u' ∷ b'e' ∷ []) refl refl (refl, (refl, (refl, (refl, tt))))
          refl
    | no ↦
        Skips-word no b'f' (b'a' ∷ b'l' ∷ b's' ∷ b'e' ∷ []) refl refl
          (refl, (refl, (refl, (refl, (refl, tt))))) refl
    | number token ↦ Skips-number token
    | text t ↦ Skips-text t
    | empty is_object ↦ Skips-empty is_object
    | container is_object (ms → ih) ↦ Skips-container is_object ms ih
    | last key (w → ih) ↦ SkipsMembers-last key w ih
    | more key (w → ih) (ms → ihs) ↦ SkipsMembers-more key w ms ih ihs
  ]

  -- Any JSON value whose arrays and objects nest at most four deep, whose numbers are tokens that
  -- strtod reads whole and whose strings hold no control characters, printed with any whitespace
  -- between its tokens, is skipped exactly, whatever stands behind its delimiter: the fuel that is
  -- given is enough, and the cursor ends on the first character behind the value.
  pub skip_value-print :
      (v : Json) (rest : List ℕ)
      → IsWellFormed f max_depth v
      → Delimited rest
      → skip_value f (print sp v ++ rest) ≡ ok rest
  unfolding skip_value
  skip_value-print v rest w d =
      skip_value_at-print v 4 0 (2 * length (print sp v ++ rest) + 1) rest w refl d
        (omega (arith, length-append (print sp v) rest))
