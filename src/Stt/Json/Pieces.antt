-- ===== src/Stt/Json/Pieces.antt =====
-- What surrounds the members of a printed container, and the values that have none.
use subtitle_overlay_fw.Base.{
  ℕ, suc, ◌≤◌, ◌<◌, ◌≡◌, inl, inr, refl, Bool, true, false, ◌||◌, Bool-cases, none, List, [], ◌∷◌,
  ◌++◌, append_assoc, leb, between, ◌==◌, if◌then◌else◌, length, length-append, ok, arith,
}
use subtitle_overlay_fw.Stt.Json.{
  Floating, is_space, skip_whitespace, ends_token, kind_of, scalar, double_of, skip_scalar,
  skip_key, closing, empty_container, comma, closed, after_member, skip_value_at, parse_string,
  trim, nothing_written, same, true_token, null_token, false_token,
}
use subtitle_overlay_fw.Stt.Json.Text.{
  IsBlank, IsInk, skip_whitespace-IsBlank, Delimited, IsToken, scalar_span-IsToken, quote,
  IsPrintable, parse_string-quote, escape, put_all,
}
use subtitle_overlay_fw.Stt.Json.Tree.{
  Json, Members, null, yes, no, number, text, empty, container, last, more, opening, print_key,
  print, print_members, IsNumber, IsWellFormed, AreWellFormed,
}

-- Text that starts with neither whitespace nor a closing bracket
abbrev pub Opens : List ℕ → Type 0
Opens [] = ⊥
Opens (c ∷ cs) = (is_space c ≡ false) × (((c == b']') ≡ false) × ((c == b'}') ≡ false))

pub Opens-append : (xs ys : List ℕ) → Opens xs → Opens (xs ++ ys)
Opens-append [] ys o = absurd o
Opens-append (x ∷ xs) ys o = o

pub Opens-IsInk : (xs : List ℕ) → Opens xs → IsInk xs
Opens-IsInk [] o = absurd o
Opens-IsInk (x ∷ xs) o = o.0

pub empty_container-Opens :
    (is_object : Bool) (xs : List ℕ) → Opens xs → empty_container is_object xs ≡ none
empty_container-Opens is_object [] o = absurd o
empty_container-Opens true (x ∷ xs) o = rw o.1.1 refl
empty_container-Opens false (x ∷ xs) o = rw o.1.0 refl

pub number-plain :
    (c : ℕ) → (c == b'-' || between b'0' b'9' c) ≡ true → (kind_of c ≡ scalar) × Opens (c ∷ [])
number-plain c h = ground arith

pub double_of-starts :
    (f : Floating) (c : ℕ) (cs : List ℕ) (x : f.Double)
    → double_of f (c ∷ cs) ≡ ok x
    → (c == b'-' || between b'0' b'9' c) ≡ true
unfolding double_of
double_of-starts f c cs x e = elim (Bool-cases (c == b'-' || between b'0' b'9' c)) [
  | inl h ↦ h
  | inr h ↦ absurd (ground (arith, e, h))
]

module _ (f : Floating) (sp : List ℕ) (blank : IsBlank sp) where
  pub print-Opens : (depth : ℕ) (v : Json) → IsWellFormed f depth v → Opens (print sp v)
  unfolding print quote
  print-Opens depth (number []) w = absurd w
  print-Opens depth (number (c ∷ cs)) w = (number-plain c (double_of-starts f c cs w.1.0 w.1.1)).1
  print-Opens depth (empty true) w = (refl, (refl, refl))
  print-Opens depth (empty false) w = (refl, (refl, refl))
  print-Opens depth (container true ms) w = (refl, (refl, refl))
  print-Opens depth (container false ms) w = (refl, (refl, refl))
  print-Opens depth (text t) w = (refl, (refl, refl))
  print-Opens depth null w = (refl, (refl, refl))
  print-Opens depth yes w = (refl, (refl, refl))
  print-Opens depth no w = (refl, (refl, refl))

  pub print_members-Opens :
      (is_object : Bool) (depth : ℕ) (ms : Members)
      → AreWellFormed f depth ms
      → Opens (print_members sp is_object ms)
  unfolding print_members quote
  print_members-Opens true depth (last key v) w = (refl, (refl, refl))
  print_members-Opens true depth (more key v ms) w = (refl, (refl, refl))
  print_members-Opens false depth (last key v) w =
      Opens-append (print sp v) _ (print-Opens depth v w.1)
  print_members-Opens false depth (more key v ms) w =
      Opens-append (print sp v) _ (print-Opens depth v w.1.0)

  pub ends_token-closing : (is_object : Bool) → ends_token (closing is_object) ≡ true
  ends_token-closing true = refl
  ends_token-closing false = refl

  pub Delimited-IsBlank :
      (c : ℕ) (xs : List ℕ)
      → ends_token c ≡ true
      → (ys : List ℕ) → IsBlank ys
      → Delimited (ys ++ c ∷ xs)
  Delimited-IsBlank c xs e [] b = e
  Delimited-IsBlank c xs e (y ∷ ys) b = ground (arith, b.0)

  -- Whitespace and a closing bracket or a comma, behind a member
  pub after_member-closing :
      (is_object : Bool) (rest : List ℕ)
      → after_member is_object (skip_whitespace (sp ++ closing is_object ∷ rest)) ≡ closed rest
  unfolding after_member
  after_member-closing true rest = rw (skip_whitespace-IsBlank sp (b'}' ∷ rest) blank refl) refl
  after_member-closing false rest = rw (skip_whitespace-IsBlank sp (b']' ∷ rest) blank refl) refl

  pub after_member-comma :
      (is_object : Bool) (rest : List ℕ)
      → IsInk rest
      → after_member is_object (skip_whitespace (sp ++ b',' ∷ (sp ++ rest))) ≡ comma rest
  unfolding after_member
  after_member-comma is_object rest i =
      rw
        (
          skip_whitespace-IsBlank sp (b',' ∷ (sp ++ rest)) blank refl,
          skip_whitespace-IsBlank sp rest blank i,
        )
        refl

  -- The key of an object's member
  skip_key-quote :
      (key rest : List ℕ)
      → IsPrintable key
      → IsInk rest
      → skip_key (quote key ++ (sp ++ b':' ∷ (sp ++ rest))) ≡ ok rest
  unfolding skip_key
  skip_key-quote key rest p i =
      rw
        (
          parse_string-quote none key (sp ++ b':' ∷ (sp ++ rest)) p refl,
          skip_key,
          skip_whitespace-IsBlank sp (b':' ∷ (sp ++ rest)) blank refl,
          skip_whitespace-IsBlank sp rest blank i,
        )
        refl

  pub skip_key-print_key :
      (is_object : Bool) (key rest : List ℕ)
      → IsPrintable key
      → IsInk rest
      → (if is_object
          then skip_key (print_key sp is_object key rest)
          else ok (print_key sp is_object key rest))
        ≡ ok rest
  skip_key-print_key false key rest p i = refl
  skip_key-print_key true key rest p i = skip_key-quote key rest p i

  pub print_key-append :
      (is_object : Bool) (key xs ys : List ℕ)
      → print_key sp is_object key xs ++ ys ≡ print_key sp is_object key (xs ++ ys)
  print_key-append false key xs ys = refl
  print_key-append true key xs ys = simp append_assoc

  pub length-print_key :
      (is_object : Bool) (key xs : List ℕ) → length xs ≤ length (print_key sp is_object key xs)
  length-print_key false key xs = omega arith
  length-print_key true key xs = omega (
    arith,
    length-append (quote key) (sp ++ b':' ∷ (sp ++ xs)),
    length-append sp (b':' ∷ (sp ++ xs)),
    length-append sp xs,
  )

  pub skip_scalar-number :
      (token rest : List ℕ)
      → IsNumber f token
      → Delimited rest
      → skip_scalar f (token ++ rest) ≡ ok rest
  unfolding skip_scalar
  skip_scalar-number [] rest w d = absurd w
  skip_scalar-number (c ∷ cs) rest w d =
      let word =
        same (c ∷ cs) true_token || (same (c ∷ cs) null_token || same (c ∷ cs) false_token) in
      elim (Bool-cases word) [
        | inl e ↦ rw (scalar_span-IsToken c cs rest w.0 d, skip_scalar, e) refl
        | inr e ↦ rw (scalar_span-IsToken c cs rest w.0 d, skip_scalar, e, w.1.1) refl
      ]

  pub skip_scalar-word :
      (c : ℕ) (cs rest : List ℕ)
      → IsToken (c ∷ cs)
      → (same (c ∷ cs) true_token || (same (c ∷ cs) null_token || same (c ∷ cs) false_token)) ≡ true
      → Delimited rest
      → skip_scalar f (c ∷ (cs ++ rest)) ≡ ok rest
  unfolding skip_scalar
  skip_scalar-word c cs rest t e d = rw (scalar_span-IsToken c cs rest t d, skip_scalar, e) refl

  pub skip_value_at-text :
      (n depth : ℕ) (t rest : List ℕ)
      → IsPrintable t
      → skip_value_at f (suc n) depth (quote t ++ rest) ≡ ok rest
  unfolding skip_value_at quote
  skip_value_at-text n depth t rest p =
      let body = (escape t ++ (b'"' ∷ [])) ++ rest in
      let w = put_all none t nothing_written in
      let e : parse_string none false (b'"' ∷ body)
          ≡ ok ((if w.was_truncated then trim w.dst else w.dst, w.was_truncated), rest) =
        parse_string-quote none t rest p refl in
      rw (e, skip_value_at) refl

  pub skip_value_at-empty :
      (n depth : ℕ) (is_object : Bool) (rest : List ℕ)
      → depth < 4
      → skip_value_at f (suc n) depth (opening is_object ∷ (sp ++ closing is_object ∷ rest))
        ≡ ok rest
  unfolding skip_value_at
  skip_value_at-empty n depth true rest d =
      let deep : leb 4 depth ≡ false = ground arith in
      rw (deep, skip_value_at, skip_whitespace-IsBlank sp (b'}' ∷ rest) blank refl) refl
  skip_value_at-empty n depth false rest d =
      let deep : leb 4 depth ≡ false = ground arith in
      rw (deep, skip_value_at, skip_whitespace-IsBlank sp (b']' ∷ rest) blank refl) refl
