-- ===== src/Stt/Transcript/Accept.antt =====
-- stt_transcript_parse_line takes in the members of a message one by one, whatever their order and the
-- whitespace, one and the same between every two tokens.
use subtitle_overlay_fw.Base.{
  ℕ, zero, suc, ◌<◌, ◌≡◌, inl, inr, refl, sym, ap, ◌∙◌, true, Bool-cases, Option, none, some, List,
  [], ◌∷◌, ◌++◌, append-nil, ltb, if◌then◌else◌, length, length-append, Result, Errno, Result-cases,
  ok, err, einval, arith,
}
use subtitle_overlay_fw.Stt.Json.{
  Floating, skip_whitespace, empty_container, After, comma, closed, malformed, after_member,
}
use subtitle_overlay_fw.Stt.Json.Text.{
  IsBlank, IsInk, skip_whitespace-IsBlank, Delimited, quote, IsPrintable,
}
use subtitle_overlay_fw.Stt.Json.Pieces.{
  Delimited-IsBlank, after_member-closing, after_member-comma,
}
use subtitle_overlay_fw.Stt.Transcript.{
  Field, field_of, Progress, begin, read_member, read_members, finish, parse_object,
  stt_transcript_parse_line,
}
use subtitle_overlay_fw.Stt.Transcript.Message.{
  Entry, seq_entry, final_entry, type_entry, start_entry, end_entry, text_entry, other_entry,
  entry_field, entry_key, print_value, print_entry, print_after, print_message, IsEntry, AreEntries,
  take_in, take_in_all, meaning,
}
use subtitle_overlay_fw.Stt.Transcript.Values.{
  field_of-IsOther, field_of-key_of, read_key-quote, print_value-IsInk, read_value-print,
}

-- Some lemmas about the six keys
entry_key-IsPrintable : (f : Floating) (e : Entry) → IsEntry f e → IsPrintable (entry_key e)
entry_key-IsPrintable f (seq_entry token) w = omega arith
entry_key-IsPrintable f (final_entry b) w = omega arith
entry_key-IsPrintable f (type_entry d) w = omega arith
entry_key-IsPrintable f (start_entry token) w = omega arith
entry_key-IsPrintable f (end_entry token) w = omega arith
entry_key-IsPrintable f (text_entry ps) w = omega arith
entry_key-IsPrintable f (other_entry key v) w = w.0

entry_key-field_of :
    (f : Floating) (e : Entry)
    → IsEntry f e
    → (if ltb 31 (length (entry_key e)) then none else field_of (entry_key e)) ≡ entry_field e
entry_key-field_of f (seq_entry token) w = field_of-key_of Field.seq
entry_key-field_of f (final_entry b) w = field_of-key_of Field.final
entry_key-field_of f (type_entry d) w = field_of-key_of Field.type
entry_key-field_of f (start_entry token) w = field_of-key_of Field.start
entry_key-field_of f (end_entry token) w = field_of-key_of Field.end
entry_key-field_of f (text_entry ps) w = field_of-key_of Field.text
entry_key-field_of f (other_entry key v) w = elim (Bool-cases (ltb 31 (length key))) [
  | inl long ↦ rw long refl
  | inr short ↦ rw short (field_of-IsOther key w.1.0)
]

module _ (f : Floating) (sp : List ℕ) (blank : IsBlank sp) where
  read_member-print :
      (e : Entry) (p : Progress f.Double) (rest : List ℕ)
      → IsEntry f e
      → Delimited rest
      → read_member f p (print_entry sp e rest) ≡ elim (take_in f (entry_field e) e p) [
        | err err' ↦ err err'
        | ok q ↦ ok (q, after_member true (skip_whitespace rest))
      ]
  unfolding read_member print_entry
  read_member-print e p rest w d =
      let value = print_value sp e ++ rest in
      let key =
        read_key-quote f sp blank (entry_key e) value (entry_key-IsPrintable f e w)
          (print_value-IsInk f sp blank e rest w)
        ∙ ap (λ (g : Option Field). ok (g, value)) (entry_key-field_of f e w) in
      rw (key, read_member, read_value-print f sp blank e p rest w d)
        (go (take_in f (entry_field e) e p))
    where
      go :
          (t : Result (Progress f.Double))
          → ◌≡◌ {A = Result (Progress f.Double × After)}
              (elim (elim t as (λ x. Result (Progress f.Double × List ℕ)) [
                | err err' ↦ err err'
                | ok q ↦ ok (q, rest)
              ]) [ err err' ↦ err err' | ok r ↦ ok (r.0, after_member true (skip_whitespace r.1)) ])
              (elim t [
                | err err' ↦ err err'
                | ok q ↦ ok (q, after_member true (skip_whitespace rest))
              ])
      go (err err') = refl
      go (ok q) = refl

  print_after-Delimited : (es : List Entry) → Delimited (print_after sp es)
  unfolding print_after
  print_after-Delimited [] = Delimited-IsBlank f sp blank b'}' sp refl sp blank
  print_after-Delimited (e ∷ es) =
      Delimited-IsBlank f sp blank b',' (sp ++ print_entry sp e (print_after sp es)) refl sp blank

  -- One round of the loop
  read_members-entry :
      (n : ℕ) (p : Progress f.Double) (e : Entry) (rest : List ℕ)
      → read_members f (suc n) p (print_entry sp e rest)
        ≡ elim (read_member f p (print_entry sp e rest)) [
          | err err' ↦ err err'
          | ok r ↦ elim r.1 [
            | comma next ↦ elim (empty_container true next) [
              | some rest' ↦ err einval
              | none ↦ read_members f n r.0 next
            ]
            | closed rest' ↦ ok (r.0, rest')
            | malformed ↦ err einval
          ]
        ]
  unfolding read_members print_entry quote skip_whitespace
  read_members-entry n p e rest = refl

  -- A member that is refused, and the last one
  read_members-err :
      (n : ℕ) (p : Progress f.Double) (e : Entry) (rest : List ℕ) (why : Errno)
      → IsEntry f e
      → Delimited rest
      → take_in f (entry_field e) e p ≡ err why
      → read_members f (suc n) p (print_entry sp e rest) ≡ err why
  read_members-err n p e rest why w d t =
      read_members-entry n p e rest ∙ rw (read_member-print e p rest w d, t) refl

  read_members-last :
      (n : ℕ) (p q : Progress f.Double) (e : Entry)
      → IsEntry f e
      → take_in f (entry_field e) e p ≡ ok q
      → read_members f (suc n) p (print_entry sp e (print_after sp [])) ≡ ok (q, sp)
  unfolding print_after
  read_members-last n p q e w t =
      let rest = sp ++ b'}' ∷ sp in
      let d = Delimited-IsBlank f sp blank b'}' sp refl sp blank in
      read_members-entry n p e rest
      ∙ rw (read_member-print e p rest w d, t, after_member-closing f sp blank true sp) refl

  read_members-more :
      (n : ℕ) (p q : Progress f.Double) (e e' : Entry) (es : List Entry)
      → IsEntry f e
      → take_in f (entry_field e) e p ≡ ok q
      → read_members f (suc n) p (print_entry sp e (print_after sp (e' ∷ es)))
        ≡ read_members f n q (print_entry sp e' (print_after sp es))
  unfolding print_after print_entry quote
  read_members-more n p q e e' es w t =
      let next = print_entry sp e' (print_after sp es) in
      let rest = sp ++ b',' ∷ (sp ++ next) in
      let d = Delimited-IsBlank f sp blank b',' (sp ++ next) refl sp blank in
      read_members-entry n p e rest
      ∙ rw (read_member-print e p rest w d, t, after_member-comma f sp blank true next refl) refl

  read_members-print :
      (es : List Entry) (e : Entry) (p : Progress f.Double) (n : ℕ)
      → IsEntry f e
      → AreEntries f es
      → length es < n
      → read_members f n p (print_entry sp e (print_after sp es))
        ≡ elim (take_in_all f (e ∷ es) p) [ err err' ↦ err err' | ok q ↦ ok (q, sp) ]
  unfolding take_in_all
  read_members-print es e p zero w ws h = absurd (omega (arith, h))
  read_members-print [] e p (suc n) w ws h = elim (Result-cases (take_in f (entry_field e) e p)) [
    | inl r ↦
        let (why, t) = r in
        read_members-err n p e (print_after sp []) why w (print_after-Delimited []) t
        ∙ rw (t, take_in_all) refl
    | inr r ↦ let (q, t) = r in read_members-last n p q e w t ∙ rw (t, take_in_all) refl
  ]
  read_members-print (e' ∷ es) e p (suc n) w ws h =
      let ih =
        λ (q : Progress f.Double). read_members-print es e' q n ws.0 ws.1 (omega (arith, h)) in
      let rest = print_after sp (e' ∷ es) in
      elim (Result-cases (take_in f (entry_field e) e p)) [
        | inl r ↦
            let (why, t) = r in
            read_members-err n p e rest why w (print_after-Delimited (e' ∷ es)) t
            ∙ rw (t, take_in_all) refl
        | inr r ↦
            let (q, t) = r in read_members-more n p q e e' es w t ∙ ih q ∙ rw (t, take_in_all) refl
      ]

  -- Enough members fit in a text of that length.
  length-print_after : (es : List Entry) → length es < length (print_after sp es)
  unfolding print_after print_entry
  length-print_after [] = omega (arith, length-append sp (b'}' ∷ sp))
  length-print_after (e ∷ es) =
      let rest = print_after sp es in
      let value = print_value sp e ++ rest in
      omega (
        arith,
        length-print_after es,
        length-append sp (b',' ∷ (sp ++ print_entry sp e rest)),
        length-append sp (print_entry sp e rest),
        length-append (quote (entry_key e)) (sp ++ b':' ∷ (sp ++ value)),
        length-append sp (b':' ∷ (sp ++ value)),
        length-append sp value,
        length-append (print_value sp e) rest,
      )

  read_members-blank :
      (n : ℕ) (p : Progress f.Double) (xs : List ℕ)
      → IsInk xs
      → read_members f n p (sp ++ xs) ≡ read_members f n p xs
  unfolding read_members
  read_members-blank zero p xs i = refl
  read_members-blank (suc n) p xs i =
      let bare : skip_whitespace xs ≡ xs = skip_whitespace-IsBlank [] xs tt i in
      let body : List ℕ → Result (Progress f.Double × List ℕ) = λ (c : List ℕ).
        elim (empty_container true c) [
          | some rest ↦ ok (p, rest)
          | none ↦ elim (read_member f p c) [
            | err e ↦ err e
            | ok r ↦ elim r.1 [
              | comma next ↦ elim (empty_container true next) [
                | some rest ↦ err einval
                | none ↦ read_members f n r.0 next
              ]
              | closed rest ↦ ok (r.0, rest)
              | malformed ↦ err einval
            ]
          ]
        ] in
      ap body (skip_whitespace-IsBlank sp xs blank i ∙ sym bare)

  read_members-closing :
      (n : ℕ) (p : Progress f.Double) (xs : List ℕ)
      → read_members f (suc n) p (b'}' ∷ xs) ≡ ok (p, xs)
  unfolding read_members skip_whitespace
  read_members-closing n p xs = refl

  skip_whitespace-blank : skip_whitespace sp ≡ []
  skip_whitespace-blank =
      ap skip_whitespace (sym (append-nil sp)) ∙ skip_whitespace-IsBlank sp [] blank tt

  -- The object is read to its end.
  parse_object-print :
      (xs : List ℕ) (r : Result (Progress f.Double))
      → IsInk xs
      → read_members f (suc (length (sp ++ xs))) (begin f) xs
        ≡ elim r [ err e ↦ err e | ok q ↦ ok (q, sp) ]
      → parse_object f (skip_whitespace (sp ++ b'{' ∷ (sp ++ xs)))
        ≡ elim r [ err e ↦ err e | ok p ↦ finish f p true ]
  unfolding parse_object
  parse_object-print xs (err e) i h =
      let all = read_members-blank (suc (length (sp ++ xs))) (begin f) xs i ∙ h in
      rw (skip_whitespace-IsBlank sp (b'{' ∷ (sp ++ xs)) blank refl, parse_object, all) refl
  parse_object-print xs (ok q) i h =
      let all = read_members-blank (suc (length (sp ++ xs))) (begin f) xs i ∙ h in
      rw
        (
          skip_whitespace-IsBlank sp (b'{' ∷ (sp ++ xs)) blank refl,
          parse_object,
          all,
          skip_whitespace-blank,
        )
        refl

  -- A message of any members in any order, with one and the same whitespace between every two tokens:
  -- the members are taken in one by one, whatever has another key is skipped, and the checks on the
  -- whole decide.
  pub stt_transcript_parse_line-print_message :
      (es : List Entry)
      → AreEntries f es
      → stt_transcript_parse_line f (some (print_message sp es)) true ≡ meaning f es
  unfolding stt_transcript_parse_line print_message meaning take_in_all print_entry quote
  stt_transcript_parse_line-print_message [] w =
      parse_object-print (b'}' ∷ sp) (ok (begin f)) refl
        (read_members-closing (length (sp ++ b'}' ∷ sp)) (begin f) sp)
  stt_transcript_parse_line-print_message (e ∷ es) w =
      let xs = print_entry sp e (print_after sp es) in
      let value = print_value sp e ++ print_after sp es in
      let fuel : length es < suc (length (sp ++ xs)) = omega (
        arith,
        length-print_after es,
        length-append sp xs,
        length-append (quote (entry_key e)) (sp ++ b':' ∷ (sp ++ value)),
        length-append sp (b':' ∷ (sp ++ value)),
        length-append sp value,
        length-append (print_value sp e) (print_after sp es),
      ) in
      parse_object-print xs (take_in_all f (e ∷ es) (begin f)) refl
        (read_members-print es e (begin f) (suc (length (sp ++ xs))) w.0 w.1 fuel)
