-- ===== src/Stt/Transcript/Values.antt =====
-- Each printed key and value is read back.
use subtitle_overlay_fw.Base.{
  ℕ, ◌≤◌, ◌≡◌, ◌≢◌, inl, inr, refl, ap₂, Bool, true, false, Bool-cases, Option, none, some, List,
  [], ◌∷◌, ◌++◌, ltb, if◌then◌else◌, length, take, take-all, ok, err, arith,
}
use subtitle_overlay_fw.Utils.NumberParse.{number_parse_u32}
use subtitle_overlay_fw.Utils.NumberParse.Decimal.{IsDigits, decimal, number_parse_u32-eq-ok}
use subtitle_overlay_fw.Stt.Json.{
  Floating, skip_whitespace, parse_string, parse_u32, parse_bool, bool_of, parse_double, double_of,
  same, nothing_written, true_token, false_token, skip_value, put,
}
use subtitle_overlay_fw.Stt.Json.Text.{
  IsBlank, IsInk, skip_whitespace-IsBlank, Delimited, IsToken, scalar_span-IsToken, quote,
  IsPrintable, put_all, parse_string-quote, parse_string-quote_nonempty,
}
use subtitle_overlay_fw.Stt.Json.Truncate.{put_all-take, parse_string-fit_whole_nonempty}
use subtitle_overlay_fw.Stt.Json.Tree.{IsNumber, print}
use subtitle_overlay_fw.Stt.Json.Pieces.{
  number-plain, double_of-starts, Opens, Opens-append, Opens-IsInk, print-Opens,
}
use subtitle_overlay_fw.Stt.Json.Skip.{skip_value-print}
use subtitle_overlay_fw.Stt.Transcript.{
  Field, seq, type, start, end, text, key_of, Dialect, partial, transcript, field_of, dialect_of,
  Progress, read_field, read_key, read_value,
}
use subtitle_overlay_fw.Stt.Transcript.Message.{
  type_word, IsOther, Entry, seq_entry, final_entry, type_entry, start_entry, end_entry, text_entry,
  other_entry, entry_field, print_value, IsEntry, double_or, store, take_in,
}

IsDigits-IsToken : (cs : List ℕ) → IsDigits cs → IsToken cs
IsDigits-IsToken [] d = tt
IsDigits-IsToken (c ∷ cs) d = (ground (arith, d.0, d.1), IsDigits-IsToken cs d.2)

pub parse_u32-IsDigits :
    (c : ℕ) (cs rest : List ℕ)
    → IsDigits (c ∷ cs)
    → decimal (c ∷ cs) ≤ 4294967295
    → Delimited rest
    → parse_u32 (c ∷ (cs ++ rest)) ≡ ok (decimal (c ∷ cs), rest)
unfolding parse_u32
parse_u32-IsDigits c cs rest d le h =
    let token = c ∷ cs in
    let span = scalar_span-IsToken c cs rest (IsDigits-IsToken token d) h in
    let filled : token ≢ [] = λ e. cc in
    let number : number_parse_u32 (some token) 0 4294967295 true ≡ ok (decimal token) =
      (number_parse_u32-eq-ok 0 4294967295 token (decimal token) (omega arith) (omega arith)).1
        (filled, d, refl, omega arith, le) in
    rw (span, parse_u32, number) refl

pub parse_bool-word :
    (b : Bool) (rest : List ℕ)
    → Delimited rest
    → parse_bool ((if b then true_token else false_token) ++ rest) ≡ ok (b, rest)
unfolding parse_bool bool_of same
parse_bool-word true rest h =
    rw
      (
        scalar_span-IsToken b't' (b'r' ∷ b'u' ∷ b'e' ∷ []) rest (refl, (refl, (refl, (refl, tt))))
            h,
        parse_bool,
      )
      refl
parse_bool-word false rest h =
    rw
      (
        scalar_span-IsToken b'f' (b'a' ∷ b'l' ∷ b's' ∷ b'e' ∷ []) rest
            (refl, (refl, (refl, (refl, (refl, tt))))) h,
        parse_bool,
      )
      refl

pub double_of-strtod :
    (f : Floating) (token : List ℕ) (x d : f.Double)
    → double_of f token ≡ ok x
    → double_or f d (f.strtod token) ≡ x
unfolding double_of
double_of-strtod f token x d e = ground (arith, e)

pub parse_double-IsNumber :
    (f : Floating) (token rest : List ℕ) (d : f.Double)
    → IsNumber f token
    → Delimited rest
    → parse_double f (token ++ rest) ≡ ok (double_or f d (f.strtod token), rest)
unfolding parse_double
parse_double-IsNumber f [] rest d n h = absurd n
parse_double-IsNumber f (c ∷ cs) rest d n h =
    rw
      (
        scalar_span-IsToken c cs rest n.0 h,
        parse_double,
        n.1.1,
        double_of-strtod f (c ∷ cs) n.1.0 d n.1.1,
      )
      refl

dialect_of-type_word : (d : Dialect) → dialect_of (type_word d) ≡ ok d
unfolding dialect_of same
dialect_of-type_word Dialect.final = refl
dialect_of-type_word partial = refl
dialect_of-type_word transcript = refl

parse_string-type_word :
    (d : Dialect) (rest : List ℕ)
    → parse_string (some 16) true (quote (type_word d) ++ rest) ≡ ok ((type_word d, false), rest)
unfolding put_all put
parse_string-type_word Dialect.final rest =
    parse_string-quote_nonempty (some 16) b'f' (b'i' ∷ b'n' ∷ b'a' ∷ b'l' ∷ []) rest (omega arith)
      refl
parse_string-type_word partial rest =
    parse_string-quote_nonempty (some 16) b'p' (b'a' ∷ b'r' ∷ b't' ∷ b'i' ∷ b'a' ∷ b'l' ∷ []) rest
      (omega arith) refl
parse_string-type_word transcript rest =
    parse_string-quote_nonempty (some 16) b't'
      (b'r' ∷ b'a' ∷ b'n' ∷ b's' ∷ b'c' ∷ b'r' ∷ b'i' ∷ b'p' ∷ b't' ∷ []) rest (omega arith) refl

pub field_of-key_of : (g : Field) → field_of (key_of g) ≡ some g
unfolding field_of same
field_of-key_of seq = refl
field_of-key_of Field.final = refl
field_of-key_of type = refl
field_of-key_of start = refl
field_of-key_of end = refl
field_of-key_of text = refl

same-eq : (xs ys : List ℕ) → same xs ys ≡ true → xs ≡ ys
unfolding same
same-eq [] [] e = refl
same-eq [] (y ∷ ys) e = cc
same-eq (x ∷ xs) [] e = cc
same-eq (x ∷ xs) (y ∷ ys) e =
    let here : x ≡ y = ground (arith, e) in
    let there : same xs ys ≡ true = ground (arith, e) in
    ap₂ (λ a l. a ∷ l) here (same-eq xs ys there)

differ : (xs ys : List ℕ) → xs ≢ ys → same xs ys ≡ false
differ xs ys ne = elim (Bool-cases (same xs ys)) [
  | inl t ↦ absurd (ne (same-eq xs ys t))
  | inr f ↦ f
]

-- A key that is none of the six
pub field_of-IsOther : (key : List ℕ) → IsOther key → field_of key ≡ none
unfolding field_of
field_of-IsOther key (a, (b, (c, (d, (e, g))))) =
    rw
      (
        differ key _ a,
        differ key _ b,
        differ key _ c,
        differ key _ d,
        differ key _ e,
        differ key _ g,
      )
      refl

module _ (f : Floating) (sp : List ℕ) (blank : IsBlank sp) where
  -- The key, the colon and the whitespace around it; a key that does not fit in the buffer is unknown.
  pub read_key-quote :
      (key rest : List ℕ)
      → IsPrintable key
      → IsInk rest
      → read_key f (quote key ++ (sp ++ b':' ∷ (sp ++ rest)))
        ≡ ok (if ltb 31 (length key) then none else field_of key, rest)
  unfolding read_key
  read_key-quote key rest p i =
      let behind = sp ++ b':' ∷ (sp ++ rest) in
      let w = put_all (some 32) key nothing_written in
      let stored = put_all-take 32 key nothing_written (omega arith) in
      let flag : w.was_truncated ≡ ltb 31 (length key) = stored.1 in
      let bytes : w.dst ≡ take 31 key = stored.0 in
      let colon : skip_whitespace behind ≡ b':' ∷ (sp ++ rest) =
        skip_whitespace-IsBlank sp (b':' ∷ (sp ++ rest)) blank refl in
      let next : skip_whitespace (sp ++ rest) ≡ rest = skip_whitespace-IsBlank sp rest blank i in
      elim (Bool-cases (ltb 31 (length key))) [
        | inl long ↦
            rw (parse_string-quote (some 32) key behind p refl, read_key, colon, next, flag, long)
              refl
        | inr short ↦
            let whole : take 31 key ≡ key = take-all 31 key (ground (arith, short)) in
            rw
              (
                parse_string-quote (some 32) key behind p refl,
                read_key,
                colon,
                next,
                flag,
                short,
                bytes,
                whole,
              )
              refl
      ]

  number-Opens : (token : List ℕ) → IsNumber f token → Opens token
  number-Opens [] n = absurd n
  number-Opens (c ∷ cs) n = (number-plain c (double_of-starts f c cs n.1.0 n.1.1)).1

  pub print_value-IsInk :
      (e : Entry) (rest : List ℕ) → IsEntry f e → IsInk (print_value sp e ++ rest)
  unfolding quote
  print_value-IsInk (seq_entry []) rest w = absurd w
  print_value-IsInk (seq_entry (c ∷ cs)) rest w = ground (arith, w.0.0, w.0.1)
  print_value-IsInk (final_entry true) rest w = refl
  print_value-IsInk (final_entry false) rest w = refl
  print_value-IsInk (type_entry d) rest w = refl
  print_value-IsInk (start_entry token) rest w =
      Opens-IsInk (token ++ rest) (Opens-append token rest (number-Opens token w))
  print_value-IsInk (end_entry token) rest w =
      Opens-IsInk (token ++ rest) (Opens-append token rest (number-Opens token w))
  print_value-IsInk (text_entry ps) rest w = refl
  print_value-IsInk (other_entry key v) rest w =
      Opens-IsInk (print sp v ++ rest)
        (Opens-append (print sp v) rest (print-Opens f sp blank 4 v w.1.1))

  -- The value of each of the six fields
  abbrev Reads : Option Field → Entry → Progress f.Double → List ℕ → Type 0
  Reads none e p rest = skip_value f (print_value sp e ++ rest) ≡ ok rest
  Reads (some g) e p rest = read_field f g p (print_value sp e ++ rest) ≡ ok (store f e p, rest)

  read_field-print :
      (e : Entry) (p : Progress f.Double) (rest : List ℕ)
      → IsEntry f e
      → Delimited rest
      → Reads (entry_field e) e p rest
  unfolding read_field
  read_field-print (seq_entry []) p rest w d = absurd w
  read_field-print (seq_entry (c ∷ cs)) p rest w d =
      rw (parse_u32-IsDigits c cs rest w.0 w.1 d, read_field) refl
  read_field-print (final_entry b) p rest w d = rw (parse_bool-word b rest d, read_field) refl
  read_field-print (type_entry dialect) p rest w d =
      rw (parse_string-type_word dialect rest, read_field, dialect_of-type_word dialect) refl
  read_field-print (start_entry token) p rest w d =
      rw (parse_double-IsNumber f token rest p.start_sec w d, read_field) refl
  read_field-print (end_entry token) p rest w d =
      rw (parse_double-IsNumber f token rest p.end_sec w d, read_field) refl
  read_field-print (text_entry []) p rest w d = absurd w
  read_field-print (text_entry (q ∷ qs)) p rest w d =
      rw (parse_string-fit_whole_nonempty 128 q qs rest (omega arith) w.0 w.1, read_field) refl
  read_field-print (other_entry key v) p rest w d = skip_value-print f sp blank v rest w.1.1 d

  -- A member whose key was read: the value is taken in, or the key came before.
  pub read_value-print :
      (e : Entry) (p : Progress f.Double) (rest : List ℕ)
      → IsEntry f e
      → Delimited rest
      → read_value f (entry_field e) p (print_value sp e ++ rest)
        ≡ elim (take_in f (entry_field e) e p) [ err err' ↦ err err' | ok q ↦ ok (q, rest) ]
  unfolding read_value
  read_value-print e p rest w d = go (entry_field e) refl (read_field-print e p rest w d)
    where
      go :
          (field : Option Field)
          → entry_field e ≡ field
          → Reads field e p rest
          → read_value f field p (print_value sp e ++ rest)
            ≡ elim (take_in f field e p) [ err err' ↦ err err' | ok q ↦ ok (q, rest) ]
      go none s r = rw (r, read_value) refl
      go (some g) s r = elim (Bool-cases (p.seen g)) [
        | inl twice ↦ rw twice refl
        | inr once ↦ rw (once, r, read_value) refl
      ]
