-- ===== src/Stt/EventRing/Push.antt =====
-- stt_event_ring_push on the list of entries.
use subtitle_overlay_fw.Base.{
  ℕ, suc, ◌+◌, ◌%◌, ◌≤◌, ◌<◌, ◌≡◌, ◌≢◌, refl, ap, ap₂, ◌∙◌, Bool, true, false, none, some, List, [],
  ◌∷◌, ◌++◌, arith, length, set, length-set, window-write, window, Bool-cases, inl, inr, ◌⊎◌, leb,
  ◌==◌, if◌then◌else◌, ok, err, einval,
}
use subtitle_overlay_fw.Stt.EventRing.{
  Entry, EventRing, TextEvent, Parser, depth, line_max, zero_entry, evict, store, push,
}
use subtitle_overlay_fw.Stt.EventRing.Spec.{
  IsValid, contents, has_partial, remove_partial, shed, finals,
}
use subtitle_overlay_fw.Stt.EventRing.Evict.{evict-IsValid, evict_refines}

abbrev pub entry_of : EventRing → List ℕ → Bool → Entry
entry_of r line is_final = record {
  line = line;
  length = length line;
  is_final = is_final;
  session_generation = r.session_generation;
}

contents-store :
    {r : EventRing} (line : List ℕ) (f : Bool)
    → IsValid r
    → r.count < depth
    → length line < line_max
    → contents (store r line f) ≡ contents r ++ (entry_of r line f ∷ [])
unfolding store
contents-store {r} line f v room short =
    let e : (r.count + 1) % 256 ≡ suc r.count = omega arith in
    let e' : length line % 65536 ≡ length line = omega arith in
    ap₂
      (λ l n.
        window (set r.ring ((r.head + r.count) % depth) (record (entry_of r line f) { length = l }))
          depth zero_entry r.head n)
      e' e
    ∙ window-write r.ring depth zero_entry r.head r.count (entry_of r line f)
        (omega (arith, v.slots)) (λ j lt. omega (arith, v.head_in))

store-IsValid :
    {r : EventRing} (line : List ℕ) (f : Bool)
    → IsValid r
    → r.count < depth
    → IsValid (store r line f)
unfolding store
store-IsValid {r} line f v room = record {
  slots = length-set r.ring ((r.head + r.count) % depth) _ ∙ v.slots;
  head_in = v.head_in;
  count_in = omega arith;
}

-- The ring that the line is stored in.
abbrev made_room : EventRing → EventRing
made_room r = if r.count == depth then evict r else r

made_room-IsValid : {r : EventRing} → IsValid r → IsValid (made_room r)
made_room-IsValid {r} v = elim (Bool-cases (r.count == depth)) [
  | inl e ↦ rw e (evict-IsValid v)
  | inr e ↦ rw e v
]

count-made_room : {r : EventRing} → IsValid r → (made_room r).count < depth
unfolding evict
count-made_room v = ground (arith, v.count_in)

generation-made_room : (r : EventRing) → (made_room r).session_generation ≡ r.session_generation
unfolding evict
generation-made_room r = ground arith

-- What a push leaves of the entries that were buffered before.
abbrev pub kept : EventRing → List Entry
kept r = if r.count == depth then shed (contents r) else contents r

contents-made_room : {r : EventRing} → IsValid r → contents (made_room r) ≡ kept r
contents-made_room {r} v = elim (Bool-cases (r.count == depth)) [
  | inl e ↦ rw e (evict_refines v (ground arith))
  | inr e ↦ rw e
]

module _ (parse_line : Parser) where
  -- A line below the size limit that parses is stored last, under the present session generation
  -- and with the parsed finality, which is also the result; a full ring first gives up its oldest
  -- partial, or its oldest entry when all are final. The ring stays well formed.
  pub push_stores :
      {r : EventRing} (line : List ℕ) (parsed : TextEvent)
      → IsValid r
      → length line < line_max
      → parse_line line ≡ some parsed
      → ((push parse_line r line).0 ≡ ok parsed.is_final)
        × (contents (push parse_line r line).1 ≡ kept r ++ (entry_of r line parsed.is_final ∷ []))
        × IsValid (push parse_line r line).1
  unfolding push
  push_stores {r} line parsed v short e =
      let fits : leb line_max (length line) ≡ false = ground arith in
      rw (fits, e)
        (
          refl,
          contents-store {r = made_room r} line parsed.is_final (made_room-IsValid v)
                (count-made_room v) short
              ∙ ap₂ ◌++◌ (contents-made_room v) (
                  ap (λ g. record (entry_of r line parsed.is_final) { session_generation = g } ∷ [])
                    (generation-made_room r)),
          store-IsValid {r = made_room r} line parsed.is_final (made_room-IsValid v)
              (count-made_room v),
        )

  -- A line that is too long or does not parse is refused with -EINVAL, and the ring is unchanged.
  pub push_refused :
      (r : EventRing) (line : List ℕ)
      → (line_max ≤ length line) ⊎ (parse_line line ≡ none)
      → push parse_line r line ≡ (err einval, r)
  unfolding push
  push_refused r line h = ground arith

finals-append : (xs ys : List Entry) → finals (xs ++ ys) ≡ finals xs ++ finals ys
finals-append [] ys = refl
finals-append (x ∷ xs) ys = ground (arith, finals-append xs ys)

finals-remove_partial : (es : List Entry) → finals (remove_partial es) ≡ finals es
finals-remove_partial [] = refl
finals-remove_partial (e ∷ es) = ground (arith, finals-remove_partial es)

finals-kept :
    (r : EventRing)
    → (r.count ≢ depth) ⊎ (has_partial (contents r) ≡ true)
    → finals (kept r) ≡ finals (contents r)
unfolding shed
finals-kept r h = ground (arith, finals-remove_partial (contents r))

-- While a partial is buffered, or there is room, a push of a line below 1280 bytes that parses loses
-- no final transcript: the finals in a well-formed ring are those that it held, followed by the new
-- one if it is final.
pub finals-push :
    (parse_line : Parser) {r : EventRing} (line : List ℕ) (parsed : TextEvent)
    → IsValid r
    → length line < line_max
    → parse_line line ≡ some parsed
    → (r.count ≢ depth) ⊎ (has_partial (contents r) ≡ true)
    → finals (contents (push parse_line r line).1)
      ≡ finals (contents r) ++ finals (entry_of r line parsed.is_final ∷ [])
finals-push parse_line {r} line parsed v short e h =
    let (_, after, _) = push_stores parse_line line parsed v short e in
    ap finals after
    ∙ finals-append (kept r) (entry_of r line parsed.is_final ∷ [])
    ∙ ap (λ l. l ++ finals (entry_of r line parsed.is_final ∷ [])) (finals-kept r h)
