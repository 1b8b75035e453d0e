-- ===== src/Stt/EventRing/Evict.antt =====
-- The eviction loops against the list that they stand for.
use subtitle_overlay_fw.Base.{
  ℕ, zero, suc, ◌+◌, ◌-◌, ◌%◌, ◌≤◌, ◌<◌, ◌≡◌, ◌≢◌, refl, ap₂, ◌∙◌, true, false, List, [], ◌∷◌,
  arith, length, get_or, set, length-set, get_or-set_self, get_or-set_ne, window, window-mod,
  Bool-cases, inl, inr, ◌&&◌, ltb, leb, ◌==◌, if◌then◌else◌,
}
use subtitle_overlay_fw.Stt.EventRing.{
  Entry, EventRing, depth, zero_entry, find_victim, close_gap, evict,
}
use subtitle_overlay_fw.Stt.EventRing.Spec.{IsValid, contents, has_partial, remove_partial, shed}

abbrev at : List Entry → ℕ → Entry
at ring i = get_or ring (i % depth) zero_entry

at-set :
    (ring : List Entry) (head k m : ℕ) (x : Entry)
    → length ring ≡ depth
    → k < depth
    → m < depth
    → at (set ring ((head + k) % depth) x) (head + m) ≡ (if m == k then x else at ring (head + m))
at-set ring head k m x s hk hm = elim (Bool-cases (m == k)) [
  | inl e ↦
      let same : (head + m) % depth ≡ (head + k) % depth = ground arith in
      rw (e, same) (get_or-set_self ring ((head + k) % depth) x zero_entry (omega arith))
  | inr ne ↦
      let other : (head + k) % depth ≢ (head + m) % depth = ground arith in
      rw ne (get_or-set_ne ring ((head + k) % depth) ((head + m) % depth) x zero_entry other)
]

-- After the loop, the slots from the head's successor up to the victim hold what stood one slot
-- before, and the others are as they were.
abbrev moved : List Entry → ℕ → ℕ → ℕ → Entry
moved ring head k j = if ltb 0 j && leb j k then at ring (head + (j - 1)) else at ring (head + j)

moved-set :
    (ring : List Entry) (head k j : ℕ)
    → suc k < depth
    → j < depth
    → length ring ≡ depth
    → moved (set ring ((head + suc k) % depth) (at ring (head + k))) head k j
      ≡ moved ring head (suc k) j
moved-set ring head k j kd jd s =
    let x = at ring (head + k) in
    let here = at-set ring head (suc k) j x s kd jd in
    let before = at-set ring head (suc k) (j - 1) x s kd (omega arith) in
    ground (arith, here, before)

close_gap-at :
    (k n : ℕ) (ring : List Entry) (head j : ℕ)
    → k < n
    → k < depth
    → j < depth
    → head < depth
    → length ring ≡ depth
    → at (close_gap n ring head ((head + k) % depth)) (head + j) ≡ moved ring head k j
unfolding close_gap
close_gap-at k zero ring head j kn kd jd hd s = elim kn [ ]
close_gap-at zero (suc n) ring head j kn kd jd hd s =
    let e : (head + 0) % depth ≡ head = omega arith in rw e (ground arith)
close_gap-at (suc k) (suc n) ring head j kn kd jd hd s =
    let x = at ring (head + k) in
    let back : ((head + suc k) % depth + depth - 1) % depth ≡ (head + k) % depth = omega arith in
    let more : ((head + suc k) % depth == head) ≡ false = ground arith in
    let next = set ring ((head + suc k) % depth) x in
    rw (more, back)
      (close_gap-at k n next head j (omega arith) (omega arith) jd hd
          (length-set ring ((head + suc k) % depth) x ∙ s)
        ∙ moved-set ring head k j kd jd s)

abbrev remove_at : ℕ → List Entry → List Entry
remove_at k [] = []
remove_at zero (e ∷ es) = es
remove_at (suc k) (e ∷ es) = e ∷ remove_at k es

abbrev partial_index : List Entry → ℕ
partial_index [] = 0
partial_index (e ∷ es) = if e.is_final then suc (partial_index es) else 0

abbrev slots : List Entry → ℕ → ℕ → List Entry
slots ring = window ring depth zero_entry

remove_at-partial_index :
    (es : List Entry) → has_partial es ≡ true → remove_at (partial_index es) es ≡ remove_partial es
remove_at-partial_index [] h = refl
remove_at-partial_index (e ∷ es) h = ground (arith, remove_at-partial_index es)

partial_index-lt : (es : List Entry) → has_partial es ≡ true → partial_index es < length es
partial_index-lt [] h = cc
partial_index-lt (e ∷ es) h = ground (arith, partial_index-lt es)

slots-ext :
    (n h : ℕ) (ring ring' : List Entry)
    → ((j : ℕ) → j < n → at ring' (h + j) ≡ at ring (h + j))
    → slots ring' h n ≡ slots ring h n
slots-ext zero h ring ring' same = refl
slots-ext (suc n) h ring ring' same =
    let e : h + 0 ≡ h = omega arith in
    ap₂ ◌∷◌ (rw e at (same 0 (omega arith))) (
      slots-ext n (h + 1) ring ring' (λ j lt.
        let e' : h + suc j ≡ h + 1 + j = omega arith in rw e' at (same (suc j) (omega arith))))

slots-remove_at :
    (n k h : ℕ) (ring ring' : List Entry)
    → k ≤ n
    → ((j : ℕ)
        → j < n
        → at ring' (h + 1 + j) ≡ (if ltb j k then at ring (h + j) else at ring (h + 1 + j)))
    → slots ring' (h + 1) n ≡ remove_at k (slots ring h (suc n))
slots-remove_at n zero h ring ring' le same =
    slots-ext n (h + 1) ring ring' (λ j lt. same j lt ∙ ground arith)
slots-remove_at zero (suc k) h ring ring' le same = elim le [ ]
slots-remove_at (suc n) (suc k) h ring ring' le same =
    let e : h + 1 + 0 ≡ h + 1 = omega arith in
    let e' : h + 0 ≡ h = omega arith in
    ap₂ ◌∷◌ ((rw (e, e') at (same 0 (omega arith))) ∙ ground arith) (
      slots-remove_at n k (h + 1) ring ring' (omega arith) λ j lt.
        let a : h + 1 + suc j ≡ h + 1 + 1 + j = omega arith in
        let b : h + suc j ≡ h + 1 + j = omega arith in
        (rw (a, b) at (same (suc j) (omega arith))) ∙ ground arith)

find_victim_lem :
    (n : ℕ) (ring : List Entry) (head i : ℕ)
    → find_victim n ring head i ≡ (
        if has_partial (slots ring (head + i) n)
        then (head + i + partial_index (slots ring (head + i) n)) % depth
        else depth)
unfolding find_victim
find_victim_lem zero ring head i = refl
find_victim_lem (suc n) ring head i =
    let e : head + (i + 1) ≡ head + i + 1 = omega arith in
    ground (arith, rw e at (find_victim_lem n ring head (i + 1)))

-- The victim's offset from the head: the oldest partial's, or 0.
victim_offset : List Entry → ℕ
victim_offset es = if has_partial es then partial_index es else 0

remove_at-victim_offset : (es : List Entry) → remove_at (victim_offset es) es ≡ shed es
unfolding victim_offset shed
remove_at-victim_offset [] = refl
remove_at-victim_offset (e ∷ es) = ground (arith, remove_at-partial_index (e ∷ es))

victim_offset-lt : (es : List Entry) → 0 < length es → victim_offset es < length es
unfolding victim_offset
victim_offset-lt es h = ground (arith, partial_index-lt es)

victim_lem :
    (ring : List Entry) (head : ℕ)
    → head < depth
    → (let found = find_victim depth ring head 0 in if found == depth then head else found)
      ≡ (head + victim_offset (slots ring head depth)) % depth
unfolding victim_offset
victim_lem ring head h =
    let e : head + 0 ≡ head = omega arith in
    let found = find_victim_lem depth ring head 0 in ground (arith, rw e at found)

length-close_gap :
    (n : ℕ) (ring : List Entry) (head victim : ℕ)
    → length (close_gap n ring head victim) ≡ length ring
unfolding close_gap
length-close_gap zero ring head victim = refl
length-close_gap (suc n) ring head victim =
    let p = (victim + depth - 1) % depth in
    let x = get_or ring p zero_entry in
    ground (arith, length-close_gap n (set ring victim x) head p, length-set ring victim x)

pub evict-IsValid : {r : EventRing} → IsValid r → IsValid (evict r)
unfolding evict
evict-IsValid {r} v = record {
  slots = length-close_gap depth r.ring r.head _ ∙ v.slots;
  head_in = omega arith;
  count_in = omega (arith, v.count_in);
}

slots-close_gap :
    (n k head h : ℕ) (ring : List Entry)
    → suc n ≡ depth
    → k ≤ n
    → head < depth
    → length ring ≡ depth
    → h % depth ≡ (head + 1) % depth
    → slots (close_gap (suc n) ring head ((head + k) % depth)) h n
      ≡ remove_at k (slots ring head (suc n))
slots-close_gap n k head h ring d le hd s e =
    let ring' = close_gap (suc n) ring head ((head + k) % depth) in
    window-mod ring' depth zero_entry h (head + 1) n e
    ∙ slots-remove_at n k head ring ring' le λ j lt.
      let a : head + 1 + j ≡ head + suc j = omega arith in
      let b : suc j - 1 ≡ j = omega arith in
      rw a (
        close_gap-at k (suc n) ring head (suc j) (omega arith) (omega arith) (omega arith) hd s
        ∙ ground (arith, b))

-- On a full ring the two loops of stt_event_ring_push take out exactly the oldest partial, or the
-- oldest entry when all are final, and keep the order of the others.
pub evict_refines :
    {r : EventRing} → IsValid r → r.count ≡ depth → contents (evict r) ≡ shed (contents r)
unfolding evict
evict_refines {r} v full =
    let es = slots r.ring r.head depth in
    let k = victim_offset es in
    rw (victim_lem r.ring r.head v.head_in, full)
      (slots-close_gap 7 k r.head ((r.head + 1) % depth % 256) r.ring refl
          (omega (arith, victim_offset-lt es)) v.head_in v.slots (omega arith)
        ∙ remove_at-victim_offset es)
