-- ===== src/Stt/WsFrame/Sha1/Stream.antt =====
-- SHA-1 as a stream: how the bytes are cut into calls does not matter, and the padding ends.
use subtitle_overlay_fw.Base.{
  ℕ, zero, suc, ◌+◌, ◌-◌, ◌*◌, ◌%◌, ◌^◌, ◌≡◌, ◌≤◌, ◌<◌, ◌≢◌, ap₂, refl, sym, ap, ◌∙◌, Bool-cases,
  inl, inr, List, [], ◌∷◌, ◌++◌, ◌==◌, ==_iff, length, take, drop, append_assoc, append-nil,
  length-append, arith,
}
use subtitle_overlay_fw.Stt.WsFrame.Sha1.{Sha1Ctx, flush, update_loop, sha1_update, pad}

-- One byte at a time
unfoldable pub absorb : Sha1Ctx → List ℕ → Sha1Ctx
absorb ctx [] = ctx
absorb ctx (x ∷ xs) = absorb (flush (record ctx { block = ctx.block ++ x ∷ [] })) xs

absorb-append : (ctx : Sha1Ctx) (xs ys : List ℕ) → absorb ctx (xs ++ ys) ≡ absorb (absorb ctx xs) ys
unfolding absorb
absorb-append ctx [] ys = refl
absorb-append ctx (x ∷ xs) ys =
    absorb-append (flush (record ctx { block = ctx.block ++ x ∷ [] })) xs ys

flush-short : (ctx : Sha1Ctx) → length ctx.block < 64 → flush ctx ≡ ctx
unfolding flush
flush-short ctx h = ground (arith, h)

flush-room : (ctx : Sha1Ctx) → length ctx.block ≤ 64 → length (flush ctx).block < 64
unfolding flush
flush-room ctx h = ground (arith, h)

-- Bytes that fit in the block are one round of the loop.
absorb-chunk :
    (ctx : Sha1Ctx) (xs : List ℕ)
    → length ctx.block + length xs ≤ 64
    → length ctx.block < 64
    → absorb ctx xs ≡ flush (record ctx { block = ctx.block ++ xs })
unfolding absorb
absorb-chunk ctx [] h k = rw (append-nil ctx.block) (sym (flush-short ctx k))
absorb-chunk ctx (x ∷ []) h k = refl
absorb-chunk ctx (x ∷ y ∷ ys) h k =
    let one = record ctx { block = ctx.block ++ x ∷ [] } in
    let len = length-append ctx.block (x ∷ []) in
    rw (flush-short one (omega (arith, len))) (
      absorb-chunk one (y ∷ ys) (omega (arith, len)) (omega (arith, len))
      ∙ ap (λ b. flush (record ctx { block = b })) (append_assoc ctx.block (x ∷ []) (y ∷ ys)))

take-drop {ℓ} : {A : Type ℓ} (n : ℕ) (xs : List A) → take n xs ++ drop n xs ≡ xs
take-drop zero xs = refl
take-drop (suc n) [] = refl
take-drop (suc n) (x ∷ xs) = ap (◌∷◌ x) (take-drop n xs)

length-take-drop {ℓ} :
    {A : Type ℓ} (n : ℕ) (xs : List A)
    → (length (take n xs) ≤ n) × (length (take n xs) + length (drop n xs) ≡ length xs)
length-take-drop zero xs = omega arith
length-take-drop (suc n) [] = omega arith
length-take-drop (suc n) (x ∷ xs) = omega (arith, length-take-drop n xs)

length-drop_suc {ℓ} :
    {A : Type ℓ} (n : ℕ) (x : A) (xs : List A) → 0 < n → length (drop n (x ∷ xs)) ≤ length xs
length-drop_suc zero x xs h = elim h [ ]
length-drop_suc (suc n) x xs h = omega (arith, length-take-drop n xs)

absorb-room :
    (ctx : Sha1Ctx) (xs : List ℕ) → length ctx.block < 64 → length (absorb ctx xs).block < 64
unfolding absorb
absorb-room ctx [] h = h
absorb-room ctx (x ∷ xs) h =
    let one = record ctx { block = ctx.block ++ x ∷ [] } in
    absorb-room (flush one) xs (flush-room one (omega (arith, length-append ctx.block (x ∷ []))))

-- The loop, which takes whole chunks, is the fold over the bytes, given a round for each byte.
update_loop-absorb :
    (n : ℕ) (ctx : Sha1Ctx) (xs : List ℕ)
    → length xs ≤ n
    → length ctx.block < 64
    → update_loop n ctx xs ≡ absorb ctx xs
unfolding update_loop
update_loop-absorb zero ctx [] h k = unfold absorb in refl
update_loop-absorb zero ctx (x ∷ xs) h k = absurd (omega arith)
update_loop-absorb (suc n) ctx [] h k = unfold absorb in refl
update_loop-absorb (suc n) ctx (x ∷ xs) h k =
    let room = 64 - length ctx.block in
    let head_ = take room (x ∷ xs) in
    let rest = drop room (x ∷ xs) in
    let chunk = absorb-chunk ctx head_ (omega (arith, length-take-drop room (x ∷ xs))) k in
    let ctx1 = flush (record ctx { block = ctx.block ++ head_ }) in
    let ih =
      update_loop-absorb n ctx1 rest (omega (arith, h, length-drop_suc room x xs (omega arith))) (
        flush-room (record ctx { block = ctx.block ++ head_ })
          (omega (arith, length-append ctx.block head_, length-take-drop room (x ∷ xs)))) in
    ih
    ∙ sym (ap (λ c. absorb c rest) chunk)
    ∙ sym (absorb-append ctx head_ rest)
    ∙ ap (absorb ctx) (take-drop room (x ∷ xs))

flush-bit_count :
    (ctx : Sha1Ctx) (n : ℕ)
    → flush (record ctx { bit_count = n }) ≡ record (flush ctx) { bit_count = n }
unfolding flush
flush-bit_count ctx n = elim (Bool-cases (length ctx.block == 64)) [
  | inl full ↦ rw full refl
  | inr partial ↦ rw partial refl
]

absorb-bit_count :
    (ctx : Sha1Ctx) (xs : List ℕ) (n : ℕ)
    → absorb (record ctx { bit_count = n }) xs ≡ record (absorb ctx xs) { bit_count = n }
unfolding absorb
absorb-bit_count ctx [] n = refl
absorb-bit_count ctx (x ∷ xs) n =
    let one = record ctx { block = ctx.block ++ x ∷ [] } in
    ap (λ c. absorb c xs) (flush-bit_count one n) ∙ absorb-bit_count (flush one) xs n

absorb-keeps_count : (ctx : Sha1Ctx) (xs : List ℕ) → (absorb ctx xs).bit_count ≡ ctx.bit_count
absorb-keeps_count ctx xs = ap (λ c. c.bit_count) (absorb-bit_count ctx xs ctx.bit_count)

sha1_update-absorb :
    (ctx : Sha1Ctx) (xs : List ℕ)
    → length ctx.block < 64
    → sha1_update ctx xs
      ≡ record (absorb ctx xs) { bit_count = (ctx.bit_count + length xs * 8 % 2 ^ 64) % 2 ^ 64 }
unfolding sha1_update
sha1_update-absorb ctx xs k =
    let n = (ctx.bit_count + length xs * 8 % 2 ^ 64) % 2 ^ 64 in
    update_loop-absorb (length xs) (record ctx { bit_count = n }) xs (omega arith) k
    ∙ absorb-bit_count ctx xs n

abbrev with_count : Sha1Ctx → ℕ → Sha1Ctx
with_count ctx n = record ctx { bit_count = n }

-- On a context whose block is not full, as between any two calls, absorbing bytes in two calls
-- leaves the same context, count and all, as absorbing them in one, and the block is not full
-- afterwards.
pub sha1_update-append :
    (ctx : Sha1Ctx) (xs ys : List ℕ)
    → length ctx.block < 64
    → (sha1_update (sha1_update ctx xs) ys ≡ sha1_update ctx (xs ++ ys))
      × (length (sha1_update ctx xs).block < 64)
sha1_update-append ctx xs ys k =
    let count : Sha1Ctx → ℕ → ℕ = λ c n. (c.bit_count + n * 8 % 2 ^ 64) % 2 ^ 64 in
    let mid = absorb ctx xs in
    let n1 = count ctx (length xs) in
    let c1 = record mid { bit_count = n1 } in
    let room : length mid.block < 64 = absorb-room ctx xs k in
    let first : sha1_update ctx xs ≡ c1 = sha1_update-absorb ctx xs k in
    let second = sha1_update-absorb c1 ys room in
    let counts : (n1 + length ys * 8 % 2 ^ 64) % 2 ^ 64 ≡ count ctx (length (xs ++ ys)) =
      omega (arith, length-append xs ys) in
    let parts : with_count (absorb c1 ys) 0 ≡ with_count (absorb ctx (xs ++ ys)) 0 =
      ap (λ c. with_count c 0) (absorb-bit_count mid ys n1)
      ∙ ap (λ c. with_count c 0) (sym (absorb-append ctx xs ys)) in
    (
      ap (λ c. sha1_update c ys) first
          ∙ second
          ∙ ap₂ with_count parts counts
          ∙ sym (sha1_update-absorb ctx (xs ++ ys) k),
      rw first room,
    )

-- A zero byte moves the end of the block on by one, round the 64 places.
zero_byte-length :
    (ctx : Sha1Ctx)
    → length ctx.block < 64
    → length (sha1_update ctx (0 ∷ [])).block ≡ (length ctx.block + 1) % 64
zero_byte-length ctx k =
    rw (sha1_update-absorb ctx (0 ∷ []) k)
      (unfold absorb in unfold flush in ground (arith, k, length-append ctx.block (0 ∷ [])))

pad-enough :
    (n : ℕ) (ctx : Sha1Ctx)
    → length ctx.block < 64
    → (120 - length ctx.block) % 64 ≤ n
    → length (pad n ctx).block ≡ 56
unfolding pad
pad-enough zero ctx k h = omega arith
pad-enough (suc n) ctx k h = elim (Bool-cases (length ctx.block == 56)) [
  | inl done ↦ rw done ((==_iff (length ctx.block) 56).0 done)
  | inr more ↦
      let step = zero_byte-length ctx k in
      let ne : length ctx.block ≢ 56 = λ e. absurd (ground (arith, more, e)) in
      rw more
        (pad-enough n (sha1_update ctx (0 ∷ [])) (omega (arith, step)) (omega (arith, step, ne)))
]

-- From any context whose block is not full, the padding loop of sha1_final ends within its 64
-- rounds, with exactly 56 bytes in the block, so that the length fills it.
pub pad-length : (ctx : Sha1Ctx) → length ctx.block < 64 → length (pad 64 ctx).block ≡ 56
pad-length ctx k = pad-enough 64 ctx k (omega arith)
