-- ===== src/Hal/HwPlatform/Owners.antt =====
-- The register mappings under several owners.
use subtitle_overlay_fw.Base.{
  ℕ, zero, suc, ◌+◌, ◌-◌, ◌%◌, ◌^◌, ◌≤◌, ◌<◌, ◌≡◌, ◌≢◌, ◌⊎◌, inl, inr, refl, sym, ap, ◌∙◌, Bool,
  true, false, Bool-cases, Option, Option-cases, none, some, List, [], ◌∷◌, ◌==◌, ltb, get_or, set,
  replicate, length, length-set, get_or-set_self, get_or-set_ne, length-replicate, arith,
}
use subtitle_overlay_fw.Hal.HwPlatform.{
  Platform, at_start, unmap_all, map_regions, hw_platform_init, hw_platform_cleanup,
  hw_platform_base,
}

-- A call of hw_platform_init, with what the system returns, or of hw_platform_cleanup
pub data Step : Type 0 where
  acquire : Bool → (ℕ → Option ℕ) → Step
  release : Step

abbrev pub step : Step → Platform → Platform
step (acquire opened mapped) p = (hw_platform_init opened mapped p).1
step release p = hw_platform_cleanup p

unfoldable pub run : List Step → Platform → Platform
run [] p = p
run (s ∷ steps) p = run steps (step s p)

-- Owners that release only what they acquired; `held` references are theirs at the start.
abbrev pub Nested : ℕ → List Step → Type 0
Nested held [] = Unit
Nested held (acquire opened mapped ∷ steps) = Nested (suc held) steps
Nested zero (release ∷ steps) = ⊥
Nested (suc held) (release ∷ steps) = Nested held steps

init-held :
    (opened : Bool) (mapped : ℕ → Option ℕ) (p : Platform)
    → 0 < p.refcount
    → p.refcount + 1 < 2 ^ 32
    → hw_platform_init opened mapped p ≡ (true, record p { refcount = p.refcount + 1 })
unfolding hw_platform_init
init-held opened mapped p h l =
    let positive : ltb 0 p.refcount ≡ true = ground (arith, h) in
    let fits : (p.refcount + 1) % 2 ^ 32 ≡ p.refcount + 1 = omega (arith, l) in
    rw (positive, fits) refl

cleanup-held :
    (p : Platform) → 1 < p.refcount → hw_platform_cleanup p ≡ record p { refcount = p.refcount - 1 }
unfolding hw_platform_cleanup
cleanup-held p h =
    let some_ : (p.refcount == 0) ≡ false = ground (arith, h) in
    let more : (p.refcount - 1 == 0) ≡ false = ground (arith, h) in rw (some_, more) refl

-- Whatever other owners acquire and release, as long as each releases only what it acquired, the
-- mappings of an owner that holds a reference stay as they are: `p` has a reference besides the
-- `held` ones of the others, and there are fewer than 2 ^ 32 in all.
pub bases-run :
    (steps : List Step) (held : ℕ) (p : Platform)
    → Nested held steps
    → held < p.refcount
    → p.refcount + length steps < 2 ^ 32
    → ((run steps p).bases ≡ p.bases) × ((run steps p).devmem_open ≡ p.devmem_open)
unfolding run
bases-run [] held p n h l = (refl, refl)
bases-run (acquire opened mapped ∷ steps) held p n h l =
    let e = init-held opened mapped p (omega (arith, h)) (omega (arith, l)) in
    let ih =
      bases-run steps (suc held) (record p { refcount = p.refcount + 1 }) n (omega (arith, h))
        (omega (arith, l)) in
    (
      ap (λ (r : Bool × Platform). (run steps r.1).bases) e ∙ ih.0,
      ap (λ (r : Bool × Platform). (run steps r.1).devmem_open) e ∙ ih.1,
    )
bases-run (release ∷ steps) zero p n h l = absurd n
bases-run (release ∷ steps) (suc held) p n h l =
    let e = cleanup-held p (omega (arith, h)) in
    let ih =
      bases-run steps held (record p { refcount = p.refcount - 1 }) n (omega (arith, h))
        (omega (arith, l)) in
    (
      ap (λ (q : Platform). (run steps q).bases) e ∙ ih.0,
      ap (λ (q : Platform). (run steps q).devmem_open) e ∙ ih.1,
    )

-- Every region is mapped while there is a reference, and nothing is while there is none.
abbrev pub IsConsistent : Platform → Type 0
IsConsistent p =
    (length p.bases ≡ 6)
    × (((0 < p.refcount)
          × ((p.devmem_open ≡ true) × ((region : ℕ) → region < 6 → hw_platform_base region p ≢ 0)))
        ⊎ ((p.refcount ≡ 0)
            × ((p.devmem_open ≡ false) × ((region : ℕ) → hw_platform_base region p ≡ 0))))

-- mmap does not map anything at address 0.
abbrev pub NeverNull : (ℕ → Option ℕ) → Type 0
NeverNull mapped = (region : ℕ) → mapped region ≢ some 0

abbrev pub AreNeverNull : List Step → Type 0
AreNeverNull [] = Unit
AreNeverNull (acquire opened mapped ∷ steps) = NeverNull mapped × AreNeverNull steps
AreNeverNull (release ∷ steps) = AreNeverNull steps

get_or-replicate : (n i : ℕ) → get_or (replicate {A = ℕ} n 0) i 0 ≡ 0
get_or-replicate zero i = refl
get_or-replicate (suc n) zero = refl
get_or-replicate (suc n) (suc i) = get_or-replicate n i

unmap_all-IsConsistent : (p : Platform) → p.refcount ≡ 0 → IsConsistent (unmap_all p)
unfolding unmap_all hw_platform_base
unmap_all-IsConsistent p h =
    (length-replicate {A = ℕ} 6 0, inr (h, (refl, λ region. get_or-replicate 6 region)))

unmap_all-refcount : (p : Platform) → (unmap_all p).refcount ≡ p.refcount
unfolding unmap_all
unmap_all-refcount p = refl

-- What the loop has mapped from `region` on
map_regions-some :
    (mapped : ℕ → Option ℕ) (n region : ℕ) (p q : Platform)
    → NeverNull mapped
    → length p.bases ≡ 6
    → region + n ≡ 6
    → ((r : ℕ) → r < region → get_or p.bases r 0 ≢ 0)
    → map_regions mapped region n p ≡ some q
    → (length q.bases ≡ 6)
      × ((q.devmem_open ≡ p.devmem_open) × ((r : ℕ) → r < 6 → get_or q.bases r 0 ≢ 0))
unfolding map_regions
map_regions-some mapped zero region p q null len end done e =
    let same : p ≡ q = cc in rw (sym same) (len, (refl, λ r h. done r (omega (arith, h, end))))
map_regions-some mapped (suc n) region p q null len end done e =
    elim (Option-cases (mapped region)) [
      | inl fails ↦
          let none_ : map_regions mapped region (suc n) p ≡ none = rw (fails, map_regions) refl in
          absurd (ground (arith, none_, e))
      | inr found ↦
          let (base, at_) = found in
          let p' : Platform = record p { bases = set p.bases region base } in
          let positive : base ≢ 0 = λ z. null region (at_ ∙ ap some z) in
          let nonzero : (base == 0) ≡ false = ground (arith, positive) in
          let next : map_regions mapped region (suc n) p ≡ map_regions mapped (region + 1) n p' =
            rw (at_, map_regions, nonzero) refl in
          map_regions-some mapped n (region + 1) p' q null (length-set p.bases region base ∙ len)
            (omega (arith, end))
            (λ r h. elim (Bool-cases (region == r)) [
              | inl same ↦
                  let here : region ≡ r = ground (arith, same) in
                  let wrote = get_or-set_self p.bases region base 0 (omega (arith, len, end)) in
                  rw (sym here, wrote) positive
              | inr other ↦
                  let apart : region ≢ r = λ z. ground (arith, other, z) in
                  rw (get_or-set_ne p.bases region r base 0 apart)
                    (done r (ground (arith, h, other)))
            ])
            (sym next ∙ e)
    ]

init-closed :
    (mapped : ℕ → Option ℕ) (p : Platform)
    → p.refcount ≡ 0
    → hw_platform_init false mapped p ≡ (false, record p { devmem_open = false })
unfolding hw_platform_init
init-closed mapped p h = let free : ltb 0 p.refcount ≡ false = ground (arith, h) in rw free refl

init-free :
    (mapped : ℕ → Option ℕ) (p : Platform)
    → p.refcount ≡ 0
    → hw_platform_init true mapped p
      ≡ elim (map_regions mapped 0 6 (record p { devmem_open = true })) [
        | none ↦ (false, unmap_all p)
        | some q ↦ (true, record q { refcount = 1 })
      ]
unfolding hw_platform_init
init-free mapped p h = let free : ltb 0 p.refcount ≡ false = ground (arith, h) in rw free refl

init-IsConsistent :
    (opened : Bool) (mapped : ℕ → Option ℕ) (p : Platform)
    → NeverNull mapped
    → p.refcount + 1 < 2 ^ 32
    → IsConsistent p
    → IsConsistent (hw_platform_init opened mapped p).1
      × ((hw_platform_init opened mapped p).1.refcount ≤ p.refcount + 1)
unfolding hw_platform_base
init-IsConsistent opened mapped p null l (len, inl (positive, (is_open, all))) =
    rw (init-held opened mapped p positive l)
      ((len, inl (omega arith, (is_open, all))), omega arith)
init-IsConsistent false mapped p null l (len, inr (none_, (closed, all))) =
    rw (init-closed mapped p none_) ((len, inr (none_, (refl, all))), omega arith)
init-IsConsistent true mapped p null l (len, inr (none_, (closed, all))) =
    let p' : Platform = record p { devmem_open = true } in
    elim (Option-cases (map_regions mapped 0 6 p')) [
      | inl fails ↦
          rw (init-free mapped p none_, fails)
            (unmap_all-IsConsistent p none_, omega (arith, unmap_all-refcount p))
      | inr found ↦
          let (q, e) = found in
          let all' =
            map_regions-some mapped 6 0 p' q null len refl (λ r h. absurd (omega (arith, h))) e in
          rw (init-free mapped p none_, e)
            ((all'.0, inl (omega arith, (all'.1.0, all'.1.1))), omega arith)
    ]

-- What an init gives: a reference and all regions, or nothing
pub init-outcome :
    (opened : Bool) (mapped : ℕ → Option ℕ) (p : Platform)
    → NeverNull mapped
    → p.refcount + 1 < 2 ^ 32
    → IsConsistent p
    → let r = hw_platform_init opened mapped p in
      ((r.0 ≡ true)
        × ((r.1.refcount ≡ p.refcount + 1)
            × ((region : ℕ) → region < 6 → hw_platform_base region r.1 ≢ 0)))
      ⊎ ((r.0 ≡ false) × (r.1.refcount ≡ p.refcount))
unfolding hw_platform_base
init-outcome opened mapped p null l (len, inl (positive, (is_open, all))) =
    rw (init-held opened mapped p positive l) (inl (refl, (refl, all)))
init-outcome false mapped p null l (len, inr (none_, (closed, all))) =
    rw (init-closed mapped p none_) (inr (refl, refl))
init-outcome true mapped p null l (len, inr (none_, (closed, all))) =
    let p' : Platform = record p { devmem_open = true } in
    elim (Option-cases (map_regions mapped 0 6 p')) [
      | inl fails ↦ rw (init-free mapped p none_, fails) (inr (refl, unmap_all-refcount p))
      | inr found ↦
          let (q, e) = found in
          let all' =
            map_regions-some mapped 6 0 p' q null len refl (λ r h. absurd (omega (arith, h))) e in
          rw (init-free mapped p none_, e) (inl (refl, (omega (arith, none_), all'.1.1)))
    ]

pub cleanup-refcount : (p : Platform) → (hw_platform_cleanup p).refcount ≡ p.refcount - 1
unfolding hw_platform_cleanup unmap_all
cleanup-refcount p = ground arith

cleanup-last :
    (p : Platform) → p.refcount ≡ 1 → hw_platform_cleanup p ≡ unmap_all (record p { refcount = 0 })
unfolding hw_platform_cleanup
cleanup-last p h =
    let some_ : (p.refcount == 0) ≡ false = ground (arith, h) in
    let last : (p.refcount - 1 == 0) ≡ true = ground (arith, h) in rw (some_, last) refl

cleanup-none : (p : Platform) → p.refcount ≡ 0 → hw_platform_cleanup p ≡ p
unfolding hw_platform_cleanup
cleanup-none p h = let none_ : (p.refcount == 0) ≡ true = ground (arith, h) in rw none_ refl

cleanup-IsConsistent :
    (p : Platform)
    → IsConsistent p
    → IsConsistent (hw_platform_cleanup p) × ((hw_platform_cleanup p).refcount ≤ p.refcount)
unfolding hw_platform_base
cleanup-IsConsistent p (len, inr (none_, (closed, all))) =
    rw (cleanup-none p none_) ((len, inr (none_, (closed, all))), omega arith)
cleanup-IsConsistent p (len, inl (positive, (is_open, all))) = elim (Bool-cases (p.refcount == 1)) [
  | inl last ↦
      let q : Platform = record p { refcount = 0 } in
      rw (cleanup-last p (ground (arith, last)))
        (unmap_all-IsConsistent q refl, omega (arith, unmap_all-refcount q))
  | inr more ↦
      rw (cleanup-held p (ground (arith, more, positive)))
        ((len, inl (ground (arith, more, positive), (is_open, all))), omega arith)
]

step-IsConsistent :
    (s : Step) (p : Platform)
    → AreNeverNull (s ∷ [])
    → p.refcount + 1 < 2 ^ 32
    → IsConsistent p
    → IsConsistent (step s p) × ((step s p).refcount ≤ p.refcount + 1)
step-IsConsistent (acquire opened mapped) p null l c = init-IsConsistent opened mapped p null.0 l c
step-IsConsistent release p null l c =
    let (next, fewer) = cleanup-IsConsistent p c in (next, omega (arith, fewer))

run-IsConsistent_from :
    (steps : List Step) (p : Platform)
    → AreNeverNull steps
    → p.refcount + length steps < 2 ^ 32
    → IsConsistent p
    → IsConsistent (run steps p)
unfolding run
run-IsConsistent_from [] p null l c = c
run-IsConsistent_from (s ∷ steps) p null l c =
    let here : AreNeverNull (s ∷ []) = head s null in
    let (next, small) = step-IsConsistent s p here (omega (arith, l)) c in
    run-IsConsistent_from steps (step s p) (tail s null) (omega (arith, l, small)) next
  where
    head : (s : Step) → AreNeverNull (s ∷ steps) → AreNeverNull (s ∷ [])
    head (acquire opened mapped) n = (n.0, tt)
    head release n = tt

    tail : (s : Step) → AreNeverNull (s ∷ steps) → AreNeverNull steps
    tail (acquire opened mapped) n = n.1
    tail release n = n

pub at_start-IsConsistent : IsConsistent at_start
unfolding hw_platform_base
at_start-IsConsistent =
    (length-replicate {A = ℕ} 6 0, inr (refl, (refl, λ region. get_or-replicate 6 region)))

-- From the start, through any calls of fewer than 2 ^ 32 in all, whatever open and mmap return: all
-- six regions are mapped and /dev/mem is open exactly while there is a reference; while there is
-- none, no region is mapped and /dev/mem is closed, a partial mapping undone.
pub run-IsConsistent :
    (steps : List Step)
    → AreNeverNull steps
    → length steps < 2 ^ 32
    → IsConsistent (run steps at_start)
run-IsConsistent steps null l =
    run-IsConsistent_from steps at_start null (omega (arith, l)) at_start-IsConsistent
