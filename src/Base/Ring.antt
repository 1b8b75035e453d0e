-- ===== src/Base/Ring.antt =====
-- The occupied slots of a ring in an array of `depth` slots: `n` of them from index `h` on.
use Prim.Native.Nat.{ℕ, zero, suc, ◌+◌, ◌-◌, ◌%◌, ◌<◌}
use mathlib.Core.Path.{◌≡◌, refl, ap, ap₂, ◌∙◌}
use mathlib.Core.Logic.{◌≢◌}
use mathlib.Core.List.{List, [], ◌∷◌, ◌++◌}
use native.Mathlib.Nat.{add-mod}
use native.Mathlib.Omega.{arith}
use subtitle_overlay_fw.Base.Lists.{length, get_or, set, get_or-set_self, get_or-set_ne}

module _ {ℓ} {A : Type ℓ} (buf : List A) (depth : ℕ) (d : A) where
  abbrev pub window : ℕ → ℕ → List A
  window h zero = []
  window h (suc n) = get_or buf (h % depth) d ∷ window (h + 1) n

  pub length-window : (h n : ℕ) → length (window h n) ≡ n
  length-window h zero = refl
  length-window h (suc n) = ap suc (length-window (h + 1) n)

  -- Only the residue of the start counts.
  pub window-mod : (h k n : ℕ) → h % depth ≡ k % depth → window h n ≡ window k n
  window-mod h k zero e = refl
  window-mod h k (suc n) e =
      ap₂ ◌∷◌ (ap (λ i. get_or buf i d) e)
        (window-mod (h + 1) (k + 1) n (rw (add-mod h 1 depth, e) (rw (← add-mod k 1 depth))))

  pub window-snoc :
      (h n : ℕ) → window h (suc n) ≡ window h n ++ (get_or buf ((h + n) % depth) d ∷ [])
  window-snoc h zero = let e : h + 0 ≡ h = omega arith in rw e
  window-snoc h (suc n) =
      let e : h + suc n ≡ h + 1 + n = omega arith in
      rw e (ap (◌∷◌ (get_or buf (h % depth) d)) (window-snoc (h + 1) n))

-- A write to a slot that the window does not hold leaves it as it was.
pub window-set_ne {ℓ} :
    {A : Type ℓ} (buf : List A) (depth : ℕ) (d : A) (h n i : ℕ) (v : A)
    → ((j : ℕ) → j < n → i ≢ (h + j) % depth)
    → window (set buf i v) depth d h n ≡ window buf depth d h n
window-set_ne buf depth d h zero i v out = refl
window-set_ne buf depth d h (suc n) i v out =
    ap₂ ◌∷◌
      (get_or-set_ne buf i (h % depth) v d
        (λ e. out 0 (omega arith) (e ∙ ap (λ k. k % depth) (omega arith))))
      (window-set_ne buf depth d (h + 1) n i v
        (λ j lt e. out (suc j) (omega arith) (e ∙ ap (λ k. k % depth) (omega arith))))

-- A write to the slot behind the last one puts the value last.
pub window-write {ℓ} :
    {A : Type ℓ} (buf : List A) (depth : ℕ) (d : A) (h n : ℕ) (v : A)
    → (h + n) % depth < length buf
    → ((j : ℕ) → j < n → (h + n) % depth ≢ (h + j) % depth)
    → window (set buf ((h + n) % depth) v) depth d h (suc n) ≡ window buf depth d h n ++ (v ∷ [])
window-write buf depth d h n v inside free =
    window-snoc (set buf ((h + n) % depth) v) depth d h n
    ∙ ap₂ ◌++◌ (window-set_ne buf depth d h n ((h + n) % depth) v free)
        (ap (λ x. x ∷ []) (get_or-set_self buf ((h + n) % depth) v d inside))

-- The oldest slot, and the window one slot further on.
pub window-next {ℓ} :
    {A : Type ℓ} (buf : List A) (depth : ℕ) (d : A) (h h' n : ℕ)
    → n ≢ 0
    → h % depth ≡ h
    → (h + 1) % depth ≡ h' % depth
    → window buf depth d h n ≡ get_or buf h d ∷ window buf depth d h' (n - 1)
window-next buf depth d h h' zero ne first e = absurd (ne refl)
window-next buf depth d h h' (suc n) ne first e =
    let m : suc n - 1 ≡ n = omega arith in
    rw m (ap₂ ◌∷◌ (ap (λ i. get_or buf i d) first) (window-mod buf depth d (h + 1) h' n e))
