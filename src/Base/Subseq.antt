-- ===== src/Base/Subseq.antt =====
-- One list inside another, in the same order.
use mathlib.Core.Path.{◌≡◌, refl, ◌∙◌}
use mathlib.Core.List.{List, [], ◌∷◌, ◌++◌}

pub data Subseq {ℓ} {A : Type ℓ} : List A → List A → Type ℓ where
  done : Subseq [] []
  skip : {xs ys : List A} (y : A) → Subseq xs ys → Subseq xs (y ∷ ys)
  keep : {xs ys : List A} {x y : A} → x ≡ y → Subseq xs ys → Subseq (x ∷ xs) (y ∷ ys)

pub Subseq-refl {ℓ} : {A : Type ℓ} (xs : List A) → Subseq xs xs
Subseq-refl [] = done
Subseq-refl (x ∷ xs) = keep refl (Subseq-refl xs)

pub Subseq-nil {ℓ} : {A : Type ℓ} (xs : List A) → Subseq [] xs
Subseq-nil [] = done
Subseq-nil (x ∷ xs) = skip x (Subseq-nil xs)

pub Subseq-trans {ℓ} : {A : Type ℓ} {xs ys zs : List A} → Subseq xs ys → Subseq ys zs → Subseq xs zs
Subseq-trans p (skip z q) = skip z (Subseq-trans p q)
Subseq-trans (skip y p) (keep {y = z} e q) = skip z (Subseq-trans p q)
Subseq-trans (keep f p) (keep e q) = keep (f ∙ e) (Subseq-trans p q)
Subseq-trans p done = p

pub Subseq-append {ℓ} :
    {A : Type ℓ} {xs ys us vs : List A} → Subseq xs ys → Subseq us vs → Subseq (xs ++ us) (ys ++ vs)
Subseq-append done q = q
Subseq-append (skip y p) q = skip y (Subseq-append p q)
Subseq-append (keep e p) q = keep e (Subseq-append p q)
