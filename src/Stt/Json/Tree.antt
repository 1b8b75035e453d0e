-- ===== src/Stt/Json/Tree.antt =====
-- JSON values, and their text as RFC 8259 writes it with any whitespace between the tokens.
use subtitle_overlay_fw.Base.{ℕ, suc, zero, ◌<◌, ◌≡◌, Bool, true, false, List, [], ◌∷◌, ◌++◌, ok}
use subtitle_overlay_fw.Stt.Json.{Floating, double_of, true_token, false_token, null_token, closing}
use subtitle_overlay_fw.Stt.Json.Text.{quote, IsPrintable, IsToken}

-- `Members` are the members of an object or, their keys unused, the items of an array: one or more.
mutual
  pub data Json : Type 0 where
    null yes no : Json
    number text : List ℕ → Json
    empty : Bool → Json
    container : Bool → Members → Json

  pub data Members : Type 0 where
    last : List ℕ → Json → Members
    more : List ℕ → Json → Members → Members

abbrev pub opening : Bool → ℕ
opening true = b'{'
opening false = b'['

-- The whitespace is the same between any two tokens.
module _ (sp : List ℕ) where
  abbrev pub print_key : Bool → List ℕ → List ℕ → List ℕ
  print_key false key rest = rest
  print_key true key rest = quote key ++ (sp ++ b':' ∷ (sp ++ rest))

  unfoldable mutual
    pub print : Json → List ℕ
    print null = null_token
    print yes = true_token
    print no = false_token
    print (number token) = token
    print (text t) = quote t
    print (empty is_object) = opening is_object ∷ (sp ++ closing is_object ∷ [])
    print (container is_object ms) = opening is_object ∷ (sp ++ print_members is_object ms)

    pub print_members : Bool → Members → List ℕ
    print_members is_object (last key v) =
        print_key is_object key (print v ++ (sp ++ closing is_object ∷ []))
    print_members is_object (more key v ms) =
        print_key is_object key (print v ++ (sp ++ b',' ∷ (sp ++ print_members is_object ms)))

-- A number is a token that strtod reads as a whole; the nesting is at most `depth`.
module _ (f : Floating) where
  abbrev pub IsNumber : List ℕ → Type 0
  IsNumber [] = ⊥
  IsNumber (c ∷ cs) = IsToken (c ∷ cs) × ((x : f.Double) × (double_of f (c ∷ cs) ≡ ok x))

  abbrev mutual
    pub IsWellFormed : ℕ → Json → Type 0
    IsWellFormed depth (number token) = IsNumber token
    IsWellFormed depth (text t) = IsPrintable t
    IsWellFormed depth (empty is_object) = 0 < depth
    IsWellFormed zero (container is_object ms) = ⊥
    IsWellFormed (suc depth) (container is_object ms) = AreWellFormed depth ms
    IsWellFormed depth _ = Unit

    pub AreWellFormed : ℕ → Members → Type 0
    AreWellFormed depth (last key v) = IsPrintable key × IsWellFormed depth v
    AreWellFormed depth (more key v ms) =
        IsPrintable key × (IsWellFormed depth v × AreWellFormed depth ms)
