-- ===== src/Prelude/Parts.antt =====
-- The parts that strings.Split cuts a text into.
use mathlib.Core.Path.{◌≡◌, refl, ap, ◌∙◌}
use mathlib.Core.Logic.{inl, inr}
use mathlib.Core.Bool.{false}
use mathlib.Core.Option.{some}
use mathlib.Core.List.{List, [], ◌∷◌, ◌++◌}
use Prim.Native.Nat.{ℕ}
use opencoda.Prelude.Tests.{nat_beq, nat_beq_iff, Bool-cases}
use opencoda.Prelude.Lists.{last?, All}
use opencoda.Prelude.Texts.{Text, split}

-- The byte does not stand in the text.
abbrev pub NoByte : ℕ → Text → Type 0
NoByte sep s = All (λ c. nat_beq c sep ≡ false) s

last?-append {ℓ} :
    {A : Type ℓ} (x : A) (xs : List A) (y : A) → last? (x ∷ (xs ++ (y ∷ []))) ≡ some y
last?-append x [] y = refl
last?-append x (z ∷ xs) y = last?-append z xs y

pub last?-append_one {ℓ} : {A : Type ℓ} (xs : List A) (y : A) → last? (xs ++ (y ∷ [])) ≡ some y
last?-append_one [] y = refl
last?-append_one (x ∷ xs) y = last?-append x xs y

split_whole : (sep : ℕ) (s : Text) → NoByte sep s → split sep s ≡ s ∷ []
unfolding split
split_whole sep [] h = refl
split_whole sep (c ∷ s) h = rw (split, split_whole sep s h.1, h.0) refl

split_parts :
    (sep : ℕ) (a s : Text)
    → NoByte sep s
    → (w : Text) × (ws : List Text) × (split sep (a ++ (sep ∷ s)) ≡ w ∷ (ws ++ (s ∷ [])))
unfolding split
split_parts sep [] s h = ([], [], rw (split_whole sep s h, (nat_beq_iff sep sep).1 refl) refl)
split_parts sep (c ∷ a) s h = elim (Bool-cases (nat_beq c sep)) [
  | inl e ↦ let (w, ws, parts) = split_parts sep a s h in ([], w ∷ ws, rw (e, parts) refl)
  | inr e ↦ let (w, ws, parts) = split_parts sep a s h in (c ∷ w, ws, rw (e, parts) refl)
]

-- The last part of a text is what stands behind the last separator.
pub last?-split :
    (sep : ℕ) (a s : Text) → NoByte sep s → last? (split sep (a ++ (sep ∷ s))) ≡ some s
last?-split sep a s h =
    let (w, ws, parts) = split_parts sep a s h in ap last? parts ∙ last?-append w ws s
