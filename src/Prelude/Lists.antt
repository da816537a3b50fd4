-- ===== src/Prelude/Lists.antt =====
-- Lists measured by native numbers.
use Prim.Native.Nat.{ℕ, zero, suc, ◌+◌, min}
use mathlib.Core.Path.{◌≡◌, refl, sym, ap, ◌∙◌}
use mathlib.Core.List.{List, [], ◌∷◌, ◌++◌, append_assoc}
use native.Mathlib.Omega.{arith}

module _ {ℓ} {A : Type ℓ} where
  abbrev pub length : List A → ℕ
  length [] = 0
  length (x ∷ xs) = suc (length xs)

  abbrev pub take : ℕ → List A → List A
  take zero xs = []
  take (suc n) [] = []
  take (suc n) (x ∷ xs) = x ∷ take n xs

  -- The list without its i-th element.
  abbrev pub remove_at : ℕ → List A → List A
  remove_at i [] = []
  remove_at zero (x ∷ xs) = xs
  remove_at (suc i) (x ∷ xs) = x ∷ remove_at i xs

  pub length-append : (xs ys : List A) → length (xs ++ ys) ≡ length xs + length ys
  length-append [] ys = omega arith
  length-append (x ∷ xs) ys = omega (arith, length-append xs ys)

  pub length-take : (n : ℕ) (xs : List A) → length (take n xs) ≡ min n (length xs)
  length-take zero xs = omega arith
  length-take (suc n) [] = omega arith
  length-take (suc n) (x ∷ xs) = omega (arith, length-take n xs)

pub cons-ne-nil {ℓ} : {A : Type ℓ} {x : A} {xs : List A} → x ∷ xs ≡ [] → ⊥
cons-ne-nil e = cc

-- Every element has the property; it computes to a tuple.
abbrev pub All {ℓ κ} : {A : Type ℓ} → (A → Type κ) → List A → Type κ
All P [] = Unit
All P (x ∷ xs) = P x × All P xs

pub All-append {ℓ κ} :
    {A : Type ℓ} (P : A → Type κ) (xs ys : List A) → All P xs → All P ys → All P (xs ++ ys)
All-append P [] ys hx hy = hy
All-append P (x ∷ xs) ys hx hy = (hx.0, All-append P xs ys hx.1 hy)

pub All-remove_at {ℓ κ} :
    {A : Type ℓ} (P : A → Type κ) (i : ℕ) (xs : List A) → All P xs → All P (remove_at i xs)
All-remove_at P i [] h = tt
All-remove_at P zero (x ∷ xs) h = h.1
All-remove_at P (suc i) (x ∷ xs) h = (h.0, All-remove_at P i xs h.1)

pub remove_at-nil {ℓ} : {A : Type ℓ} (i : ℕ) (xs : List A) → xs ≡ [] → remove_at i xs ≡ []
remove_at-nil i [] e = refl
remove_at-nil i (x ∷ xs) e = absurd (cons-ne-nil e)

-- Two stretches of a stream, one after the other.
pub append-splice {ℓ} :
    {A : Type ℓ} (d₁ d₂ p₀ p₁ p₂ a₁ a₂ : List A)
    → d₁ ++ p₁ ≡ p₀ ++ a₁
    → d₂ ++ p₂ ≡ p₁ ++ a₂
    → (d₁ ++ d₂) ++ p₂ ≡ p₀ ++ (a₁ ++ a₂)
append-splice d₁ d₂ p₀ p₁ p₂ a₁ a₂ h₁ h₂ =
    append_assoc d₁ d₂ p₂
    ∙ ap (λ l. d₁ ++ l) h₂
    ∙ sym (append_assoc d₁ p₁ a₂)
    ∙ ap (λ l. l ++ a₂) h₁
    ∙ append_assoc p₀ a₁ a₂
