-- ===== src/Common/Lists.antt =====
-- Helpers on lists over the native numbers, and predicates by recursion.
use Prim.Native.Nat.{ℕ, zero, suc, ◌+◌}
use mathlib.Core.Path.{subst, ◌≡◌, refl}
use mathlib.Core.Bool.{Bool, true, false, ◌&&◌, ◌||◌}
use mathlib.Core.Option.{Option, none, some}
use mathlib.Core.List.{List, [], ◌∷◌, ◌++◌}
use mathlib.Core.Logic.{◌⊎◌, inl, inr}
use native.Mathlib.Omega.{arith}
use wilanis_js.Common.Tests.{Bool-cases}
use Prim.Native.String.{String}
use text.Mathlib.Text.{◌==◌}

module _ {ℓ} {A : Type ℓ} where
  abbrev pub length : List A → ℕ
  length [] = 0
  length (x ∷ xs) = suc (length xs)

  abbrev pub get_elem? : List A → ℕ → Option A
  get_elem? [] i = none
  get_elem? (x ∷ xs) zero = some x
  get_elem? (x ∷ xs) (suc i) = get_elem? xs i

  abbrev pub take : ℕ → List A → List A
  take zero xs = []
  take (suc n) [] = []
  take (suc n) (x ∷ xs) = x ∷ take n xs

  abbrev pub drop : ℕ → List A → List A
  drop zero xs = xs
  drop (suc n) [] = []
  drop (suc n) (x ∷ xs) = drop n xs

  pub length-append : (xs ys : List A) → length (xs ++ ys) ≡ length xs + length ys
  length-append [] ys = omega arith
  length-append (x ∷ xs) ys = omega (arith, length-append xs ys)

  -- `every` and `some` of an array
  abbrev pub every : (A → Bool) → List A → Bool
  every p [] = true
  every p (x ∷ xs) = p x && every p xs

  abbrev pub some_of : (A → Bool) → List A → Bool
  some_of p [] = false
  some_of p (x ∷ xs) = p x || some_of p xs

module _ {ℓ κ} {A : Type ℓ} (P : A → Type κ) where
  abbrev pub All : List A → Type κ
  All [] = Unit
  All (x ∷ xs) = P x × All xs

-- `a ?? b` on results where `none` is "nothing wrong": the first problem of two.
abbrev pub first {ℓ} : {A : Type ℓ} → Option A → Option A → Option A
first none b = b
first (some a) b = some a

-- `list.includes(text)`
abbrev pub includes : List String → String → Bool
includes [] text = false
includes (x ∷ xs) text = x == text || includes xs text

pub first-none {ℓ} : {A : Type ℓ} (a b : Option A) → first a b ≡ none → (a ≡ none) × (b ≡ none)
first-none none b h = (refl, h)
first-none (some a) b h = cc

pub first-both {ℓ} : {A : Type ℓ} (a b : Option A) → a ≡ none → b ≡ none → first a b ≡ none
first-both a b p q = rw (p, q)

pub All-append {ℓ κ} :
    {A : Type ℓ} (P : A → Type κ) (xs ys : List A) → All P xs → All P ys → All P (xs ++ ys)
All-append P [] ys h k = k
All-append P (x ∷ xs) ys h k = (h.0, All-append P xs ys h.1 k)

pub includes-append :
    (xs ys : List String) (k : String)
    → includes (xs ++ ys) k ≡ true
    → (includes xs k ≡ true) ⊎ (includes ys k ≡ true)
includes-append [] ys k h = inr h
includes-append (x ∷ xs) ys k h = elim (Bool-cases (x == k)) [
  | inl e ↦ inl (ground arith)
  | inr e ↦ elim (includes-append xs ys k (ground arith)) [
    | inl i ↦ inl (ground arith)
    | inr i ↦ inr i
  ]
]

pub All-take {ℓ κ} :
    {A : Type ℓ} (P : A → Type κ) (k : ℕ) (xs : List A) → All P xs → All P (take k xs)
All-take P zero xs h = tt
All-take P (suc k) [] h = tt
All-take P (suc k) (x ∷ xs) h = (h.0, All-take P k xs h.1)

pub All-map {ℓ κ κ'} :
    {A : Type ℓ} (P : A → Type κ) (Q : A → Type κ') (xs : List A)
    → ((x : A) → P x → Q x)
    → All P xs
    → All Q xs
All-map P Q [] f h = tt
All-map P Q (x ∷ xs) f h = (f x h.0, All-map P Q xs f h.1)

abbrev pub IsAmong : {A : Type 0} → A → List A → Type 0
IsAmong a [] = ⊥
IsAmong a (x ∷ xs) = (x ≡ a) ⊎ IsAmong a xs

pub All-at {κ} : {A : Type 0} (P : A → Type κ) (xs : List A) (a : A) → All P xs → IsAmong a xs → P a
All-at P [] a h i = absurd i
All-at P (x ∷ xs) a h (inl e) = subst P e h.0
All-at P (x ∷ xs) a h (inr i) = All-at P xs a h.1 i

pub All-drop {ℓ κ} :
    {A : Type ℓ} (P : A → Type κ) (k : ℕ) (xs : List A) → All P xs → All P (drop k xs)
All-drop P zero xs h = h
All-drop P (suc k) [] h = tt
All-drop P (suc k) (x ∷ xs) h = All-drop P k xs h.1
