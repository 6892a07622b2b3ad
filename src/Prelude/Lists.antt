-- ===== src/Prelude/Lists.antt =====
-- Lists: JavaScript's array methods with Boolean tests, and predicates on the elements.
use Prim.Native.Nat.{ℕ, suc, ◌+◌}
use mathlib.Core.Path.{◌≡◌, refl, sym, ap, ◌∙◌}
use mathlib.Core.Logic.{inl, inr}
use mathlib.Core.Bool.{Bool, true, false, ◌||◌, false≢true}
use mathlib.Core.Option.{Option, none, some}
use mathlib.Core.List.{List, [], ◌∷◌, ◌++◌, map, Memᴰ}
use mathlib.Core.List.Memᴰ
use native.Mathlib.Omega.{arith}
use davy_jones.Prelude.Tests.{if◌then◌else◌, Bool-cases}

module _ {ℓ} {A : Type ℓ} where
  abbrev pub length : List A → ℕ
  length [] = 0
  length (x ∷ xs) = suc (length xs)

  -- `xs.filter(p)`
  abbrev pub filter : (A → Bool) → List A → List A
  filter p [] = []
  filter p (x ∷ xs) = let rest = filter p xs in if p x then x ∷ rest else rest

  -- `xs.find(p)`
  abbrev pub find : (A → Bool) → List A → Option A
  find p [] = none
  find p (x ∷ xs) = let rest = find p xs in if p x then some x else rest

  -- `xs.some(p)`
  abbrev pub any : (A → Bool) → List A → Bool
  any p [] = false
  any p (x ∷ xs) = p x || any p xs

  pub length-append : (xs ys : List A) → length (xs ++ ys) ≡ length xs + length ys
  length-append [] ys = omega arith
  length-append (x ∷ xs) ys = omega (arith, length-append xs ys)

-- Every element satisfies `P`.
abbrev pub All {ℓ κ} : {A : Type ℓ} → (A → Type κ) → List A → Type κ
All P [] = Unit
All P (x ∷ xs) = P x × All P xs

pub All-append {ℓ κ} :
    {A : Type ℓ} (P : A → Type κ) (xs ys : List A) → All P xs → All P ys → All P (xs ++ ys)
All-append P [] ys hx hy = hy
All-append P (x ∷ xs) ys hx hy = (hx.0, All-append P xs ys hx.1 hy)

module _ {ℓ} {A : Type ℓ} where
  pub filter-append :
      (p : A → Bool) (xs ys : List A) → filter p (xs ++ ys) ≡ filter p xs ++ filter p ys
  filter-append p [] ys = refl
  filter-append p (x ∷ xs) ys = elim (Bool-cases (p x)) [
    | inl e ↦ rw (e, filter-append p xs ys)
    | inr e ↦ rw (e, filter-append p xs ys)
  ]

  pub mem-filter :
      (p : A → Bool) {a : A} (xs : List A) → Memᴰ a xs → p a ≡ true → Memᴰ a (filter p xs)
  mem-filter p [] m h = absurd (Memᴰ.not-nil m)
  mem-filter p {a} (x ∷ xs) (Memᴰ.head e) h = rw ((ap p (sym e) ∙ h)) (Memᴰ.head e)
  mem-filter p {a} (x ∷ xs) (Memᴰ.tail m) h = elim (Bool-cases (p x)) [
    | inl e ↦ rw e (Memᴰ.tail (mem-filter p xs m h))
    | inr e ↦ rw e (mem-filter p xs m h)
  ]

-- Some element satisfies `P`.
abbrev pub Exists {ℓ κ} : {A : Type ℓ} → (A → Type κ) → List A → Type (ℓ ⊔ κ)
Exists {A = A} P xs = (x : A) × Memᴰ x xs × P x

module _ {ℓ κ} {A : Type ℓ} {P : A → Type κ} where
  pub Exists-append_left : {xs : List A} (ys : List A) → Exists P xs → Exists P (xs ++ ys)
  Exists-append_left ys (x, m, p) = (x, Memᴰ.append_left ys m, p)

  pub Exists-append_right : (xs : List A) {ys : List A} → Exists P ys → Exists P (xs ++ ys)
  Exists-append_right xs (x, m, p) = (x, Memᴰ.append_right xs m, p)

  pub Exists-cons : (y : A) {xs : List A} → Exists P xs → Exists P (y ∷ xs)
  Exists-cons y (x, m, p) = (x, Memᴰ.tail m, p)

module _ {ℓ} {A : Type ℓ} (p : A → Bool) where
  pub Exists-of_any : (xs : List A) → any p xs ≡ true → Exists (λ x. p x ≡ true) xs
  Exists-of_any [] h = absurd (false≢true h)
  Exists-of_any (x ∷ xs) h = elim (Bool-cases (p x)) [
    | inl e ↦ (x, Memᴰ.head refl, e)
    | inr e ↦ Exists-cons x (Exists-of_any xs (rw e at h))
  ]

  pub any_of_Memᴰ : {x : A} (xs : List A) → Memᴰ x xs → p x ≡ true → any p xs ≡ true
  any_of_Memᴰ [] m h = absurd (Memᴰ.not-nil m)
  any_of_Memᴰ (y ∷ xs) (Memᴰ.head e) h = rw (ap p (sym e) ∙ h)
  any_of_Memᴰ (y ∷ xs) (Memᴰ.tail m) h = ground (arith, any_of_Memᴰ xs m h)

  pub Memᴰ-filter : {x : A} (xs : List A) → Memᴰ x (filter p xs) → Memᴰ x xs × (p x ≡ true)
  Memᴰ-filter [] m = absurd (Memᴰ.not-nil m)
  Memᴰ-filter {x} (y ∷ xs) m = elim (Bool-cases (p y)) [
    | inl e ↦ elim (Memᴰ.cases_cons (rw e at m)) [
      | inl q ↦ (Memᴰ.head q, ap p q ∙ e)
      | inr r ↦ let (here, fits) = Memᴰ-filter xs r in (Memᴰ.tail here, fits)
    ]
    | inr e ↦ let (here, fits) = Memᴰ-filter xs (rw e at m) in (Memᴰ.tail here, fits)
  ]

pub All-imp {ℓ κ ν} :
    {A : Type ℓ} {P : A → Type κ} {Q : A → Type ν} (xs : List A)
    → ((a : A) → P a → Q a)
    → All P xs
    → All Q xs
All-imp [] f h = tt
All-imp (x ∷ xs) f h = (f x h.0, All-imp xs f h.1)

pub All-of_Memᴰ {ℓ κ} :
    {A : Type ℓ} {P : A → Type κ} (xs : List A) → ((a : A) → Memᴰ a xs → P a) → All P xs
All-of_Memᴰ [] f = tt
All-of_Memᴰ (x ∷ xs) f = (f x (Memᴰ.head refl), All-of_Memᴰ xs (λ a m. f a (Memᴰ.tail m)))

pub All-map {ℓ κ ν} :
    {A : Type ℓ} {B : Type κ} (P : B → Type ν) (f : A → B) (xs : List A)
    → All (λ a. P (f a)) xs
    → All P (map f xs)
All-map P f [] h = tt
All-map P f (x ∷ xs) h = (h.0, All-map P f xs h.1)
