-- ===== src/Prelude/Dict.antt =====
-- JavaScript's `Map` with string keys, in insertion order: `set` of a key that is there keeps its
-- place. Clients compute with `dict_laws`.
use mathlib.Core.Path.{◌≡◌, refl, sym}
use mathlib.Core.Logic.{inl, inr}
use mathlib.Core.Option.{Option, none, some}
use mathlib.Core.List.{List, [], ◌∷◌, ◌++◌, append-nil, append_assoc}
use Prim.Native.String.{String}
use native.Mathlib.Omega.{arith}
use text.Mathlib.Text.{◌==◌}
use text.Mathlib.TextEquality.{eq_iff}
use davy_jones.Prelude.Tests.{if◌then◌else◌, Bool-cases, or_else}
use davy_jones.Prelude.Lists.{filter}

abbrev pub Dict {ℓ} : Type ℓ → Type ℓ
Dict V = List (String × V)

module _ {ℓ} {V : Type ℓ} where
  -- `m.get(k)`
  unfoldable pub get : Dict V → String → Option V
  get [] k = none
  get ((j, v) ∷ m) k = if j == k then some v else get m k

  -- `m.set(k, v)`
  unfoldable pub set : Dict V → String → V → Dict V
  set [] k v = (k, v) ∷ []
  set ((j, w) ∷ m) k v = if j == k then (j, v) ∷ m else (j, w) ∷ set m k v

  pub get-set :
      (m : Dict V) (k j : String) (v : V) → get (set m k v) j ≡ (if k == j then some v else get m j)
  unfolding get set
  get-set [] k j v = refl
  get-set ((i, w) ∷ m) k j v = ground (arith, eq_iff k j, eq_iff i k, eq_iff i j, get-set m k j v)

-- `const arr = m.get(k) ?? []; arr.push(a); m.set(k, arr)`
unfoldable pub push {ℓ} : {A : Type ℓ} → Dict (List A) → String → A → Dict (List A)
push m k a = set m k (or_else (get m k) [] ++ a ∷ [])

-- the loop that files each element under its key
unfoldable pub group_from {ℓ} : {A : Type ℓ} → (A → String) → Dict (List A) → List A → Dict (List A)
group_from key m [] = m
group_from key m (x ∷ xs) = group_from key (push m (key x) x) xs

-- `m.get(k) ?? []`
abbrev pub bucket {ℓ} : {A : Type ℓ} → Dict (List A) → String → List A
bucket m k = or_else (get m k) []

module _ {ℓ} {A : Type ℓ} where
  pub bucket-push :
      (m : Dict (List A)) (k j : String) (a : A)
      → bucket (push m k a) j ≡ (if k == j then bucket m j ++ a ∷ [] else bucket m j)
  unfolding push
  bucket-push m k j a = ground (arith, get-set m k j (bucket m k ++ a ∷ []), eq_iff k j)

  bucket-group_from :
      (key : A → String) (m : Dict (List A)) (xs : List A) (k : String)
      → bucket (group_from key m xs) k ≡ bucket m k ++ filter (λ x. key x == k) xs
  unfolding group_from
  bucket-group_from key m [] k = sym (append-nil _)
  bucket-group_from key m (x ∷ xs) k =
      rw (bucket-group_from key (push m (key x) x) xs k, bucket-push)
        (elim (Bool-cases (key x == k)) [
          | inl e ↦ rw e (append_assoc (bucket m k) (x ∷ []) (filter (λ y. key y == k) xs))
          | inr e ↦ rw e refl
        ])

-- the map that files each element of `xs` under its key
unfoldable pub group_by {ℓ} : {A : Type ℓ} → (A → String) → List A → Dict (List A)
group_by key xs = group_from key [] xs

-- A bucket holds the elements with its key, in the order of the list.
pub bucket-group_by {ℓ} :
    {A : Type ℓ} (key : A → String) (xs : List A) (k : String)
    → bucket (group_by key xs) k ≡ filter (λ x. key x == k) xs
unfolding group_by get
bucket-group_by key xs k = bucket-group_from key [] xs k

pub ruleset dict_laws = (get-set, bucket-push, bucket-group_by)
