-- ===== src/Import/Names.antt =====
-- `dedupeName`: the loop ends, and its name is free.
use davy_jones.Prelude.{
  ℕ, zero, suc, ◌+◌, ◌≤◌, ◌<◌, String, Bool, true, false, not, ◌≡◌, refl, sym, ap, ◌∙◌, arith, List,
  [], ◌∷◌, ◌==◌, eq_iff, filter, any, length, Bool-cases, inl, inr,
}
use mathlib.Core.Bool.{false≢true}
use davy_jones.Prelude.Text.{concat, template, concat_cancel_left}
use davy_jones.Prelude.Decimal.{decimal, read, read-decimal}
use davy_jones.Types.{Project}
use davy_jones.Import.{is_taken, numbered, first_free, dedupe_name}

numbered_injective : (name : String) (m n : ℕ) → numbered name m ≡ numbered name n → m ≡ n
unfolding numbered template read
numbered_injective name m n e =
    let digits : concat (decimal m) ")" ≡ concat (decimal n) ")" =
      concat_cancel_left " (" _ _ (concat_cancel_left name _ _ e) in
    let same : read ")" m ≡ read ")" n =
      sym (read-decimal m ")") ∙ ap (λ s. read s 0) digits ∙ read-decimal n ")" in
    omega arith

module _ {A : Type 0} (p : A → Bool) where
  length-filter : (xs : List A) → length (filter (λ x. not (p x)) xs) ≤ length xs
  length-filter [] = omega arith
  length-filter (x ∷ xs) = ground (arith, length-filter xs)

  shorter_of_any : (xs : List A) → any p xs ≡ true → length (filter (λ x. not (p x)) xs) < length xs
  shorter_of_any [] h = absurd (false≢true h)
  shorter_of_any (x ∷ xs) h = elim (Bool-cases (p x)) [
    | inl e ↦ rw e (omega (arith, length-filter xs))
    | inr e ↦
        let later : any p xs ≡ true = rw e at h in rw e (omega (arith, shorter_of_any xs later))
  ]

  any-filter :
      (q : A → Bool) (xs : List A)
      → ((x : A) → p x ≡ true → q x ≡ true)
      → any p xs ≡ true
      → any p (filter q xs) ≡ true
  any-filter q [] h e = e
  any-filter q (x ∷ xs) h e = elim (Bool-cases (p x)) [
    | inl b ↦ rw (h x b, b) refl
    | inr b ↦
        let later : any p xs ≡ true = rw b at e in
        let found = any-filter q xs h later in
        elim (Bool-cases (q x)) [ inl c ↦ rw (c, b) found | inr c ↦ rw c found ]
  ]

module _ (name : String) (existing : List Project) where
  not_number :
      (s : String) (m : ℕ) {n : ℕ} → s ≡ numbered name m → n < m → not (s == numbered name n) ≡ true
  not_number s m {n} e less = elim (Bool-cases (s == numbered name n)) [
    | inl b ↦
        let same : m ≡ n = numbered_injective name m n (sym e ∙ (eq_iff s (numbered name n)).0 b) in
        absurd (omega (arith, same, less))
    | inr b ↦ rw b
  ]

  -- what is left of the projects after some rounds: those that can still take a name
  abbrev Covers : ℕ → List Project → Type 0
  Covers n rest =
      (m : ℕ)
      → n ≤ m
      → is_taken (numbered name m) existing ≡ true
      → is_taken (numbered name m) rest ≡ true

  abbrev without : ℕ → List Project → List Project
  without n rest = filter (λ (p : Project). not (p.name == numbered name n)) rest

  Covers-without : (n : ℕ) (rest : List Project) → Covers n rest → Covers (n + 1) (without n rest)
  unfolding is_taken
  Covers-without n rest h m le e =
      any-filter (λ (p : Project). p.name == numbered name m) _ rest
        (λ p q. not_number p.name m ((eq_iff p.name (numbered name m)).0 q) (omega arith))
        (h m (omega arith) e)

  first_free_ends :
      (fuel n : ℕ) (rest : List Project)
      → length rest ≤ fuel
      → Covers n rest
      → is_taken (first_free fuel name n existing) existing ≡ false
  unfolding first_free
  first_free_ends zero n [] le h = elim (Bool-cases (is_taken (numbered name n) existing)) [
    | inl e ↦ absurd (false≢true (unfold is_taken in h n (omega arith) e))
    | inr e ↦ e
  ]
  first_free_ends zero n (p ∷ rest) le h = absurd (omega (arith, le))
  first_free_ends (suc fuel) n rest le h = elim (Bool-cases (is_taken (numbered name n) existing)) [
    | inl e ↦
        let shorter : length (without n rest) < length rest =
          unfold is_taken in
          shorter_of_any (λ (p : Project). p.name == numbered name n) rest (h n (omega arith) e) in
        rw e (first_free_ends fuel (n + 1) (without n rest) (omega arith) (Covers-without n rest h))
    | inr e ↦ rw (e, e)
  ]

  -- The loop ends: as many rounds as there are projects are enough for a name that no project has,
  -- and a name that is free to begin with is kept.
  pub dedupe_name_lem :
      (is_taken (dedupe_name name existing) existing ≡ false)
      × (is_taken name existing ≡ false → dedupe_name name existing ≡ name)
  unfolding dedupe_name
  dedupe_name_lem = elim (Bool-cases (is_taken name existing)) [
    | inl e ↦ rw e (
      first_free_ends (length existing) 2 existing (omega arith) (λ m le taken. taken),
      λ free. absurd (false≢true (sym free)),
    )
    | inr e ↦ rw e (e, λ free. refl)
  ]
