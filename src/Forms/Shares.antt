-- ===== src/Forms/Shares.antt =====
-- src/components/Layout/AddResourcesPanel.tsx, `toggleShare`: what a click on a project's box changes.
use davy_jones.Prelude.{
  String, ◌==◌, ◌≡◌, refl, arith, Bool, true, false, not, ◌||◌, List, [], ◌∷◌, ◌++◌, any, filter,
  inl, inr, Bool-cases, eq_iff, eq_refl, if◌then◌else◌,
}
use davy_jones.Forms.Vpns.{toggled, State, toggle_share}

-- `ids.includes(q)`, which checks the box of `q`
abbrev pub is_in : String → List String → Bool
is_in q ids = any (λ i. i == q) ids

any-append : (p : String → Bool) (xs ys : List String) → any p (xs ++ ys) ≡ any p xs || any p ys
any-append p [] ys = refl
any-append p (x ∷ xs) ys = ground (arith, any-append p xs ys)

is_in-filter :
    (q id : String) (ids : List String)
    → is_in q (filter (λ i. not (i == id)) ids) ≡ (if q == id then false else is_in q ids)
is_in-filter q id [] = ground arith
is_in-filter q id (i ∷ ids) =
    ground (arith, is_in-filter q id ids, eq_iff i id, eq_iff i q, eq_iff q id)

or_false : (b : Bool) → b || false ≡ b
or_false true = refl
or_false false = refl

toggled_lem :
    (id q : String) (ids : List String)
    → is_in q (toggled id ids) ≡ (if q == id then not (is_in q ids) else is_in q ids)
unfolding toggled
toggled_lem id q ids = elim (Bool-cases (q == id)) [
  | inl same ↦
      let one : q ≡ id = (eq_iff q id).0 same in
      elim (Bool-cases (is_in id ids)) [
        | inl e ↦ rw (e, is_in-filter q id ids, same, one, e) refl
        | inr e ↦ rw (e, any-append (λ i. i == q) ids (id ∷ []), same, one, e, eq_refl id) refl
      ]
  | inr other ↦
      let flipped : (id == q) ≡ false = ground (arith, eq_iff id q, eq_iff q id) in
      elim (Bool-cases (is_in id ids)) [
        | inl e ↦ rw (e, is_in-filter q id ids, other) refl
        | inr e ↦
            rw (e, any-append (λ i. i == q) ids (id ∷ []), other, flipped) (or_false (is_in q ids))
      ]
]

-- A click turns the box of its project over and leaves every other box as it is.
pub toggle_share_lem :
    (id q : String) (s : State)
    → is_in q (toggle_share id s).form.shared_project_ids ≡ (
        if q == id
        then not (is_in q s.form.shared_project_ids)
        else is_in q s.form.shared_project_ids)
unfolding toggle_share
toggle_share_lem id q s = toggled_lem id q s.form.shared_project_ids
