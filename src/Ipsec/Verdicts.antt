-- ===== src/Ipsec/Verdicts.antt =====
-- src/components/Layout/IpsecCredentialForm.tsx: what `handleSubmit` comes to, with the checks that it
-- has passed.
use Prim.Native.String as Chars
use davy_jones.Prelude.{
  String, ◌≡◌, refl, ap, ◌∙◌, true, false, Option, none, some, [], ◌∷◌, inl, inr, Option-cases,
  Bool-cases,
}
use davy_jones.Prelude.Text.{truthy, template}
use davy_jones.Prelude.Trim.{cons-not_empty}
use davy_jones.Ipsec.{
  State, refused, update, create, request, check_material, check_braces, handle_submit,
  find_brace_field, missing, payload_of,
}

-- the state with the error cleared, which a submit leaves when it makes a request
abbrev pub asked : State → State
asked s = record s { error = none }

pub data Verdict (s : State) : Type 0 where
  stopped :
      (message : String) → handle_submit s ≡ refused (record s { error = some message }) → Verdict s
  created :
      find_brace_field s.form ≡ none
      → missing s.form ≡ none
      → truthy s.editing_id ≡ false
      → handle_submit s ≡ create (payload_of false s.form) (asked s)
      → Verdict s
  updated :
      (id : String)
      → s.editing_id ≡ some id
      → truthy (some id) ≡ true
      → find_brace_field s.form ≡ none
      → handle_submit s ≡ update id (payload_of true s.form) (asked s)
      → Verdict s

request-create :
    (editing : Option String) (s : State)
    → truthy editing ≡ false
    → request editing s ≡ create (payload_of false s.form) s
unfolding request
request-create none s h = refl
request-create (some Chars.[]) s h = refl
request-create (some (Chars.◌∷◌ c t)) s h = cc

pub request-update :
    (id : String) (s : State)
    → truthy (some id) ≡ true
    → request (some id) s ≡ update id (payload_of true s.form) s
unfolding request
request-update Chars.[] s h = cc
request-update (Chars.◌∷◌ c t) s h = rw (cons-not_empty c t) refl

truthy-some :
    (editing : Option String)
    → truthy editing ≡ true
    → (id : String) × (editing ≡ some id) × (truthy (some id) ≡ true)
truthy-some none h = cc
truthy-some (some id) h = (id, refl, h)

pub handle_submit-update :
    (s : State) (id : String)
    → s.editing_id ≡ some id
    → truthy (some id) ≡ true
    → find_brace_field s.form ≡ none
    → handle_submit s ≡ update id (payload_of true s.form) (asked s)
unfolding handle_submit check_braces check_material
handle_submit-update s id e t clean =
    let editing : truthy s.editing_id ≡ true = rw e t in
    rw (clean, editing)
      (ap (λ (o : Option String). request o (asked s)) e ∙ request-update id (asked s) t)

pub handle_submit-create :
    (s : State)
    → truthy s.editing_id ≡ false
    → find_brace_field s.form ≡ none
    → missing s.form ≡ none
    → handle_submit s ≡ create (payload_of false s.form) (asked s)
unfolding handle_submit check_braces check_material
handle_submit-create s fresh clean complete =
    rw (clean, fresh, complete) (request-create s.editing_id (asked s) fresh)

pub verdict : (s : State) → Verdict s
unfolding handle_submit check_braces check_material
verdict s = elim (Option-cases (find_brace_field s.form)) [
  | inr (label, e) ↦ stopped (template (label ∷ " must not contain \"{{\"." ∷ [])) (rw e refl)
  | inl e ↦ elim (Bool-cases (truthy s.editing_id)) [
    | inl b ↦
        let (id, f, t) = truthy-some s.editing_id b in
        updated id f t e (handle_submit-update s id f t e)
    | inr b ↦ elim (Option-cases (missing s.form)) [
      | inr (message, f) ↦ stopped message (rw (e, b, f) refl)
      | inl f ↦ created e f b (handle_submit-create s b e f)
    ]
  ]
]
