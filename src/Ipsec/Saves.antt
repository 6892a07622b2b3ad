-- ===== src/Ipsec/Saves.antt =====
-- src/components/Layout/IpsecCredentialForm.tsx with backend/ipsec.go: an edit that is saved, and a save
-- that fails.
use davy_jones.Prelude.{String, ◌==◌, ◌≡◌, refl, sym, ap, ◌∙◌, Bool, true, false, none, some}
use davy_jones.Prelude.Text.{truthy}
use davy_jones.Types.{IpsecIkeMode}
use davy_jones.Auth.{thrown}
use davy_jones.Ipsec.Keys.{Form, Payload, TextKey, set_text}
use davy_jones.Ipsec.Server.{Stored, to_json, redact, merge, validate}
use davy_jones.Ipsec.{
  State, Submission, refused, update, create, handle_submit, start_edit, set_field, settle,
  payload_of, find_brace_field,
}
use davy_jones.Ipsec.Modes.{ike_value}
use davy_jones.Ipsec.Braces.{IsClean, IsCleanForm-find_brace_field, payload_in}
use davy_jones.Ipsec.CleanForms.{set_text-IsCleanForm}
use davy_jones.Ipsec.Records.{shown-IsCleanForm}
use davy_jones.Ipsec.Verdicts.{
  asked, handle_submit-update, handle_submit-create, verdict, stopped, created, updated,
}
use davy_jones.Ipsec.Edits.{
  shown, answer_for, start_edit-shown, is_secret, with_text, merge-set_text,
}

-- the form of a profile that the server has sent, with one field changed
abbrev pub edited : Bool → IpsecIkeMode → Stored → TextKey → String → State → State
edited secrets m c k v s = set_field k v (start_edit (to_json m (answer_for secrets c)) s)

edited-form :
    (secrets : Bool) (m : IpsecIkeMode) (c : Stored) (k : TextKey) (v : String) (s : State)
    → (edited secrets m c k v s).form ≡ set_text k v (shown m c)
unfolding set_field
edited-form secrets m c k v s = ap (set_text k v) (start_edit-shown secrets m c s)

edited-id :
    (secrets : Bool) (m : IpsecIkeMode) (c : Stored) (k : TextKey) (v : String) (s : State)
    → (edited secrets m c k v s).editing_id ≡ some c.id
unfolding set_field start_edit to_json
edited-id true m c k v s = refl
edited-id false m c k v s = unfold redact in refl

-- An edit that puts one text into a field and is saved changes this text of the stored record, and
-- nothing else: no secret is lost, whether or not the account may read secrets. The record is one that
-- the server accepts, under an id that is not empty, the new text contains no "{{", and a secret field
-- gets a text that is not empty.
pub edit_saved :
    (secrets : Bool) (m : IpsecIkeMode) (c : Stored) (k : TextKey) (v : String) (s : State)
    → c.ike_mode ≡ ike_value m
    → truthy (some c.id) ≡ true
    → validate c ≡ none
    → IsClean v
    → (is_secret k ≡ true → (v == "") ≡ false)
    → (p : Payload) × (handle_submit (edited secrets m c k v s)
        ≡ update c.id p (asked (edited secrets m c k v s)))
      × (merge p c ≡ with_text k v c)
unfolding with_text
edit_saved secrets m c k v s mode id passes clean filled =
    let typed : State = edited secrets m c k v s in
    let form = edited-form secrets m c k v s in
    let braces : find_brace_field typed.form ≡ none = rw form (
      IsCleanForm-find_brace_field (set_text k v (shown m c))
        (set_text-IsCleanForm k v (shown m c) clean (shown-IsCleanForm m c passes))) in
    (
      payload_of true typed.form,
      handle_submit-update typed c.id (edited-id secrets m c k v s) id braces,
      ap (λ (f : Form). merge (payload_of true f) c) form
          ∙ merge-set_text m c k v filled
          ∙ ap (λ (t : String). with_text k v (record c { ike_mode = t })) (sym mode),
    )

-- the state that a submit leaves
abbrev pub state_in : Submission → State
state_in (refused s) = s
state_in (update id p s) = s
state_in (create p s) = s

-- When the request of a submit fails, the message is shown, the form keeps all that was typed, and the
-- next submit makes the same request again.
pub handle_submit-settle :
    (s : State) (p : Payload) (message : String)
    → payload_in (handle_submit s) ≡ some p
    → let failed = settle (thrown message) (state_in (handle_submit s)) in
      (failed.error ≡ some message)
      × (failed.form ≡ s.form)
      × (handle_submit failed ≡ handle_submit s)
unfolding settle
handle_submit-settle s p message h = elim (verdict s) [
  | stopped text e ↦ let nothing : none ≡ some p = rw e at h in cc
  | created braces complete fresh e ↦
      rw e
        (refl, refl, handle_submit-create (record s { error = some message }) fresh braces complete)
  | updated id f t braces e ↦
      rw e (refl, refl, handle_submit-update (record s { error = some message }) id f t braces)
]
