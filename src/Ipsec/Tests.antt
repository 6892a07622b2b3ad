-- ===== src/Ipsec/Tests.antt =====
-- Tests of the form for IPsec profiles.
use davy_jones.Prelude.{◌≡◌, refl, false, some, none}
use davy_jones.Prelude.Text.{includes, has_char}
use davy_jones.Prelude.Trim.{trim, trim_space}
use davy_jones.Types.{ikev2_psk}
use davy_jones.Auth.{thrown}
use davy_jones.Ipsec.Keys.{Payload, remote_ts_key, psk_key}
use davy_jones.Ipsec.Server.{Stored, merge, validate, check_mode}
use davy_jones.Ipsec.{
  State, opened, empty_form, handle_submit, update, create, payload_of, settle, missing,
  missing_for, find_brace_field, labelled, first_braced, check_braces, check_material, request,
  set_field, refused,
}
use davy_jones.Ipsec.Modes.{mode_of, ike_value}
use davy_jones.Ipsec.Braces.{IsCleanPayload, handle_submit-IsCleanPayload}
use davy_jones.Ipsec.Edits.{with_text}
use davy_jones.Ipsec.Saves.{edited, edit_saved, state_in, handle_submit-settle}
use davy_jones.Ipsec.Material.{zero_value, create-validate}
use davy_jones.Ipsec.Verdicts.{asked}

-- a new profile with a pre-shared key, filled in
abbrev typed : State
typed = record opened {
  form = record empty_form { name = "office"; ike_mode = ikev2_psk; psk = "s3cret" };
}

typed_payload : Payload
typed_payload = payload_of false typed.form

typed_creates : handle_submit typed ≡ create typed_payload (asked typed)
unfolding handle_submit typed_payload check_braces check_material request find_brace_field labelled
    first_braced missing mode_of missing_for includes trim
typed_creates = refl

-- The message names the field.
braced : State
braced = set_field psk_key "{{host}}" typed

braced_refused :
    handle_submit braced
    ≡ refused (record braced { error = some "Pre-shared key must not contain \"{{\"." })
unfolding braced handle_submit check_braces find_brace_field labelled first_braced includes
    set_field
braced_refused = refl

handle_submit-IsCleanPayload_example : IsCleanPayload typed_payload
handle_submit-IsCleanPayload_example =
    handle_submit-IsCleanPayload typed typed_payload (rw typed_creates refl)

handle_submit-settle_example :
    let failed = settle (thrown "offline") (state_in (handle_submit typed)) in
    (failed.error ≡ some "offline")
    × (failed.form ≡ typed.form)
    × (handle_submit failed ≡ handle_submit typed)
handle_submit-settle_example =
    handle_submit-settle typed typed_payload "offline" (rw typed_creates refl)

create-validate_example : validate (merge typed_payload zero_value) ≡ none
unfolding trim_space has_char
create-validate_example =
    create-validate typed (asked typed) typed_payload typed_creates refl
      (refl, (refl, (refl, (refl, (refl, tt)))))

abbrev office : Stored
office = record zero_value {
  id = "ipsec-1";
  name = "office";
  ike_mode = "ikev2-psk";
  psk = "s3cret";
  remote_id = "gw.example.com";
}

office_valid : validate office ≡ none
unfolding validate check_mode trim_space includes
office_valid = refl

edit_saved_example :
    (p : Payload) × (handle_submit (edited false ikev2_psk office remote_ts_key "10.0.0.0/8" opened)
      ≡ update "ipsec-1" p
          (asked (edited false ikev2_psk office remote_ts_key "10.0.0.0/8" opened)))
    × (merge p office ≡ with_text remote_ts_key "10.0.0.0/8" office)
unfolding includes ike_value
edit_saved_example =
    edit_saved false ikev2_psk office remote_ts_key "10.0.0.0/8" opened refl refl office_valid refl
      (λ secret. cc)
