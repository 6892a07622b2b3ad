-- ===== src/Accounts/Tests.antt =====
-- Tests of the screens for accounts.
use davy_jones.Prelude.{◌≡◌, refl, arith, true, false, none, some}
use davy_jones.Prelude.Text.{has_char}
use davy_jones.Prelude.Trim.{trim}
use davy_jones.Accounts.Lengths.{utf16_length, utf8_length}
use davy_jones.Accounts.SignIn.{
  State, complaint, set_up, proceed, handle_submit, validate_credentials,
}
use davy_jones.Accounts.Seal
use davy_jones.Accounts.Accepted.{handle_submit-validate_credentials}

abbrev filled : State
filled = record {
  username = "ahab";
  password = "pequod";
  confirm = "pequod";
  submitting = false;
  local_error = none;
}

filled_passes : (handle_submit true filled).1 ≡ some (set_up "ahab" "pequod")
unfolding handle_submit complaint proceed utf16_length trim
filled_passes = refl

-- three characters, of one, one and two UTF-16 units
lengths_differ : (utf16_length "aé🐋" ≡ 4) × (utf8_length "aé🐋" ≡ 7)
unfolding utf16_length utf8_length
lengths_differ = (refl, refl)

handle_submit-validate_credentials_example :
    (validate_credentials "ahab" "pequod" ≡ none)
    × (filled.password ≡ "pequod")
    × (filled.confirm ≡ "pequod")
unfolding has_char utf8_length
handle_submit-validate_credentials_example =
    handle_submit-validate_credentials filled "ahab" "pequod" filled_passes refl (omega arith)

-- A share is sent without the blanks around it, and not twice.
share_is_trimmed :
    ((Seal.handle_submit (record Seal.opened { share = " 5af3 " })).1 ≡ some "5af3")
    × ((Seal.handle_submit (record Seal.opened { share = "5af3"; submitting = true })).1 ≡ none)
unfolding Seal.handle_submit trim
share_is_trimmed = (refl, refl)
