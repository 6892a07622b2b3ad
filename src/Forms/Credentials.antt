-- ===== src/Forms/Credentials.antt =====
-- src/components/Layout/AddResourcesPanel.tsx, `CredentialForm`.
use davy_jones.Prelude.{String, ◌==◌, Bool, not, ◌&&◌, Option, none, some, or_else, if◌then◌else◌}
use davy_jones.Prelude.Text.{truthy}
use davy_jones.Prelude.Trim.{trim}
use davy_jones.Types.{Credential}
use davy_jones.Auth.{Answer}
use davy_jones.Forms.{Draft, Save, save, saved, or_undefined}

pub record CredentialForm : Type 0 where
  pub name : String
  pub username : String
  pub password : String
  pub private_key : String
  pub passphrase : String

abbrev pub empty_credential_form : CredentialForm
empty_credential_form = record {
  name = "";
  username = "";
  password = "";
  private_key = "";
  passphrase = "";
}

pub record CredentialPayload : Type 0 where
  pub name : String
  pub username : String
  pub password : Option String
  pub private_key : Option String
  pub passphrase : Option String

pub record State : Type 0 where
  pub draft : Draft CredentialForm
  pub error : Option String

unfoldable pub missing_auth : CredentialForm → Bool
missing_auth f = trim f.password == "" && trim f.private_key == ""

unfoldable pub start_edit : Credential → State → State
start_edit c s = record {
  draft = record {
    editing_id = some c.id;
    form = record {
      name = c.name;
      username = c.username;
      password = or_else c.password "";
      private_key = or_else c.private_key "";
      passphrase = or_else c.passphrase "";
    };
  };
  error = none;
}

unfoldable pub cancel_edit : State → State
cancel_edit s = record {
  draft = record { form = empty_credential_form; editing_id = none };
  error = none;
}

unfoldable pub credential_payload : CredentialForm → CredentialPayload
credential_payload f = record {
  name = f.name;
  username = f.username;
  password = or_undefined f.password;
  private_key = or_undefined f.private_key;
  passphrase = or_undefined f.passphrase;
}

abbrev pub needs_auth : String
needs_auth = "Enter a password or a private key -- at least one is required to run SSH commands."

-- `handleSubmit` up to its `await`: the state, and the request unless the form is refused
unfoldable pub handle_submit : State → State × Option (Save CredentialPayload)
unfolding missing_auth credential_payload save
handle_submit s =
    if missing_auth s.draft.form then (record s { error = some needs_auth }, none) else (
      record s { error = none },
      some (save s.draft.editing_id (credential_payload s.draft.form)),
    )

-- behind its `await`
unfoldable pub settle : Answer (Unit {0}) → State → State
unfolding saved
settle answer s = record s { draft = saved empty_credential_form answer s.draft }

-- `broken` in the list of credentials
unfoldable pub is_broken : Credential → Bool
is_broken c = not (truthy c.password) && not (truthy c.private_key)
