-- ===== src/Accounts/SignIn.antt =====
-- src/components/Auth/LoginScreen.tsx, on the provider of src/context/AuthContext.tsx, and the checks that
-- backend/auth.go makes of a new account.
use davy_jones.Prelude.{
  String, ◌==◌, Bool, true, false, not, Option, none, some, ltb, nat_eq, if◌then◌else◌,
}
use davy_jones.Prelude.Trim.{trim, trim_space}
use davy_jones.Auth.{Auth, Answer, Login, setup, login}
use davy_jones.Accounts.Lengths.{utf16_length, utf8_length}

pub record State : Type 0 where
  pub username : String
  pub password : String
  pub confirm : String
  pub submitting : Bool
  pub local_error : Option String

-- the checks of `handleSubmit`, for the mode "needs-setup" or not: the message of the first that fails
unfoldable pub complaint : Bool → State → Option String
unfolding utf16_length
complaint is_setup s =
    if nat_eq (utf16_length (trim s.username)) 0
    then some "Username is required."
    else if is_setup
    then if ltb (utf16_length s.password) 6
      then some "Password must be at least 6 characters long."
      else if not (s.password == s.confirm)
      then some "Passwords do not match."
      else none
    else none

-- the call of the provider, with the username and the password
pub data SignInCall : Type 0 where
  set_up log_in : String → String → SignInCall

unfoldable pub proceed : Bool → Option String → State → State × Option SignInCall
proceed is_setup (some message) s = (record s { local_error = some message }, none)
proceed is_setup none s = (
  record s { local_error = none; submitting = true },
  some (if is_setup then set_up s.username s.password else log_in s.username s.password),
)

-- `handleSubmit` up to its `await`
unfoldable pub handle_submit : Bool → State → State × Option SignInCall
unfolding complaint proceed
handle_submit is_setup s = proceed is_setup (complaint is_setup s) s

-- the `finally`
unfoldable pub settle : State → State
settle s = record s { submitting = false }

-- what the call does with the session, for the answers of the server
unfoldable pub carried_out : SignInCall → Answer (Unit {0}) → Answer Login → Auth → Auth
unfolding setup login
carried_out (set_up username password) created answer a = setup created answer a
carried_out (log_in username password) created answer a = login answer a

-- `validateCredentials` of the server
unfoldable pub validate_credentials : String → String → Option String
unfolding utf8_length
validate_credentials username password =
    if trim_space username == ""
    then some "username is required"
    else if ltb 64 (utf8_length username)
    then some "username must be at most 64 characters long"
    else if ltb (utf8_length password) 6
    then some "password must be at least 6 characters long"
    else none
