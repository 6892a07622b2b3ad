-- ===== src/Accounts/Passwords.antt =====
-- src/components/Layout/ChangePasswordDialog.tsx.
use davy_jones.Prelude.{
  String, ◌==◌, Bool, true, false, not, ◌&&◌, Option, none, some, if◌then◌else◌,
}
use davy_jones.Auth.{Answer, returned, thrown}

pub record State : Type 0 where
  pub current : String
  pub next : String
  pub confirm : String
  pub saving : Bool
  pub error : Option String
  pub done : Bool

unfoldable pub mismatch : State → Bool
mismatch s = not (s.confirm == "") && not (s.next == s.confirm)

unfoldable pub can_submit : State → Bool
can_submit s = not (s.current == "") && not (s.next == "") && s.next == s.confirm && not s.saving

-- `handleSubmit` up to its `await`: the passwords that are sent, if any
unfoldable pub handle_submit : State → State × Option (String × String)
unfolding can_submit
handle_submit s =
    if can_submit s
    then (record s { saving = true; error = none }, some (s.current, s.next))
    else (s, none)

unfoldable pub settle : Answer (Unit {0}) → State → State
settle (returned _) s = record s { done = true; saving = false }
settle (thrown e) s = record s { error = some e; saving = false }
