-- ===== src/Accounts/Users.antt =====
-- src/components/Admin/UsersTab.tsx: the list of accounts and its changes. A change is a request and,
-- when it returns, a reload.
use davy_jones.Prelude.{
  String, Bool, true, false, not, ◌||◌, Option, none, some, List, [], ◌∷◌, length, leb,
}
use davy_jones.Types.{Role, admin, readwrite, read, write, User}
use davy_jones.Auth.{Answer, returned, thrown}

abbrev pub roles : List Role
roles = admin ∷ readwrite ∷ read ∷ write ∷ []

pub record State : Type 0 where
  pub users : List User
  pub loading : Bool
  pub username : String
  pub password : String
  pub role : Role
  pub error : Option String

abbrev pub opened : State
opened = record {
  users = [];
  loading = true;
  username = "";
  password = "";
  role = readwrite;
  error = none;
}

-- `isAdmin`
unfoldable pub is_admin : Option User → Bool
is_admin none = false
is_admin (some u) = elim u.role [ admin ↦ true | readwrite ↦ false | read ↦ false | write ↦ false ]

pub data UserRequest : Type 0 where
  create : String → String → Role → UserRequest
  set_role : String → Role → UserRequest
  remove : String → UserRequest

-- a request that is begun: the error is cleared
unfoldable pub begin : State → State
begin s = record s { error = none }

-- the request of `handleSubmit`
unfoldable pub create_request : State → UserRequest
create_request s = create s.username s.password s.role

-- what follows a request that has returned, before the reload
unfoldable pub after_request : UserRequest → State → State
after_request (create username password role) s = record s { username = ""; password = "" }
after_request (set_role id role) s = s
after_request (remove id) s = s

-- `reload`, inside the `try`
unfoldable pub reload : Answer (List User) → State → State
reload (returned users) s = record s { users = users; loading = false }
reload (thrown e) s = record s { error = some e }

-- the rest of `handleSubmit`, `handleRoleChange` or `handleDelete`
unfoldable pub settle : UserRequest → Answer (Unit {0}) → Answer (List User) → State → State
unfolding after_request reload
settle r (returned _) listed s = reload listed (after_request r s)
settle r (thrown e) listed s = record s { error = some e }

-- whether the button that deletes an account is disabled
unfoldable pub is_kept : Option User → State → Bool
unfolding is_admin
is_kept current s = leb (length s.users) 1 || not (is_admin current)
