-- ===== src/Auth.antt =====
-- src/context/AuthContext.tsx: the phases of the interface, with the session token that it keeps in
-- `localStorage` and hands to src/lib/api.ts. What the server answers is an argument.
pub mod Session
pub mod Gating
pub mod Tests
use davy_jones.Prelude.{String, Bool, true, false, Option, none, some, List, [], ◌∷◌, if◌then◌else◌}
use davy_jones.Prelude.Text.{truthy}
use davy_jones.Types.{SealStatus, User}

pub data AuthPhase : Type 0 where
  loading needs_init sealed needs_setup locked ready : AuthPhase

-- A call of the server returns or throws; `thrown` holds the text of the error.
pub data Answer (A : Type 0) : Type 0 where
  returned : A → Answer A
  thrown : String → Answer A

-- the state of the provider, `localStorage["dcc_session_token"]` and the `authToken` of api.ts
pub record Auth : Type 0 where
  pub phase : AuthPhase
  pub error : Option String
  pub seal_status : Option SealStatus
  pub fresh_shares : Option (List String)
  pub current_user : Option User
  pub stored : Option String
  pub token : Option String

-- the state of a page that has just been loaded
abbrev pub fresh_page : Option String → Auth
fresh_page stored = record {
  phase = loading;
  error = none;
  seal_status = none;
  fresh_shares = none;
  current_user = none;
  stored = stored;
  token = none;
}

-- `api.auth.validate(stored)`
pub record Validation : Type 0 where
  pub valid : Bool
  pub user : Option User

-- `api.auth.login(username, password)`
pub record Login : Type 0 where
  pub token : String
  pub user : User

-- what the server answers in one run of `evaluate`
pub record Replies : Type 0 where
  pub seal : Answer SealStatus
  pub is_setup : Answer Bool
  pub validate : String → Answer Validation

unfoldable pub fail_with : String → Auth → Auth
fail_with e s = record s { error = some e }

-- the end of `evaluate`, with what `validate` answers for the token `t`
unfoldable pub resume : Answer Validation → String → Auth → Auth
unfolding fail_with
resume (thrown e) t s = fail_with e s
resume (returned v) t s =
    if v.valid
    then record s { token = some t; current_user = v.user; phase = ready }
    else record s { stored = none; phase = locked }

unfoldable pub resume_stored : Replies → Option String → Auth → Auth
unfolding resume
resume_stored r none s = record s { phase = locked }
resume_stored r (some t) s =
    if truthy (some t) then resume (r.validate t) t s else record s { phase = locked }

unfoldable pub check_setup : Replies → Answer Bool → Auth → Auth
unfolding resume_stored fail_with
check_setup r (thrown e) s = fail_with e s
check_setup r (returned false) s = record s { phase = needs_setup }
check_setup r (returned true) s = resume_stored r s.stored s

-- the tests on `status.initialized` and `status.sealed`
unfoldable pub check_status : Bool → Bool → Replies → Auth → Auth
unfolding check_setup
check_status false _ r s = record s { phase = needs_init }
check_status true true r s = record s { phase = sealed }
check_status true false r s = check_setup r r.is_setup s

unfoldable pub check_seal : Replies → Answer SealStatus → Auth → Auth
unfolding check_status fail_with
check_seal r (thrown e) s = fail_with e s
check_seal r (returned status) s =
    check_status status.initialized status.sealed r (record s { seal_status = some status })

unfoldable pub evaluate : Replies → Auth → Auth
unfolding check_seal
evaluate r s = check_seal r r.seal s

unfoldable pub clear_error : Auth → Auth
clear_error s = record s { error = none }

unfoldable pub initialize_seal : Answer (List String) → Replies → Auth → Auth
unfolding evaluate fail_with clear_error
initialize_seal (thrown e) r s = fail_with e (clear_error s)
initialize_seal (returned shares) r s =
    evaluate r (record (clear_error s) { fresh_shares = some shares })

-- `api.seal.unseal(share)` answers the status and whether the seal is now open.
unfoldable pub submit_share : Answer (SealStatus × Bool) → Replies → Auth → Auth
unfolding evaluate fail_with clear_error
submit_share (thrown e) r s = fail_with e (clear_error s)
submit_share (returned (status, unsealed)) r s =
    let seen = record (clear_error s) { seal_status = some status } in
    if unsealed then evaluate r (record seen { fresh_shares = none }) else seen

unfoldable pub login : Answer Login → Auth → Auth
unfolding fail_with clear_error
login (thrown e) s = fail_with e (clear_error s)
login (returned l) s = record (clear_error s) {
  stored = some l.token;
  token = some l.token;
  current_user = some l.user;
  phase = ready;
}

-- `api.auth.setup`, then a login
unfoldable pub setup : Answer Unit → Answer Login → Auth → Auth
unfolding login fail_with clear_error
setup (thrown e) answer s = fail_with e (clear_error s)
setup (returned _) answer s = login answer s

-- The token, if there is one, is sent to `api.auth.logout`, whose answer is ignored.
unfoldable pub logout : Answer Unit → Auth → Auth × Option String
logout answer s = (
  record s { stored = none; token = none; current_user = none; phase = locked },
  if truthy s.stored then s.stored else none,
)

-- one call of the context by the interface, with the server's answers
pub data Event : Type 0 where
  evaluated : Replies → Event
  initialized_seal : Answer (List String) → Replies → Event
  submitted_share : Answer (SealStatus × Bool) → Replies → Event
  set_up : Answer Unit → Answer Login → Event
  logged_in : Answer Login → Event
  logged_out : Answer Unit → Event

unfoldable pub handle : Event → Auth → Auth
unfolding evaluate initialize_seal submit_share setup login logout
handle (evaluated r) s = evaluate r s
handle (initialized_seal a r) s = initialize_seal a r s
handle (submitted_share a r) s = submit_share a r s
handle (set_up a l) s = setup a l s
handle (logged_in l) s = login l s
handle (logged_out a) s = (logout a s).0

unfoldable pub handle_all : List Event → Auth → Auth
unfolding handle
handle_all [] s = s
handle_all (e ∷ es) s = handle_all es (handle e s)
