-- ===== src/Auth/Tests.antt =====
-- Tests of the phases of the interface.
use davy_jones.Prelude.{◌≡◌, refl, true, false, none, some, List, [], ◌∷◌}
use davy_jones.Types.{SealStatus, User, Role}
use davy_jones.Auth.{
  ready, needs_init, returned, thrown, Auth, fresh_page, Replies, evaluate, Event, evaluated,
  initialized_seal, submitted_share, logged_in, handle_all,
}
use davy_jones.Auth.Session.{HasSession, handle_all-session}

abbrev ann : User
ann = record { id = "u1"; username = "ann"; role = Role.read; created_at = "" }

abbrev status_of : SealStatus
status_of = record {
  initialized = true;
  sealed = false;
  progress = 3;
  threshold = 3;
  total_shares = 5;
}

-- a server that is open and takes every token
abbrev open_server : Replies
open_server = record {
  seal = returned status_of;
  is_setup = returned true;
  validate = λ t. returned (record { valid = true; user = some ann });
}

-- a server with no key yet
abbrev new_server : Replies
new_server = record {
  seal = returned (record status_of { initialized = false; sealed = true });
  is_setup = thrown "sealed";
  validate = λ t. thrown "sealed";
}

abbrev first_login : List Event
first_login =
    evaluated new_server
    ∷ initialized_seal (returned ("a" ∷ "b" ∷ [])) new_server
    ∷ submitted_share (returned (status_of, true)) open_server
    ∷ logged_in (returned (record { token = "t"; user = ann }))
    ∷ []

first_login_ready :
    ((handle_all first_login (fresh_page none)).phase ≡ ready)
    × ((handle_all first_login (fresh_page none)).token ≡ some "t")
    × ((evaluate new_server (fresh_page none)).phase ≡ needs_init)
unfolding handle_all
first_login_ready = (refl, refl, refl)

handle_all-session_example : HasSession (handle_all first_login (fresh_page none))
handle_all-session_example = handle_all-session none first_login

abbrev logged : Auth
logged = record (fresh_page (some "t")) { phase = ready; token = some "t"; current_user = some ann }

abbrev one_share : Event
one_share = submitted_share (returned (status_of, false)) new_server
