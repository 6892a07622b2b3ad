-- ===== src/Auth/Session.antt =====
-- src/context/AuthContext.tsx: the session behind the phase "ready".
use davy_jones.Prelude.{
  String, ◌≡◌, ◌≢◌, refl, Bool, true, false, Option, none, some, List, [], ◌∷◌, arith, ◌⊎◌, inl,
  inr, Bool-cases, if◌then◌else◌,
}
use davy_jones.Prelude.Text.{truthy}
use davy_jones.Types.{SealStatus}
use davy_jones.Auth.{
  locked, ready, Answer, returned, thrown, Auth, fresh_page, Validation, Login, Replies, resume,
  resume_stored, check_setup, check_status, check_seal, evaluate, initialize_seal, submit_share,
  login, setup, logout, Event, evaluated, initialized_seal, submitted_share, set_up, logged_in,
  logged_out, handle, handle_all,
}

-- The interface is ready only with a token, and the one that it keeps is the one that it sends.
abbrev pub HasSession : Auth → Type 0
HasSession s = s.phase ≡ ready → (s.stored ≢ none) × (s.token ≡ s.stored)

evaluate-HasSession : (r : Replies) (s : Auth) → HasSession s → HasSession (evaluate r s)
unfolding evaluate
evaluate-HasSession r s h = ground arith

handle-HasSession : (e : Event) (s : Auth) → HasSession s → HasSession (handle e s)
unfolding handle
handle-HasSession (evaluated r) s h = evaluate-HasSession r s h
handle-HasSession (initialized_seal (thrown e) r) s h = ground arith
handle-HasSession (initialized_seal (returned shares) r) s h = evaluate-HasSession r _ h
handle-HasSession (submitted_share (thrown e) r) s h = ground arith
handle-HasSession (submitted_share (returned (status, true)) r) s h = evaluate-HasSession r _ h
handle-HasSession (submitted_share (returned (status, false)) r) s h = ground arith
handle-HasSession (set_up (thrown e) l) s h = ground arith
handle-HasSession (set_up (returned _) (thrown e)) s h = ground arith
handle-HasSession (set_up (returned _) (returned l)) s h = ground arith
handle-HasSession (logged_in (thrown e)) s h = ground arith
handle-HasSession (logged_in (returned l)) s h = ground arith
handle-HasSession (logged_out a) s h = ground arith

handle_all-HasSession : (es : List Event) (s : Auth) → HasSession s → HasSession (handle_all es s)
unfolding handle_all
handle_all-HasSession [] s h = h
handle_all-HasSession (e ∷ es) s h = handle_all-HasSession es (handle e s) (handle-HasSession e s h)

-- From a page that has just been loaded, whatever is called and whatever the server answers: the
-- phase is "ready" only with a stored token, and the requests send just this token.
pub handle_all-session :
    (stored : Option String) (es : List Event) → HasSession (handle_all es (fresh_page stored))
handle_all-session stored es = handle_all-HasSession es (fresh_page stored) (λ h. cc)

-- A call has failed, and the interface stays ready.
abbrev pub StaysReady : Auth → Auth → Type 0
StaysReady s s' = (s.phase ≡ ready) × (e : String) × (s'.error ≡ some e)

-- The server takes the stored token, and says whose it is.
abbrev pub IsResumed : Replies → Auth → Auth → Type 0
IsResumed r s s' =
    (t : String) × (v : Validation) × (s.stored ≡ some t)
    × (r.validate t ≡ returned v)
    × (v.valid ≡ true)
    × (s'.current_user ≡ v.user)

-- The server is initialised, open and set up.
abbrev pub IsOpen : Replies → Type 0
IsOpen r =
    (status : SealStatus) × (r.seal ≡ returned status)
    × (status.initialized ≡ true)
    × (status.sealed ≡ false)
    × (r.is_setup ≡ returned true)

resume-ready :
    (r : Replies) (a : Answer Validation) (t : String) (s : Auth)
    → s.stored ≡ some t
    → r.validate t ≡ a
    → (resume a t s).phase ≡ ready
    → IsResumed r s (resume a t s) ⊎ StaysReady s (resume a t s)
unfolding resume
resume-ready r (thrown e) t s k q h = inr (h, e, refl)
resume-ready r (returned v) t s k q h = elim (Bool-cases v.valid) [
  | inl b ↦ inl (t, v, k, q, b, rw b refl)
  | inr b ↦ absurd (ground arith)
]

resume_stored-ready :
    (r : Replies) (o : Option String) (s : Auth)
    → s.stored ≡ o
    → (resume_stored r o s).phase ≡ ready
    → IsResumed r s (resume_stored r o s) ⊎ StaysReady s (resume_stored r o s)
unfolding resume_stored
resume_stored-ready r none s k h = absurd (ground arith)
resume_stored-ready r (some t) s k h = elim (Bool-cases (truthy (some t))) [
  | inl b ↦ rw b (resume-ready r (r.validate t) t s k refl (rw b at h))
  | inr b ↦ absurd (ground arith)
]

check_setup-ready :
    (r : Replies) (a : Answer Bool) (s : Auth) (status : SealStatus)
    → (r.seal ≡ returned status) × (status.initialized ≡ true) × (status.sealed ≡ false)
    → r.is_setup ≡ a
    → (check_setup r a s).phase ≡ ready
    → (IsOpen r × IsResumed r s (check_setup r a s)) ⊎ StaysReady s (check_setup r a s)
unfolding check_setup
check_setup-ready r (thrown e) s status o q h = inr (h, e, refl)
check_setup-ready r (returned false) s status o q h = absurd (ground arith)
check_setup-ready r (returned true) s status o q h =
    elim (resume_stored-ready r s.stored s refl h) [
      | inl k ↦ inl ((status, o.0, o.1, o.2, q), k)
      | inr k ↦ inr k
    ]

check_status-ready :
    (r : Replies) (i c : Bool) (s : Auth) (status : SealStatus)
    → r.seal ≡ returned status
    → status.initialized ≡ i
    → status.sealed ≡ c
    → (check_status i c r s).phase ≡ ready
    → (IsOpen r × IsResumed r s (check_status i c r s)) ⊎ StaysReady s (check_status i c r s)
unfolding check_status
check_status-ready r false c s status o p q h = absurd (ground arith)
check_status-ready r true true s status o p q h = absurd (ground arith)
check_status-ready r true false s status o p q h =
    check_setup-ready r r.is_setup s status (o, p, q) refl h

check_seal-ready :
    (r : Replies) (a : Answer SealStatus) (s : Auth)
    → r.seal ≡ a
    → (check_seal r a s).phase ≡ ready
    → (IsOpen r × IsResumed r s (check_seal r a s)) ⊎ StaysReady s (check_seal r a s)
unfolding check_seal
check_seal-ready r (thrown e) s q h = inr (h, e, refl)
check_seal-ready r (returned status) s q h =
    check_status-ready r status.initialized status.sealed (record s { seal_status = some status })
      status q refl refl h

-- `evaluate` makes the interface ready only if the server is initialised, open and set up and takes
-- the stored token, whose user is then the current one; else it was ready before and a call failed.
pub evaluate-ready :
    (r : Replies) (s : Auth)
    → (evaluate r s).phase ≡ ready
    → (IsOpen r × IsResumed r s (evaluate r s)) ⊎ StaysReady s (evaluate r s)
unfolding evaluate
evaluate-ready r s h = check_seal-ready r r.seal s refl h

truthy_of_ne : (t : String) → t ≢ "" → (if truthy (some t) then some t else none) ≡ some t
truthy_of_ne String.[] h = absurd (h refl)
truthy_of_ne (String.◌∷◌ c t) h = refl

-- Whatever the server answers, a logout leaves no token, no user and the phase "locked", and sends
-- the server the stored token, unless that is missing or empty.
pub logout_clears :
    (a : Answer Unit) (s : Auth)
    → ((logout a s).0.phase ≡ locked)
      × ((logout a s).0.stored ≡ none)
      × ((logout a s).0.token ≡ none)
      × ((logout a s).0.current_user ≡ none)
      × ((t : String) → s.stored ≡ some t → t ≢ "" → (logout a s).1 ≡ some t)
      × (s.stored ≡ none → (logout a s).1 ≡ none)
unfolding logout
logout_clears a s = (refl, refl, refl, refl, λ t e h. rw e (truthy_of_ne t h), λ e. rw e refl)

-- A failed call reports its error and changes nothing else: the phase, the session, the user and
-- the shares stay.
pub thrown_keeps :
    (e : String) (r : Replies) (l : Answer Login) (s : Auth)
    → (login (thrown e) s ≡ record s { error = some e })
      × (setup (thrown e) l s ≡ record s { error = some e })
      × (initialize_seal (thrown e) r s ≡ record s { error = some e })
      × (submit_share (thrown e) r s ≡ record s { error = some e })
      × (r.seal ≡ thrown e → evaluate r s ≡ record s { error = some e })
unfolding login setup initialize_seal submit_share evaluate
thrown_keeps e r l s = (refl, refl, refl, refl, λ q. rw q refl)

-- `evaluate` never touches the shares.
evaluate-fresh_shares : (r : Replies) (s : Auth) → (evaluate r s).fresh_shares ≡ s.fresh_shares
unfolding evaluate
evaluate-fresh_shares r s = ground arith

-- The shares of a new seal are kept, whatever is called, until a share opens the seal or another
-- seal is initialised.
pub handle-fresh_shares :
    (ev : Event) (s : Auth)
    → ((handle ev s).fresh_shares ≡ s.fresh_shares)
      ⊎ ((status : SealStatus) × (r : Replies) × (ev ≡ submitted_share (returned (status, true)) r))
      ⊎ ((shares : List String) × (r : Replies) × (ev ≡ initialized_seal (returned shares) r)
          × ((handle ev s).fresh_shares ≡ some shares))
unfolding handle
handle-fresh_shares (evaluated r) s = inl (evaluate-fresh_shares r s)
handle-fresh_shares (initialized_seal (thrown e) r) s = inl refl
handle-fresh_shares (initialized_seal (returned shares) r) s =
    inr (inr (shares, r, refl, evaluate-fresh_shares r _))
handle-fresh_shares (submitted_share (thrown e) r) s = inl refl
handle-fresh_shares (submitted_share (returned (status, true)) r) s = inr (inl (status, r, refl))
handle-fresh_shares (submitted_share (returned (status, false)) r) s = inl refl
handle-fresh_shares (set_up (thrown e) l) s = inl refl
handle-fresh_shares (set_up (returned _) (thrown e)) s = inl refl
handle-fresh_shares (set_up (returned _) (returned l)) s = inl refl
handle-fresh_shares (logged_in (thrown e)) s = inl refl
handle-fresh_shares (logged_in (returned l)) s = inl refl
handle-fresh_shares (logged_out a) s = inl refl
