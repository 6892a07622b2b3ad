-- ===== src/Diagnostics/Moves.antt =====
-- src/components/Vpn/VpnDiagnostics.tsx: what an answer does to `busy` and to the actions that wait.
use mathlib.Core.List.{append-nil, append_assoc}
use davy_jones.Prelude.{
  ℕ, zero, suc, String, Bool, true, false, ◌≡◌, refl, sym, ap, ◌∙◌, ◌⊎◌, inl, inr, Option, none,
  some, List, [], ◌∷◌, ◌++◌, Bool-cases,
}
use davy_jones.Auth.{Answer, returned, thrown}
use davy_jones.Forms.Vpns.{CommandResult}
use davy_jones.Diagnostics.{
  Action, start, stop, ping, nc, label, State, settle_status, settle_logs, has_failed, show_failure,
  finish, Flow, status_refresh, logs_refresh, acting, following, follow, settle_call, Reply,
  to_call, to_status, to_logs, advance, advance_at,
}

-- the labels of the actions among what waits
abbrev pub labels_of : Flow → List String
labels_of (status_refresh vpn) = []
labels_of (logs_refresh vpn) = []
labels_of (acting a vpn) = label a ∷ []
labels_of (following a vpn status logs) = label a ∷ []

abbrev pub running : List Flow → List String
running [] = []
running (f ∷ fs) = labels_of f ++ running fs

abbrev pub listed : Option String → List String
listed none = []
listed (some b) = b ∷ []

pub running-append : (fs gs : List Flow) → running (fs ++ gs) ≡ running fs ++ running gs
running-append [] gs = refl
running-append (f ∷ fs) gs =
    ap (λ (l : List String). labels_of f ++ l) (running-append fs gs)
    ∙ sym (append_assoc (labels_of f) (running fs) (running gs))

-- Either nothing of it changes, or one action has ended and `busy` is null.
abbrev pub HasMoved : List String → List String → Option String → Option String → Type 0
HasMoved before after b c =
    ((c ≡ b) × (after ≡ before))
    ⊎ ((xs : List String) × (ys : List String) × (a : String) × (c ≡ none)
        × (before ≡ xs ++ a ∷ ys)
        × (after ≡ xs ++ ys))

busy-show_failure : (r : CommandResult) (s : State) → (show_failure r s).busy ≡ s.busy
unfolding show_failure
busy-show_failure r s = elim (Bool-cases (has_failed r)) [ inl e ↦ rw e | inr e ↦ rw e ]

busy-settle_status : (r : Answer CommandResult) (s : State) → (settle_status r s).busy ≡ s.busy
unfolding settle_status
busy-settle_status (returned r) s = refl
busy-settle_status (thrown e) s = refl

busy-settle_logs : (r : Answer CommandResult) (s : State) → (settle_logs r s).busy ≡ s.busy
unfolding settle_logs
busy-settle_logs (returned r) s = refl
busy-settle_logs (thrown e) s = refl

follow-HasMoved :
    (a : Action) (vpn : String) (status logs : Bool) (s t : State)
    → t.busy ≡ s.busy
    → HasMoved
        (label a ∷ [])
        (running (follow a vpn status logs t).1)
        s.busy
        (follow a vpn status logs t).0.busy
unfolding follow finish
follow-HasMoved a vpn false false s t e = inr ([], [], label a, refl, refl, refl)
follow-HasMoved a vpn true logs s t e = inl (e, refl)
follow-HasMoved a vpn false true s t e = inl (e, refl)

settle_call-HasMoved :
    (a : Action) (vpn : String) (r : Answer CommandResult) (s : State)
    → HasMoved
        (label a ∷ [])
        (running (settle_call a vpn r s).1)
        s.busy
        (settle_call a vpn r s).0.busy
unfolding settle_call finish
settle_call-HasMoved a vpn (thrown e) s = inr ([], [], label a, refl, refl, refl)
settle_call-HasMoved start vpn (returned r) s =
    follow-HasMoved start vpn true true s (show_failure r s) (busy-show_failure r s)
settle_call-HasMoved stop vpn (returned r) s =
    follow-HasMoved stop vpn true true s (show_failure r s) (busy-show_failure r s)
settle_call-HasMoved ping vpn (returned r) s = inr ([], [], label ping, refl, refl, refl)
settle_call-HasMoved nc vpn (returned r) s = inr ([], [], label nc, refl, refl, refl)

advance-HasMoved :
    (r : Reply) (f : Flow) (s : State)
    → HasMoved (labels_of f) (running (advance r f s).1) s.busy (advance r f s).0.busy
unfolding advance
advance-HasMoved (to_status r) (status_refresh vpn) s = inl (busy-settle_status r s, refl)
advance-HasMoved (to_status r) (logs_refresh vpn) s = inl (refl, refl)
advance-HasMoved (to_status r) (acting a vpn) s = inl (refl, refl)
advance-HasMoved (to_status r) (following a vpn true logs) s =
    follow-HasMoved a vpn false logs s (settle_status r s) (busy-settle_status r s)
advance-HasMoved (to_status r) (following a vpn false logs) s = inl (refl, refl)
advance-HasMoved (to_logs r) (status_refresh vpn) s = inl (refl, refl)
advance-HasMoved (to_logs r) (logs_refresh vpn) s = inl (busy-settle_logs r s, refl)
advance-HasMoved (to_logs r) (acting a vpn) s = inl (refl, refl)
advance-HasMoved (to_logs r) (following a vpn status true) s =
    follow-HasMoved a vpn status false s (settle_logs r s) (busy-settle_logs r s)
advance-HasMoved (to_logs r) (following a vpn status false) s = inl (refl, refl)
advance-HasMoved (to_call r) (status_refresh vpn) s = inl (refl, refl)
advance-HasMoved (to_call r) (logs_refresh vpn) s = inl (refl, refl)
advance-HasMoved (to_call r) (acting a vpn) s = settle_call-HasMoved a vpn r s
advance-HasMoved (to_call r) (following a vpn status logs) s = inl (refl, refl)

HasMoved-append :
    (front back : List String) {before after : List String} {b c : Option String}
    → HasMoved before after b c
    → HasMoved (front ++ (before ++ back)) (front ++ (after ++ back)) b c
HasMoved-append front back (inl (e, f)) = inl (e, ap (λ (l : List String). front ++ (l ++ back)) f)
HasMoved-append front back (inr (xs, ys, a, e, f, g)) = inr (
  front ++ xs,
  ys ++ back,
  a,
  e,
  ap (λ (l : List String). front ++ (l ++ back)) f
      ∙ ap (λ (l : List String). front ++ l) (append_assoc xs (a ∷ ys) back)
      ∙ sym (append_assoc front xs (a ∷ (ys ++ back))),
  ap (λ (l : List String). front ++ (l ++ back)) g
      ∙ ap (λ (l : List String). front ++ l) (append_assoc xs ys back)
      ∙ sym (append_assoc front xs (ys ++ back)),
)

pub advance_at-HasMoved :
    (n : ℕ) (r : Reply) (fs : List Flow) (s : State)
    → HasMoved (running fs) (running (advance_at n r fs s).1) s.busy (advance_at n r fs s).0.busy
unfolding advance_at
advance_at-HasMoved n r [] s = inl (refl, refl)
advance_at-HasMoved zero r (f ∷ fs) s =
    rw (running-append (advance r f s).1 fs)
      (HasMoved-append [] (running fs) (advance-HasMoved r f s))
advance_at-HasMoved (suc n) r (f ∷ fs) s =
    let (t, gs) = advance_at n r fs s in
    let h : HasMoved (labels_of f ++ (running fs ++ [])) (labels_of f ++ (running gs ++ [])) s.busy
        t.busy =
      HasMoved-append (labels_of f) [] (advance_at-HasMoved n r fs s) in
    rw (append-nil (running fs), append-nil (running gs)) at h
