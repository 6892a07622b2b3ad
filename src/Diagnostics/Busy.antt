-- ===== src/Diagnostics/Busy.antt =====
-- src/components/Vpn/VpnDiagnostics.tsx: `busy` against the actions that wait for an answer.
use mathlib.Core.List.{append-nil}
use davy_jones.Prelude.{
  ℕ, String, Bool, true, ◌≡◌, refl, sym, ap, ◌∙◌, arith, inl, inr, ◌≢◌, Option, none, some, List,
  [], ◌∷◌, ◌++◌, Bool-cases,
}
use davy_jones.Diagnostics.{
  Action, start, stop, ping, nc, label, State, status_refresh, logs_refresh, acting, Reply,
  advance_at, is_enabled, begin, Panel, PanelEvent, select, refresh, refresh_logs, type_target,
  click, reply, refresh_both, opened, act, receive, hear, hear_all,
}
use davy_jones.Diagnostics.Moves.{running, listed, running-append, HasMoved, advance_at-HasMoved}

append_cons-not_empty : (xs ys : List String) (a : String) → xs ++ a ∷ ys ≢ []
append_cons-not_empty [] ys a h = cc
append_cons-not_empty (x ∷ xs) ys a h = cc

only_one : (xs ys : List String) (a l : String) → xs ++ a ∷ ys ≡ l ∷ [] → xs ++ ys ≡ []
only_one [] ys a l h = cc
only_one (x ∷ xs) ys a l h =
    let rest : xs ++ a ∷ ys ≡ [] = cc in absurd (append_cons-not_empty xs ys a rest)

-- What is listed has one entry at most, so the action that ends is the only one.
HasMoved-listed :
    (before after : List String) (b c : Option String)
    → HasMoved before after b c
    → before ≡ listed b
    → after ≡ listed c
HasMoved-listed before after b c (inl (e, f)) h = f ∙ h ∙ ap listed (sym e)
HasMoved-listed before after none c (inr (xs, ys, a, e, f, g)) h =
    absurd (append_cons-not_empty xs ys a (sym f ∙ h))
HasMoved-listed before after (some l) c (inr (xs, ys, a, e, f, g)) h =
    g ∙ only_one xs ys a l (sym f ∙ h) ∙ ap listed (sym e)

running-receive :
    (n : ℕ) (r : Reply) (p : Panel)
    → running p.flows ≡ listed p.state.busy
    → running (receive n r p).flows ≡ listed (receive n r p).state.busy
unfolding receive
running-receive n r p h =
    HasMoved-listed (running p.flows) (running (advance_at n r p.flows p.state).1) p.state.busy
      (advance_at n r p.flows p.state).0.busy (advance_at-HasMoved n r p.flows p.state) h

-- The buttons are disabled while an action runs.
is_enabled-idle :
    (can_write : Bool) (a : Action) (s : State) → is_enabled can_write a s ≡ true → s.busy ≡ none
unfolding is_enabled
is_enabled-idle can_write start s h = ground arith
is_enabled-idle can_write stop s h = ground arith
is_enabled-idle can_write ping s h = ground arith
is_enabled-idle can_write nc s h = ground arith

busy-begin : (a : Action) (s : State) → (begin a s).busy ≡ some (label a)
unfolding begin
busy-begin start s = refl
busy-begin stop s = refl
busy-begin ping s = refl
busy-begin nc s = refl

running-act :
    (a : Action) (p : Panel)
    → p.state.busy ≡ none
    → running p.flows ≡ listed p.state.busy
    → running (act a p).flows ≡ listed (act a p).state.busy
unfolding act
running-act a p e h =
    running-append p.flows (acting a p.vpn ∷ [])
    ∙ ap (λ (l : List String). l ++ label a ∷ []) (h ∙ ap listed e)
    ∙ ap listed (sym (busy-begin a p.state))

running-hear :
    (can_write : Bool) (e : PanelEvent) (p : Panel)
    → running p.flows ≡ listed p.state.busy
    → running (hear can_write e p).flows ≡ listed (hear can_write e p).state.busy
unfolding hear refresh_both
running-hear can_write (select vpn) p h =
    running-append p.flows (status_refresh vpn ∷ logs_refresh vpn ∷ [])
    ∙ append-nil (running p.flows)
    ∙ h
running-hear can_write refresh p h =
    running-append p.flows (status_refresh p.vpn ∷ logs_refresh p.vpn ∷ [])
    ∙ append-nil (running p.flows)
    ∙ h
running-hear can_write refresh_logs p h =
    running-append p.flows (logs_refresh p.vpn ∷ []) ∙ append-nil (running p.flows) ∙ h
running-hear can_write (type_target t) p h = h
running-hear can_write (click a) p h = elim (Bool-cases (is_enabled can_write a p.state)) [
  | inl e ↦ rw e (running-act a p (is_enabled-idle can_write a p.state e) h)
  | inr e ↦ rw e h
]
running-hear can_write (reply n r) p h = running-receive n r p h

running-hear_all_from :
    (can_write : Bool) (es : List PanelEvent) (p : Panel)
    → running p.flows ≡ listed p.state.busy
    → running (hear_all can_write es p).flows ≡ listed (hear_all can_write es p).state.busy
unfolding hear_all
running-hear_all_from can_write [] p h = h
running-hear_all_from can_write (e ∷ es) p h =
    running-hear_all_from can_write es (hear can_write e p) (running-hear can_write e p h)

-- Whatever is clicked and selected, and in whatever order the answers come: the actions that wait for an
-- answer, or for the refreshes behind it, are the one that `busy` names, and none when it is null. So two
-- actions never run at a time.
pub running-hear_all :
    (can_write : Bool) (vpn : String) (es : List PanelEvent)
    → running (hear_all can_write es (opened vpn)).flows
      ≡ listed (hear_all can_write es (opened vpn)).state.busy
unfolding opened refresh_both
running-hear_all can_write vpn es = running-hear_all_from can_write es (opened vpn) refl
