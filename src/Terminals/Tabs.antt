-- ===== src/Terminals/Tabs.antt =====
-- src/components/Dashboard.tsx: the active tab is an open one, and no selection outlives its resource.
use mathlib.Core.Bool.{false≢true}
use mathlib.Core.List.{Memᴰ}
use davy_jones.Prelude.{
  ℕ, zero, suc, String, ◌≡◌, ◌≢◌, refl, sym, ◌∙◌, true, false, not, Option, none, some, List, [],
  ◌∷◌, ◌==◌, eq_iff, eq_refl, arith, any_of_Memᴰ, any, mem-filter, Exists, Exists-append_right,
  Exists-cons, Bool-cases, ◌⊎◌, ◌↔◌, inl, inr, Memᴰ-filter, Exists-of_any,
}
use davy_jones.Types.{TerminalTab, NodeKind, vpn, host, service, SelectedNode, Project}
use davy_jones.Terminals.{
  Tray, no_tabs, add_tab, open_shell, run_command, last_id, is_active, close_terminal, close_all,
  select_tab, toggle_collapsed, same_kind, is_selected, delete_resource, check_active_project,
}

-- The active tab, if there is one, is open.
abbrev pub ActiveIsOpen : Tray → Type 0
ActiveIsOpen t =
    (id : String) → t.active ≡ some id → Exists (λ (tab : TerminalTab). tab.id ≡ id) t.tabs

last_id-open :
    (ts : List TerminalTab) (id : String)
    → last_id ts ≡ some id
    → Exists (λ (tab : TerminalTab). tab.id ≡ id) ts
unfolding last_id
last_id-open [] id h = cc
last_id-open (t ∷ []) id h = (t, Memᴰ.head refl, ground arith)
last_id-open (s ∷ t ∷ ts) id h = Exists-cons s (last_id-open (t ∷ ts) id h)

-- What the user does with the tray. A tab is selected by its place in the tray, and only if there is one.
pub data TrayEvent : Type 0 where
  opened : (id host_id host_name : String) → TrayEvent
  ran : (id host_id host_name command name : String) → TrayEvent
  closed : String → TrayEvent
  closed_all toggled : TrayEvent
  selected : ℕ → TrayEvent

-- the tab at a place
abbrev pub tab_at : List TerminalTab → ℕ → Option TerminalTab
tab_at [] i = none
tab_at (t ∷ ts) zero = some t
tab_at (t ∷ ts) (suc i) = tab_at ts i

unfoldable pub select_shown : Option TerminalTab → Tray → Tray
unfolding select_tab
select_shown none t = t
select_shown (some tab) t = select_tab tab t

unfoldable pub after : Tray → TrayEvent → Tray
unfolding open_shell run_command close_terminal close_all select_shown toggle_collapsed
after t (opened id h n) = open_shell id h n t
after t (ran id h n c name) = run_command id h n c name t
after t (closed id) = close_terminal id t
after t closed_all = close_all t
after t (selected i) = select_shown (tab_at t.tabs i) t
after t toggled = toggle_collapsed t

unfoldable pub after_all : Tray → List TrayEvent → Tray
unfolding after
after_all t [] = t
after_all t (e ∷ es) = after_all (after t e) es

tab_at-open :
    (ts : List TerminalTab) (i : ℕ) (tab : TerminalTab) → tab_at ts i ≡ some tab → Memᴰ tab ts
tab_at-open [] i tab h = cc
tab_at-open (t ∷ ts) zero tab h = let same : t ≡ tab = cc in Memᴰ.head (sym same)
tab_at-open (t ∷ ts) (suc i) tab h = Memᴰ.tail (tab_at-open ts i tab h)

add_tab-ActiveIsOpen : (tab : TerminalTab) (t : Tray) → ActiveIsOpen (add_tab tab t)
unfolding add_tab
add_tab-ActiveIsOpen tab t id e = Exists-append_right t.tabs (tab, Memᴰ.head refl, ground arith)

still_kept :
    (id a j : String) (active : Option String)
    → active ≡ some a
    → is_active active id ≡ false
    → j ≡ a
    → not (j == id) ≡ true
still_kept id a j active e b same = let other : (a == id) ≡ false = rw e at b in rw (same, other)

close_terminal-ActiveIsOpen :
    (id : String) (t : Tray) → ActiveIsOpen t → ActiveIsOpen (close_terminal id t)
unfolding close_terminal
close_terminal-ActiveIsOpen id t h a e = elim (Bool-cases (is_active t.active id)) [
  | inl b ↦ last_id-open _ a (rw b at e)
  | inr b ↦
      let still : t.active ≡ some a = rw b at e in
      let (tab, m, same) = h a still in
      (tab, mem-filter _ t.tabs m (still_kept id a tab.id t.active still b same), same)
]

select_shown-ActiveIsOpen :
    (o : Option TerminalTab) (t : Tray)
    → ((tab : TerminalTab) → o ≡ some tab → Memᴰ tab t.tabs)
    → ActiveIsOpen t
    → ActiveIsOpen (select_shown o t)
unfolding select_shown select_tab
select_shown-ActiveIsOpen none t there k = k
select_shown-ActiveIsOpen (some tab) t there k = λ id e. (tab, there tab refl, ground arith)

after-ActiveIsOpen : (t : Tray) (e : TrayEvent) → ActiveIsOpen t → ActiveIsOpen (after t e)
unfolding after close_all toggle_collapsed
after-ActiveIsOpen t (opened id h n) k = unfold open_shell in add_tab-ActiveIsOpen _ t
after-ActiveIsOpen t (ran id h n c name) k = unfold run_command in add_tab-ActiveIsOpen _ t
after-ActiveIsOpen t (closed id) k = close_terminal-ActiveIsOpen id t k
after-ActiveIsOpen t closed_all k = λ id e. cc
after-ActiveIsOpen t (selected i) k =
    select_shown-ActiveIsOpen (tab_at t.tabs i) t (tab_at-open t.tabs i) k
after-ActiveIsOpen t toggled k = k

after_all-ActiveIsOpen_from :
    (t : Tray) (es : List TrayEvent) → ActiveIsOpen t → ActiveIsOpen (after_all t es)
unfolding after_all
after_all-ActiveIsOpen_from t [] k = k
after_all-ActiveIsOpen_from t (e ∷ es) k =
    after_all-ActiveIsOpen_from (after t e) es (after-ActiveIsOpen t e k)

-- From the tray of a fresh page, without tabs, whatever the user does with the tray: the active tab is
-- an open one.
pub after_all-ActiveIsOpen : (es : List TrayEvent) → ActiveIsOpen (after_all no_tabs es)
after_all-ActiveIsOpen es = after_all-ActiveIsOpen_from no_tabs es (λ id e. cc)

ne_of_not : (a b : String) → not (a == b) ≡ true → a ≢ b
ne_of_not a b h e = ground (arith, eq_iff a b)

not_of_ne : (a b : String) → a ≢ b → not (a == b) ≡ true
not_of_ne a b h = ground (arith, eq_iff a b)

not_active : (a id : String) → a ≢ id → is_active (some a) id ≡ false
not_active a id h = ground (arith, eq_iff a id)

-- Closing a tab closes every tab with its id and no other, and leaves the active one alone unless it
-- is the one that is closed.
pub close_terminal_lem :
    (id : String) (t : Tray) (tab : TerminalTab)
    → (Memᴰ tab (close_terminal id t).tabs ↔ (Memᴰ tab t.tabs × (tab.id ≢ id)))
      × ((a : String) → t.active ≡ some a → a ≢ id → (close_terminal id t).active ≡ some a)
unfolding close_terminal
close_terminal_lem id t tab = (
  (
    λ m. let (there, fits) = Memᴰ-filter _ t.tabs m in (there, ne_of_not tab.id id fits),
    λ m. mem-filter _ t.tabs m.0 (not_of_ne tab.id id m.1),
  ),
  λ a e h. rw (e, not_active a id h) refl,
)

same_kind_lem : (k l : NodeKind) → same_kind k l ≡ true → k ≡ l
same_kind_lem vpn vpn e = refl
same_kind_lem host host e = refl
same_kind_lem service service e = refl
same_kind_lem vpn host e = absurd (false≢true e)
same_kind_lem vpn service e = absurd (false≢true e)
same_kind_lem host vpn e = absurd (false≢true e)
same_kind_lem host service e = absurd (false≢true e)
same_kind_lem service vpn e = absurd (false≢true e)
same_kind_lem service host e = absurd (false≢true e)

same_kind_refl : (k : NodeKind) → same_kind k k ≡ true
same_kind_refl vpn = refl
same_kind_refl host = refl
same_kind_refl service = refl

is_selected_refl : (node : SelectedNode) → is_selected (some node) node ≡ true
unfolding is_selected
is_selected_refl node = rw (same_kind_refl node.kind, eq_refl node.id)

is_selected_lem :
    (node : SelectedNode) (chosen : Option SelectedNode)
    → is_selected chosen node ≡ true
    → chosen ≡ some node
unfolding is_selected
is_selected_lem node none e = absurd (false≢true e)
is_selected_lem node (some s) e = elim (Bool-cases (same_kind s.kind node.kind)) [
  | inl b ↦
      let kinds : s.kind ≡ node.kind = same_kind_lem s.kind node.kind b in
      let ids : s.id ≡ node.id = (eq_iff s.id node.id).0 (rw b at e) in cc
  | inr b ↦ absurd (false≢true (rw b at e))
]

-- After a delete nothing is selected that was deleted, and what else was selected still is.
pub delete_resource_lem :
    (node : SelectedNode) (chosen : Option SelectedNode)
    → ((delete_resource node chosen).0 ≢ some node)
      × (chosen ≢ some node → (delete_resource node chosen).0 ≡ chosen)
unfolding delete_resource
delete_resource_lem node chosen = elim (Bool-cases (is_selected chosen node)) [
  | inl b ↦ rw b (λ e. cc, λ other. absurd (other (is_selected_lem node chosen b)))
  | inr b ↦ rw b (
    λ e.
        let clash : is_selected (some node) node ≡ false = rw e at b in
        false≢true (sym clash ∙ is_selected_refl node),
    λ other. refl,
  )
]

-- The dashboard works in a project that exists or in none, once the projects are loaded.
pub check_active_project_lem :
    (projects : List Project) (active : String)
    → ((check_active_project false projects active ≡ "")
        ⊎ Exists (λ (p : Project). p.id ≡ active) projects)
      × (Exists (λ (p : Project). p.id ≡ active) projects
          → check_active_project false projects active ≡ active)
      × (check_active_project true projects active ≡ active)
unfolding check_active_project
check_active_project_lem projects active = elim (Bool-cases (active == "")) [
  | inl b ↦ rw b (inl ((eq_iff active "").0 b), λ found. refl, refl)
  | inr b ↦ elim (Bool-cases (any (λ (p : Project). p.id == active) projects)) [
    | inl c ↦
        let (p, m, e) = Exists-of_any _ projects c in
        rw (b, c) (inr (p, m, (eq_iff p.id active).0 e), λ found. refl, refl)
    | inr c ↦
        rw (b, c)
          (
            inl refl,
            λ found. absurd (
                false≢true
                  (sym c ∙ any_of_Memᴰ _ projects found.1 ((eq_iff found.0.id active).1 found.2))),
            refl,
          )
  ]
]
