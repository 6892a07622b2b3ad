-- ===== src/Terminals.antt =====
-- src/components/Dashboard.tsx: the terminal tray's tabs, the selection on the canvas, and the active
-- project. A new tab's id, from `crypto.randomUUID()`, is an argument.
pub mod Tabs
pub mod Actions
pub mod Height
pub mod Heights
pub mod Tests
use davy_jones.Prelude.{
  String, Bool, true, false, not, ◌&&◌, ◌||◌, Option, none, some, List, [], ◌∷◌, ◌++◌, ◌==◌,
  if◌then◌else◌, filter, any,
}
use davy_jones.Prelude.Text.{template}
use davy_jones.Types.{TerminalTab, NodeKind, vpn, host, service, SelectedNode, Project}

pub record Tray : Type 0 where
  pub tabs : List TerminalTab
  pub active : Option String
  pub collapsed : Bool

-- the tray of a fresh page
abbrev pub no_tabs : Tray
no_tabs = record { tabs = []; active = none; collapsed = false }

unfoldable pub add_tab : TerminalTab → Tray → Tray
add_tab tab t = record t { tabs = t.tabs ++ tab ∷ []; active = some tab.id; collapsed = false }

unfoldable pub open_shell : String → String → String → Tray → Tray
unfolding add_tab
open_shell id host_id host_name t =
    add_tab
      (record {
        id = id;
        host_id = host_id;
        host_name = host_name;
        command = none;
        label = host_name;
      })
      t

unfoldable pub run_command : String → String → String → String → String → Tray → Tray
unfolding add_tab template
run_command id host_id host_name command name t =
    add_tab
      (record {
        id = id;
        host_id = host_id;
        host_name = host_name;
        command = some command;
        label = template (host_name ∷ " — " ∷ name ∷ []);
      })
      t

-- `next.length > 0 ? next[next.length - 1].id : null`
unfoldable pub last_id : List TerminalTab → Option String
last_id [] = none
last_id (t ∷ []) = some t.id
last_id (_ ∷ t ∷ ts) = last_id (t ∷ ts)

-- `activeTerminalId === id`
abbrev pub is_active : Option String → String → Bool
is_active none id = false
is_active (some a) id = a == id

unfoldable pub close_terminal : String → Tray → Tray
unfolding last_id
close_terminal id t =
    let next = filter (λ (tab : TerminalTab). not (tab.id == id)) t.tabs in
    record t { tabs = next; active = if is_active t.active id then last_id next else t.active }

unfoldable pub close_all : Tray → Tray
close_all t = record t { tabs = []; active = none }

-- `onSelect` of a tab that the tray shows
unfoldable pub select_tab : TerminalTab → Tray → Tray
select_tab tab t = record t { active = some tab.id }

unfoldable pub toggle_collapsed : Tray → Tray
toggle_collapsed t = record t { collapsed = not t.collapsed }

-- the calls of `data.deleteVpn`, `deleteHost` and `deleteService`
pub data Deletion : Type 0 where
  delete_vpn delete_host delete_service : String → Deletion

abbrev pub same_kind : NodeKind → NodeKind → Bool
same_kind vpn vpn = true
same_kind host host = true
same_kind service service = true
same_kind _ _ = false

-- `selected?.kind === node.kind && selected.id === node.id`
unfoldable pub is_selected : Option SelectedNode → SelectedNode → Bool
is_selected none node = false
is_selected (some s) node = same_kind s.kind node.kind && s.id == node.id

unfoldable pub deletion : NodeKind → String → Deletion
deletion vpn id = delete_vpn id
deletion host id = delete_host id
deletion service id = delete_service id

-- The new selection, and the call that is made.
unfoldable pub delete_resource : SelectedNode → Option SelectedNode → Option SelectedNode × Deletion
unfolding is_selected deletion
delete_resource node selected =
    (if is_selected selected node then none else selected, deletion node.kind node.id)

-- the effect that leaves a project which no longer exists
unfoldable pub check_active_project : Bool → List Project → String → String
check_active_project loading projects active =
    if loading || active == ""
    then active
    else if any (λ (p : Project). p.id == active) projects
    then active
    else ""
