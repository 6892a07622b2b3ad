-- ===== src/Menus.antt =====
-- src/components/Graph/CanvasContextMenu.tsx and the context menus of src/components/Graph/InfraGraph.tsx.
-- What an item does is the call that it makes, as a value; the state keeps the calls that were made,
-- the last one first. A menu's items close over the properties of the render in which it was opened.
pub mod Items
pub mod Runs
pub mod Reaches
pub mod Places
pub mod Tests
use davy_jones.Prelude.{
  ℕ, zero, suc, ◌+◌, ◌-◌, String, ◌==◌, Bool, true, false, not, Option, none, some, or_else, List,
  [], ◌∷◌, ◌++◌, map, find, filter, length, nat_eq, ltb, if◌then◌else◌,
}
use davy_jones.Prelude.Text.{template}
use davy_jones.Prelude.Decimal.{decimal}
use davy_jones.Types.{Vpn, Host, Service, NodeKind, vpn, host, service, SelectedNode}
use davy_jones.Canvas.Ids.{kind_name}
use davy_jones.Menus.Items.{
  Props, MenuCall, MenuItem, Menu, plain_item, is_none, close_all_label, view_items, pool, name_or,
  node_label, services_note, dependents, cascade_note, delete_label, armed_items, separate_first,
  delete_items, node_items, zoom_in, zoom_out, fit_view, zoom_to_1, reset_layout, clear_selection,
  close_all_terminals, do_nothing, open_details, reset_position, arm_delete, delete_node,
}

pub record State : Type 0 where
  pub menu : Option Menu
  pub calls : List MenuCall

abbrev pub closed : State
closed = record { menu = none; calls = [] }

unfoldable pub close_menu : State → State
close_menu s = record s { menu = none }

unfoldable pub open_pane_menu : Props → ℕ → ℕ → State → State
unfolding view_items
open_pane_menu p x y s = record s { menu = some (record { x = x; y = y; items = view_items p }) }

unfoldable pub open_node_menu : Props → ℕ → ℕ → String → SelectedNode → State → State
unfolding node_items
open_node_menu p x y node_id target s = record s {
  menu = some (record { x = x; y = y; items = node_items p node_id target });
}

-- `xs[i]`
abbrev pub get_elem? : List MenuItem → ℕ → Option MenuItem
get_elem? [] i = none
get_elem? (x ∷ xs) zero = some x
get_elem? (x ∷ xs) (suc i) = get_elem? xs i

-- `setMenu((prev) => prev ? { ...prev, items } : prev)`, for the call that does it
unfoldable pub menu_after : MenuCall → Menu → Menu
unfolding armed_items
menu_after (arm_delete label target) m = record m { items = armed_items label target }
menu_after zoom_in m = m
menu_after zoom_out m = m
menu_after fit_view m = m
menu_after zoom_to_1 m = m
menu_after reset_layout m = m
menu_after clear_selection m = m
menu_after close_all_terminals m = m
menu_after do_nothing m = m
menu_after (open_details target) m = m
menu_after (reset_position id) m = m
menu_after (delete_node target) m = m

-- `item.onSelect(); if (!item.keepOpen) onClose();`
unfoldable pub select : MenuItem → Menu → State → State
unfolding menu_after close_menu
select item m s =
    let done : State = record {
      menu = some (menu_after item.on_select m);
      calls = item.on_select ∷ s.calls;
    } in
    if item.keep_open then done else close_menu done

-- a disabled button takes no click
unfoldable pub click : Option MenuItem → Menu → State → State
unfolding select
click none m s = s
click (some item) m s = if item.disabled then s else select item m s

-- the click on the item at `i`, if a menu is shown
unfoldable pub choose : ℕ → Option Menu → State → State
unfolding click
choose i none s = s
choose i (some m) s = click (get_elem? m.items i) m s

-- what the page hears: the right-clicks, the listeners of the menu, and the clicks on its items
pub data MenuEvent : Type 0 where
  pane_menu : Props → ℕ → ℕ → MenuEvent
  node_menu : Props → ℕ → ℕ → String → SelectedNode → MenuEvent
  mouse_down blurred wheeled : MenuEvent
  key_down : String → MenuEvent
  item_click : ℕ → MenuEvent

unfoldable pub on_key_down : String → State → State
unfolding close_menu
on_key_down key s = if key == "Escape" then close_menu s else s

unfoldable pub hear : MenuEvent → State → State
unfolding open_pane_menu open_node_menu close_menu on_key_down choose
hear (pane_menu p x y) s = open_pane_menu p x y s
hear (node_menu p x y node_id target) s = open_node_menu p x y node_id target s
hear mouse_down s = close_menu s
hear blurred s = close_menu s
hear wheeled s = close_menu s
hear (key_down key) s = on_key_down key s
hear (item_click i) s = choose i s.menu s

unfoldable pub hear_all : List MenuEvent → State → State
unfolding hear
hear_all [] s = s
hear_all (e ∷ es) s = hear_all es (hear e s)

-- The menu's corner along one axis, for the size of the menu and the window.
unfoldable pub nudge : ℕ → ℕ → ℕ → ℕ
nudge at size window =
    let inside = if ltb window (at + size) then window - size - 8 else at in
    if ltb inside 8 then 8 else inside
