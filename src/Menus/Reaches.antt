-- ===== src/Menus/Reaches.antt =====
-- src/components/Graph/InfraGraph.tsx and src/components/Graph/CanvasContextMenu.tsx: who reaches the
-- items of the menu. The keyboard clicks a button that has the focus, without a mousedown; the mouse
-- presses before it clicks, and before the right-click that opens a menu.
use davy_jones.Prelude.{ℕ, String, ◌≡◌, refl, true, none, List, [], ◌∷◌}
use davy_jones.Types.{SelectedNode}
use davy_jones.Menus.{
  State, close_menu, open_pane_menu, open_node_menu, menu_after, select, click, choose, MenuEvent,
  pane_menu, node_menu, mouse_down, key_down, item_click, on_key_down, hear, hear_all,
}
use davy_jones.Menus.Items.{
  Props, arm_delete, delete_node, view_items, armed_items, separate_first, delete_items, node_items,
  delete_label,
}

-- what a mouse does: a right-click on the pane or on a node, or a click at the place of an item
pub data MouseAct : Type 0 where
  on_pane : Props → ℕ → ℕ → MouseAct
  on_node : Props → ℕ → ℕ → String → SelectedNode → MouseAct
  on_item : ℕ → MouseAct

-- the events that the page hears of it
unfoldable pub by_mouse : List MouseAct → List MenuEvent
by_mouse [] = []
by_mouse (on_pane p x y ∷ acts) = mouse_down ∷ pane_menu p x y ∷ by_mouse acts
by_mouse (on_node p x y id target ∷ acts) = mouse_down ∷ node_menu p x y id target ∷ by_mouse acts
by_mouse (on_item i ∷ acts) = mouse_down ∷ item_click i ∷ by_mouse acts

-- the same by the keyboard: the menu of a node, and two items in a row
abbrev pub by_keyboard : Props → ℕ → ℕ → String → SelectedNode → ℕ → ℕ → List MenuEvent
by_keyboard p x y id target i j =
    mouse_down
    ∷ node_menu p x y id target
    ∷ key_down "Enter"
    ∷ item_click i
    ∷ key_down "Enter"
    ∷ item_click j
    ∷ []

calls-by_mouse : (acts : List MouseAct) (s : State) → (hear_all (by_mouse acts) s).calls ≡ s.calls
unfolding hear_all by_mouse hear close_menu open_pane_menu open_node_menu choose
calls-by_mouse [] s = refl
calls-by_mouse (on_pane p x y ∷ acts) s = calls-by_mouse acts (open_pane_menu p x y (close_menu s))
calls-by_mouse (on_node p x y id target ∷ acts) s =
    calls-by_mouse acts (open_node_menu p x y id target (close_menu s))
calls-by_mouse (on_item i ∷ acts) s = calls-by_mouse acts (close_menu s)

-- An account that may delete reaches the deletion of any node by the keyboard, from any state of the
-- menu: open the node's menu, press Enter on its last item, then on the first of the two that take its
-- place. The deletion is called once, nothing else is but the press that arms it, and the menu is
-- closed. With the mouse no item is ever called, whatever is clicked: the press that comes before the
-- click closes the menu.
pub hear_all-delete :
    (p : Props) (x y : ℕ) (id : String) (target : SelectedNode) (acts : List MouseAct) (s : State)
    → p.can_delete ≡ true
    → (hear_all (by_keyboard p x y id target 9 0) s ≡ record {
      menu = none;
      calls = delete_node target ∷ arm_delete (delete_label p target) target ∷ s.calls;
    })
      × ((hear_all (by_mouse acts) s).calls ≡ s.calls)
unfolding hear_all hear open_node_menu choose node_items view_items separate_first delete_items
    on_key_down
hear_all-delete p x y id target acts s h =
    (rw h (unfold click select menu_after armed_items close_menu in refl), calls-by_mouse acts s)
