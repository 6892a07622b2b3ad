-- ===== src/Menus/Tests.antt =====
-- Tests of the context menus.
use davy_jones.Prelude.{◌≡◌, refl, true, none, List, [], ◌∷◌}
use davy_jones.Types.{host, SelectedNode}
use davy_jones.Menus.{
  MenuEvent, pane_menu, node_menu, item_click, mouse_down, closed, hear_all, hear, open_node_menu,
  choose, click, select, menu_after, close_menu, open_pane_menu,
}
use davy_jones.Menus.Items.{
  Props, zoom_in, arm_delete, delete_node, delete_label, node_items, view_items, separate_first,
  delete_items,
}
use davy_jones.Layout.Tests.{scene}
use davy_jones.Menus.Reaches.{MouseAct, on_node, on_item, by_mouse, by_keyboard, hear_all-delete}

abbrev props : Props
props = record {
  vpns = scene.vpns;
  hosts = scene.hosts;
  services = scene.services;
  selected = none;
  open_terminal_count = 0;
  can_delete = true;
}

abbrev web : SelectedNode
web = record { kind = host; id = "h1" }

abbrev clicks : List MenuEvent
clicks =
    node_menu props 40 30 "host-h1" web
    ∷ item_click 9
    ∷ mouse_down
    ∷ pane_menu props 5 5
    ∷ item_click 0
    ∷ node_menu props 40 30 "host-h1" web
    ∷ item_click 9
    ∷ item_click 0
    ∷ []

-- The first arming is lost when the menu closes.
clicks_run :
    (hear_all clicks closed).calls
    ≡ delete_node web
      ∷ arm_delete (delete_label props web) web
      ∷ zoom_in
      ∷ arm_delete (delete_label props web) web
      ∷ []
unfolding hear_all hear open_node_menu open_pane_menu choose node_items view_items separate_first
    delete_items click select menu_after close_menu
clicks_run = refl

abbrev mouse_acts : List MouseAct
mouse_acts = on_node props 40 30 "host-h1" web ∷ on_item 9 ∷ on_item 0 ∷ []

hear_all-delete_example :
    (hear_all (by_keyboard props 40 30 "host-h1" web 9 0) closed ≡ record {
      menu = none;
      calls = delete_node web ∷ arm_delete (delete_label props web) web ∷ [];
    })
    × ((hear_all (by_mouse mouse_acts) closed).calls ≡ [])
hear_all-delete_example = hear_all-delete props 40 30 "host-h1" web mouse_acts closed refl
