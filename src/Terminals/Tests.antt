-- ===== src/Terminals/Tests.antt =====
-- Tests of the terminal tray and the selection.
use davy_jones.Prelude.{false, All, ◌≡◌, refl, none, some, List, [], ◌∷◌}
use davy_jones.Prelude.Integers.{pos, negsuc, ◌+ℤ◌, negate, difference}
use davy_jones.Terminals.Height as Height
use davy_jones.Terminals.Heights.{HasRoom, hear_all-opened-HasRoom}
use davy_jones.Terminals.{no_tabs, open_shell, run_command}
use davy_jones.Layout.Build.{build_graph_layout}
use davy_jones.Layout.Tests.{scene}
use davy_jones.Terminals.Actions.{node_action_builders, buttons, buttons-build_graph_layout}
use davy_jones.Terminals.Tabs.{
  TrayEvent, opened, ran, closed, selected, after, after_all, select_shown, ActiveIsOpen,
  after_all-ActiveIsOpen,
}

-- Two tabs are opened, the first is selected and closed.
abbrev tabs_used : List TrayEvent
tabs_used = opened "t1" "h1" "web" ∷ ran "t2" "h2" "db" "top" "Top" ∷ selected 0 ∷ closed "t1" ∷ []

tabs_used_active : (after_all no_tabs tabs_used).active ≡ some "t2"
unfolding after_all after open_shell run_command select_shown
tabs_used_active = refl

after_all-ActiveIsOpen_example : ActiveIsOpen (after_all no_tabs tabs_used)
after_all-ActiveIsOpen_example = after_all-ActiveIsOpen tabs_used

read_only : scene.actions ≡ node_action_builders false scene.hosts
unfolding node_action_builders
read_only = refl

buttons-build_graph_layout_example : All (λ n. buttons n ≡ []) (build_graph_layout scene).nodes
buttons-build_graph_layout_example = buttons-build_graph_layout scene scene.hosts read_only

-- dragged to the top of the window, and the window made shorter afterwards
abbrev drags : List Height.TrayEvent
drags = Height.pointer_down 0 (pos 600) ∷ Height.pointer_move (negsuc 49) ∷ Height.resize 500 ∷ []

drags_run : (Height.hear_all drags (Height.opened 900 none)).height ≡ 340
unfolding Height.hear_all Height.hear Height.on_pointer_down Height.drag_to Height.set_height
    Height.clamp_height Height.at_least_min Height.opened Height.stored_height ◌+ℤ◌ negate
    difference
drags_run = refl

hear_all-opened-HasRoom_example : HasRoom (Height.hear_all drags (Height.opened 900 none))
hear_all-opened-HasRoom_example = hear_all-opened-HasRoom 900 none drags
