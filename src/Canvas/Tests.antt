-- ===== src/Canvas/Tests.antt =====
-- Tests of the canvas: two nodes on screen, one of them dragged.
use mathlib.Core.List.{Memᴰ}
use davy_jones.Prelude.{ℕ, String, ◌≡◌, refl, true, false, none, some, List, [], ◌∷◌, All}
use davy_jones.Prelude.Dict.{Dict, get}
use davy_jones.Types.{NodeKind, no_certificate}
use davy_jones.Layout.Model.{Position, Node, vpn_data}
use davy_jones.Layout.Build.{build_graph_layout}
use davy_jones.Layout.Tests.{scene}
use davy_jones.Canvas.{Placed, by_id, drag_stop, sync, Screen, reset_position}
use davy_jones.Canvas.Ids.{parse_node_id}
use davy_jones.Canvas.Parsing.{IsReadable, build_graph_layout-IsReadable}
use davy_jones.Canvas.Polls.{places, sync-drag_stop, place_of, polls, place_of-polls}

dashes : parse_node_id "host-3f-2a" ≡ ("host", "3f-2a")
unfolding parse_node_id
dashes = refl

build_graph_layout-IsReadable_example : All IsReadable (build_graph_layout scene).nodes
build_graph_layout-IsReadable_example = build_graph_layout-IsReadable scene

-- the coordinates of the layout as they are
abbrev as_is : Position → Position
as_is p = p

abbrev spot : ℕ → Position
spot n = record { x = n; y = n }

abbrev vpn_at : ℕ → String → Node ℕ
vpn_at n id = record {
  id = id;
  kind = NodeKind.vpn;
  position = spot n;
  info =
      vpn_data
        (record {
          id = id;
          name = id;
          image = "";
          container_name = "";
          command = "";
          remote_gateway = "";
          port = 1;
          client_certificate = no_certificate;
          credential_id = none;
          project_id = none;
          shared_project_ids = none;
          idle_timeout_minutes = none;
        })
        [];
}

abbrev layout : List (Node ℕ)
layout = vpn_at 0 "vpn-a" ∷ vpn_at 260 "vpn-b" ∷ []

-- "vpn-b" has been dragged
abbrev shown : List (Placed Position ℕ ℕ)
shown =
    record { node = vpn_at 0 "vpn-a"; place = spot 0; measured = some 5 }
    ∷ record { node = vpn_at 260 "vpn-b"; place = spot 77; measured = none }
    ∷ []

abbrev no_nodes : List (Placed Position ℕ ℕ)
no_nodes = []

after_poll :
    places as_is (sync as_is false [] shown layout) ≡ ("vpn-a", spot 0) ∷ ("vpn-b", spot 77) ∷ []
unfolding sync
after_poll = refl

sync-drag_stop_example :
    places as_is (sync as_is true (drag_stop shown) no_nodes layout)
    ≡ places as_is (sync as_is false (drag_stop shown) shown layout)
sync-drag_stop_example = sync-drag_stop as_is shown no_nodes layout

abbrev screen : Screen Position ℕ ℕ
screen = record { nodes = shown; hydrated = true }

place_of-polls_example :
    place_of (polls as_is (([], layout) ∷ ([], layout) ∷ []) screen).nodes "vpn-b" ≡ some (spot 77)
place_of-polls_example =
    place_of-polls as_is "vpn-b" (spot 77) (([], layout) ∷ ([], layout) ∷ []) screen refl
      (unfold get by_id in refl)
      ((_, Memᴰ.tail (Memᴰ.head refl), refl), ((_, Memᴰ.tail (Memᴰ.head refl), refl), tt))

abbrev back_home : List (Placed Position ℕ ℕ)
back_home =
    record { node = vpn_at 0 "vpn-a"; place = spot 0; measured = some 5 }
    ∷ record { node = vpn_at 260 "vpn-b"; place = spot 260; measured = none }
    ∷ []

abbrev home_places : Dict Position
home_places = ("vpn-a", spot 0) ∷ ("vpn-b", spot 260) ∷ []

goes_home : reset_position as_is "vpn-b" shown layout ≡ some (back_home, home_places)
unfolding reset_position
goes_home = refl
