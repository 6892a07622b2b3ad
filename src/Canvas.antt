-- ===== src/Canvas.antt =====
-- src/components/Graph/InfraGraph.tsx: the canvas that draws the layout, with the positions of drags
-- and of the saved arrangement. Coordinates on the canvas are numbers of JavaScript, of a type `P`, into
-- which `at` takes a position of the layout; sizes are of a type `Z`.
pub mod Ids
pub mod Parsing
pub mod Polls
pub mod Resets
pub mod Tests
use davy_jones.Prelude.{
  String, Bool, true, false, not, Option, none, some, List, [], ◌∷◌, map, ◌==◌, if◌then◌else◌,
  or_else, find,
}
use davy_jones.Prelude.Dict.{Dict, get, set}
use davy_jones.Layout.Model.{Position, Node}

-- a node as React Flow holds it: the layout's node with its place and its measured size
pub record Placed (P Z M : Type 0) : Type 0 where
  pub node : Node M
  pub place : P
  pub measured : Option Z

-- `next[n.id] = …` for each node, into the object that is given
unfoldable pub places_from : {P Z M : Type 0} → Dict P → List (Placed P Z M) → Dict P
unfolding set
places_from m [] = m
places_from m (n ∷ ns) = places_from (set m n.node.id n.place) ns

-- the object that `handleNodeDragStop` hands to `onPositionsChange`
unfoldable pub drag_stop : {P Z M : Type 0} → List (Placed P Z M) → Dict P
unfolding places_from
drag_stop nodes = places_from [] nodes

unfoldable pub by_id_from :
    {P Z M : Type 0} → Dict (Placed P Z M) → List (Placed P Z M) → Dict (Placed P Z M)
unfolding set
by_id_from m [] = m
by_id_from m (n ∷ ns) = by_id_from (set m n.node.id n) ns

-- `new Map(prev.map((n) => [n.id, n]))`
unfoldable pub by_id : {P Z M : Type 0} → List (Placed P Z M) → Dict (Placed P Z M)
unfolding by_id_from
by_id nodes = by_id_from [] nodes

-- `existing?.measured`
unfoldable pub size_of : {P Z M : Type 0} → Option (Placed P Z M) → Option Z
size_of none = none
size_of (some e) = e.measured

-- a node moved to `home` if it has the id
unfoldable pub send_home : {P Z M : Type 0} → String → P → Placed P Z M → Placed P Z M
send_home id home n = if n.node.id == id then record n { place = home } else n

-- the loop over `nodesRef.current` in "Reset position"
unfoldable pub homed_places : {P Z M : Type 0} → String → P → Dict P → List (Placed P Z M) → Dict P
unfolding set
homed_places id home m [] = m
homed_places id home m (n ∷ ns) =
    homed_places id home (set m n.node.id (if n.node.id == id then home else n.place)) ns

module _ {P Z M : Type 0} (at : Position → P) where
  -- the node that `setNodes` makes of a node of the layout
  unfoldable pub resync : Bool → Option P → Option (Placed P Z M) → Node M → Placed P Z M
  unfolding size_of
  resync true saved existing n = record {
    node = n;
    place = or_else saved (at n.position);
    measured = size_of existing;
  }
  resync false saved (some e) n = record { node = n; place = e.place; measured = e.measured }
  resync false saved none n = record {
    node = n;
    place = or_else saved (at n.position);
    measured = none;
  }

  -- The body of the effect on the layout, after its test; `hydrating` for the first pass.
  unfoldable pub sync : Bool → Dict P → List (Placed P Z M) → List (Node M) → List (Placed P Z M)
  unfolding resync get by_id
  sync hydrating saved prev layout =
      let prev_by_id = by_id prev in
      map (λ n. resync hydrating (get saved n.id) (get prev_by_id n.id) n) layout

  -- `resetLayout`: the nodes, and what it hands to `onPositionsChange`
  unfoldable pub reset_layout : List (Placed P Z M) → List (Node M) → List (Placed P Z M) × Dict P
  unfolding size_of get by_id
  reset_layout prev layout =
      let prev_by_id = by_id prev in
      (
        map
            (λ n. record {
              node = n;
              place = at n.position;
              measured = size_of (get prev_by_id n.id);
            })
            layout,
        [],
      )

  -- "Reset position" for the node's `home` in the layout, if there is one
  unfoldable pub reset_to :
      String → List (Placed P Z M) → Option (Node M) → Option (List (Placed P Z M) × Dict P)
  unfolding send_home homed_places
  reset_to id nodes none = none
  reset_to id nodes (some home) =
      some
        (map (send_home id (at home.position)) nodes, homed_places id (at home.position) [] nodes)

  -- the nodes, and what is handed to `onPositionsChange`
  unfoldable pub reset_position :
      String → List (Placed P Z M) → List (Node M) → Option (List (Placed P Z M) × Dict P)
  unfolding reset_to
  reset_position id nodes layout = reset_to id nodes (find (λ n. n.id == id) layout)

-- the nodes on screen and `hydratedRef`
pub record Screen (P Z M : Type 0) : Type 0 where
  pub nodes : List (Placed P Z M)
  pub hydrated : Bool

module _ {P Z M : Type 0} (at : Position → P) where
  -- `if (!layoutLoaded) hydratedRef.current = false`, in each render
  unfoldable pub render : Bool → Screen P Z M → Screen P Z M
  render layout_loaded s = if layout_loaded then s else record s { hydrated = false }

  -- the effect on the layout, the saved positions and `layoutLoaded`
  unfoldable pub apply_layout : Bool → Dict P → List (Node M) → Screen P Z M → Screen P Z M
  unfolding sync
  apply_layout layout_loaded saved layout s =
      if layout_loaded
      then record { nodes = sync at (not s.hydrated) saved s.nodes layout; hydrated = true }
      else s
