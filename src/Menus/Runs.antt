-- ===== src/Menus/Runs.antt =====
-- src/components/Graph/InfraGraph.tsx: a deletion from the canvas' menu takes two clicks and the right.
use mathlib.Core.List.{Memᴰ}
use davy_jones.Prelude.{ℕ, String, ◌≡◌, Bool, true, false, Option, none, some, List, [], ◌∷◌, All}
use davy_jones.Types.{SelectedNode}
use davy_jones.Menus.{State, MenuEvent, node_menu}
use davy_jones.Menus.Items.{
  Props, MenuCall, zoom_in, zoom_out, fit_view, zoom_to_1, reset_layout, clear_selection,
  close_all_terminals, do_nothing, open_details, reset_position, arm_delete, delete_node, MenuItem,
  Menu, delete_label,
}

-- the last call armed the deletion of this node
abbrev pub IsArmedFor : SelectedNode → List MenuCall → Type 0
IsArmedFor target calls =
    (label : String) × (rest : List MenuCall) × (calls ≡ arm_delete label target ∷ rest)

abbrev pub arms : MenuCall → Bool
arms (arm_delete label target) = true
arms (delete_node target) = false
arms zoom_in = false
arms zoom_out = false
arms fit_view = false
arms zoom_to_1 = false
arms reset_layout = false
arms clear_selection = false
arms close_all_terminals = false
arms do_nothing = false
arms (open_details target) = false
arms (reset_position id) = false

module _ (es : List MenuEvent) where
  -- Among the events a menu was opened on the node by an account that may delete, and the label names
  -- what would go, as this menu knew it.
  abbrev pub WasOpenedOn : String → SelectedNode → Type 0
  WasOpenedOn label target =
      (p : Props) × (x : ℕ) × (y : ℕ) × (id : String) × Memᴰ (node_menu p x y id target) es
      × (p.can_delete ≡ true)
      × (label ≡ delete_label p target)

  -- A call that may be made after the earlier ones: a deletion only right after the click that arms it,
  -- and this only from a menu that was opened on the node with the right to delete.
  abbrev pub Follows : MenuCall → List MenuCall → Type 0
  Follows (delete_node target) calls = IsArmedFor target calls
  Follows (arm_delete label target) calls = WasOpenedOn label target
  Follows zoom_in calls = Unit
  Follows zoom_out calls = Unit
  Follows fit_view calls = Unit
  Follows zoom_to_1 calls = Unit
  Follows reset_layout calls = Unit
  Follows clear_selection calls = Unit
  Follows close_all_terminals calls = Unit
  Follows do_nothing calls = Unit
  Follows (open_details target) calls = Unit
  Follows (reset_position id) calls = Unit

  -- Every call followed the ones before it.
  abbrev pub IsOrdered : List MenuCall → Type 0
  IsOrdered [] = Unit
  IsOrdered (call ∷ calls) = Follows call calls × IsOrdered calls

  -- An item that deletes bears the label of the click that has armed it.
  abbrev pub IsNamed : String → MenuCall → List MenuCall → Type 0
  IsNamed label (delete_node target) calls =
      (rest : List MenuCall) × (calls ≡ arm_delete label target ∷ rest)
  IsNamed label (arm_delete armed target) calls = Unit
  IsNamed label zoom_in calls = Unit
  IsNamed label zoom_out calls = Unit
  IsNamed label fit_view calls = Unit
  IsNamed label zoom_to_1 calls = Unit
  IsNamed label reset_layout calls = Unit
  IsNamed label clear_selection calls = Unit
  IsNamed label close_all_terminals calls = Unit
  IsNamed label do_nothing calls = Unit
  IsNamed label (open_details target) calls = Unit
  IsNamed label (reset_position id) calls = Unit

  -- an item that may stand in the menu after the calls; only one that arms leaves the menu open
  abbrev pub IsOffered : List MenuCall → MenuItem → Type 0
  IsOffered calls item =
      Follows item.on_select calls
      × (item.keep_open ≡ arms item.on_select)
      × IsNamed item.label item.on_select calls

  abbrev pub OffersRightly : List MenuCall → Option Menu → Type 0
  OffersRightly calls none = Unit
  OffersRightly calls (some m) = All (IsOffered calls) m.items

  pub record IsSound (s : State) : Type 0 where
    pub ordered : IsOrdered s.calls
    pub offered : OffersRightly s.calls s.menu
