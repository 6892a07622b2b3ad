-- ===== src/Menus/Items.antt =====
-- src/components/Graph/InfraGraph.tsx: the items of the menus of the canvas. What an item calls is a value.
use davy_jones.Prelude.{
  ℕ, String, ◌==◌, Bool, true, false, Option, none, some, List, [], ◌∷◌, ◌++◌, map, find, filter,
  length, nat_eq, if◌then◌else◌,
}
use davy_jones.Prelude.Text.{template}
use davy_jones.Prelude.Decimal.{decimal}
use davy_jones.Types.{Vpn, Host, Service, NodeKind, vpn, host, service, SelectedNode}
use davy_jones.Canvas.Ids.{kind_name}

-- the properties of `InfraGraph` that its menus read
pub record Props : Type 0 where
  pub vpns : List Vpn
  pub hosts : List Host
  pub services : List Service
  pub selected : Option SelectedNode
  pub open_terminal_count : ℕ
  pub can_delete : Bool

-- the calls of the `onSelect` callbacks; `arm_delete` with the label of the item that it puts up
pub data MenuCall : Type 0 where
  zoom_in zoom_out fit_view zoom_to_1 reset_layout clear_selection close_all_terminals do_nothing :
      MenuCall
  open_details : SelectedNode → MenuCall
  reset_position : String → MenuCall
  arm_delete : String → SelectedNode → MenuCall
  delete_node : SelectedNode → MenuCall

-- `ContextMenuItem`
pub record MenuItem : Type 0 where
  pub label : String
  pub hint : Option String
  pub on_select : MenuCall
  pub disabled : Bool
  pub separated : Bool
  pub danger : Bool
  pub keep_open : Bool

-- `ContextMenuState`
pub record Menu : Type 0 where
  pub x : ℕ
  pub y : ℕ
  pub items : List MenuItem

-- an item with none of the options
abbrev pub plain_item : String → MenuCall → MenuItem
plain_item label call = record {
  label = label;
  hint = none;
  on_select = call;
  disabled = false;
  separated = false;
  danger = false;
  keep_open = false;
}

abbrev pub is_none : Option SelectedNode → Bool
is_none none = true
is_none (some s) = false

-- `Close all terminals (n)`
unfoldable pub close_all_label : ℕ → String
unfolding template decimal
close_all_label n = template (
    "Close all terminals"
    ∷ (if nat_eq n 0 then "" else template (" (" ∷ decimal n ∷ ")" ∷ []))
    ∷ [])

unfoldable pub view_items : Props → List MenuItem
unfolding close_all_label
view_items p =
    plain_item "Zoom in" zoom_in
    ∷ plain_item "Zoom out" zoom_out
    ∷ plain_item "Zoom to fit" fit_view
    ∷ record (plain_item "Reset zoom" zoom_to_1) { hint = some "100%" }
    ∷ record (plain_item "Reset layout" reset_layout) { separated = true }
    ∷ record (plain_item "Clear selection" clear_selection) { disabled = is_none p.selected }
    ∷ record (plain_item (close_all_label p.open_terminal_count) close_all_terminals) {
      separated = true;
      disabled = nat_eq p.open_terminal_count 0;
    }
    ∷ []

-- `pools[kind]`, as pairs of an id and a name
abbrev pub pool : Props → NodeKind → List (String × String)
pool p vpn = map (λ (v : Vpn). (v.id, v.name)) p.vpns
pool p host = map (λ (h : Host). (h.id, h.name)) p.hosts
pool p service = map (λ (s : Service). (s.id, s.name)) p.services

abbrev pub name_or : Option (String × String) → String → String
name_or none id = id
name_or (some r) id = r.1

unfoldable pub node_label : Props → SelectedNode → String
node_label p target = name_or (find (λ r. r.0 == target.id) (pool p target.kind)) target.id

-- the note for `n` services
unfoldable pub services_note : ℕ → String
unfolding template decimal
services_note n =
    if nat_eq n 0
    then ""
    else template (" + " ∷ decimal n ∷ " service" ∷ (if nat_eq n 1 then "" else "s") ∷ [])

-- how many services go with a host
abbrev pub dependents : Props → String → ℕ
dependents p id = length (filter (λ (s : Service). s.host_id == id) p.services)

unfoldable pub cascade_note : Props → SelectedNode → String
unfolding services_note
cascade_note p target = elim target.kind [
  | host ↦ services_note (dependents p target.id)
  | vpn ↦ ""
  | service ↦ ""
]

unfoldable pub delete_label : Props → SelectedNode → String
unfolding template node_label cascade_note
delete_label p target =
    template ("Delete \"" ∷ node_label p target ∷ "\"" ∷ cascade_note p target ∷ [])

-- the items that `armDelete` puts up
unfoldable pub armed_items : String → SelectedNode → List MenuItem
armed_items label target =
    record (plain_item label (delete_node target)) { danger = true }
    ∷ record (plain_item "Cancel" do_nothing) { separated = true }
    ∷ []

-- `(item, i) => (i === 0 ? { ...item, separated: true } : item)`
unfoldable pub separate_first : List MenuItem → List MenuItem
separate_first [] = []
separate_first (item ∷ items) = record item { separated = true } ∷ items

unfoldable pub delete_items : Props → SelectedNode → List MenuItem
unfolding delete_label template
delete_items p target =
    if p.can_delete
    then record (plain_item (template ("Delete " ∷ kind_name target.kind ∷ []))
        (arm_delete (delete_label p target) target)) {
          separated = true;
          danger = true;
          keep_open = true;
        }
      ∷ []
    else []

-- the items of `openNodeMenu`, for a node's id and the resource that `parseNodeId` reads in it
unfoldable pub node_items : Props → String → SelectedNode → List MenuItem
unfolding view_items separate_first delete_items
node_items p node_id target =
    plain_item "Open details" (open_details target)
      ∷ plain_item "Reset position" (reset_position node_id)
      ∷ separate_first (view_items p)
    ++ delete_items p target
