-- ===== src/Canvas/Ids.antt =====
-- `parseNodeId` of src/components/Graph/InfraGraph.tsx, and the id that a selection stands for.
use davy_jones.Prelude.{String, Option, none, some, List, [], ◌∷◌}
use davy_jones.Prelude.Text.{template, join}
use davy_jones.Prelude.Split.{split}
use davy_jones.Types.{NodeKind, vpn, host, service}

-- `const [kind, ...rest] = parts` and `rest.join("-")`; `split` gives one part at least
unfoldable pub parts : List String → String × String
unfolding join
parts [] = ("", "")
parts (kind ∷ rest) = (kind, join "-" rest)

-- The kind is a text here: the code casts it without a test.
unfoldable pub parse_node_id : String → String × String
unfolding parts split
parse_node_id node_id = parts (split b'-' node_id)

-- the value of a `NodeKind`
unfoldable pub kind_name : NodeKind → String
kind_name vpn = "vpn"
kind_name host = "host"
kind_name service = "service"

-- `selected ? `${selected.kind}-${selected.id}` : undefined`
unfoldable pub selected_node_id : Option (String × String) → Option String
unfolding template
selected_node_id none = none
selected_node_id (some (kind, id)) = some (template (kind ∷ "-" ∷ id ∷ []))
