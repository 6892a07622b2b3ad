-- ===== src/Forms/Services.antt =====
-- src/components/Layout/AddResourcesPanel.tsx, `ServiceForm`: the payload is the form itself.
use davy_jones.Prelude.{
  String, ◌==◌, Option, none, some, List, [], ◌∷◌, ◌++◌, any, find, if◌then◌else◌,
}
use davy_jones.Prelude.Text.{template}
use davy_jones.Types.{Service, Host}
use davy_jones.Forms.{Draft, Save, save}

abbrev pub service_types : List String
service_types = "Docker" ∷ "Node" ∷ "LXC" ∷ []

pub record ServiceForm : Type 0 where
  pub name : String
  pub kind : String
  pub host_id : String

abbrev pub empty_service_form : ServiceForm
empty_service_form = record { name = ""; kind = "Docker"; host_id = "" }

unfoldable pub start_edit : Service → Draft ServiceForm → Draft ServiceForm
start_edit s d = record {
  editing_id = some s.id;
  form = record { name = s.name; kind = s.kind; host_id = s.host_id };
}

unfoldable pub submit : Draft ServiceForm → Save ServiceForm
unfolding save
submit d = save d.editing_id d.form

-- the options of the type's `select`
unfoldable pub type_options : String → List String
type_options kind = service_types ++ (if any (λ t. t == kind) service_types then [] else kind ∷ [])

abbrev host_name_or : Option Host → String
host_name_or none = "—"
host_name_or (some h) = h.name

-- the second line of a service in the list
unfoldable pub service_note : List Host → Service → String
unfolding template
service_note hosts s =
    template (s.kind ∷ " · " ∷ host_name_or (find (λ (h : Host). h.id == s.host_id) hosts) ∷ [])
