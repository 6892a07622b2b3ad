-- ===== src/Export/PlantUml.antt =====
-- `buildPlantUML` of src/lib/umlExport.ts. Every loop that pushes lines is a function from the
-- element to the lines that it pushes.
use davy_jones.Prelude.{String, Option, none, some, List, [], ◌∷◌, ◌++◌, map, if◌then◌else◌}
use davy_jones.Prelude.Dict.{Dict, get, bucket, group_by}
use davy_jones.Prelude.Text.{template, join, expand, truthy}
use davy_jones.Types.{Vpn, Host, Service, Credential, Project}
use davy_jones.Export.{ExportOpts, cred_by_id}
use davy_jones.Export.Texts.{sanitize_id, plant_uml_safe, swap}

-- `if (field) lines.push(line(field))`
unfoldable pub when_set : Option String → (String → String) → List String
when_set none line = []
when_set (some s) line = if truthy (some s) then line s ∷ [] else []

-- `cred.privateKey ? "private key" : "password"`
unfoldable pub auth_method : Credential → String
auth_method cred = if truthy cred.private_key then "private key" else "password"

-- `s.replace(/\n/g, "\\n")`
unfoldable pub one_line : String → String
unfolding expand
one_line s = expand (swap b'\n' "\\n") s

-- the lines of the branch `opts.includeSecrets`
unfoldable pub secret_lines : Credential → List String
unfolding when_set template plant_uml_safe one_line
secret_lines cred =
    when_set cred.password (λ s. template ("  password: " ∷ plant_uml_safe s ∷ []))
    ++ when_set cred.private_key
        (λ s. template ("  private key:\\n" ∷ plant_uml_safe (one_line s) ∷ []))
    ++ when_set cred.passphrase (λ s. template ("  passphrase: " ∷ plant_uml_safe s ∷ []))

unfoldable pub credential_line : Option Credential → ExportOpts → List String
unfolding auth_method secret_lines template plant_uml_safe
credential_line none opts = "  credential: (none configured)" ∷ []
credential_line (some cred) opts =
    template (
      "  credential: "
      ∷ plant_uml_safe cred.name
      ∷ " (user: "
      ∷ plant_uml_safe cred.username
      ∷ ", auth: "
      ∷ auth_method cred
      ∷ ")"
      ∷ [])
    ∷ (if opts.include_secrets then secret_lines cred else [])

unfoldable pub vpn_line : Vpn → String
unfolding template plant_uml_safe sanitize_id
vpn_line v = template (
    "node \""
    ∷ plant_uml_safe v.name
    ∷ "\\n"
    ∷ plant_uml_safe v.remote_gateway
    ∷ "\" as vpn_"
    ∷ sanitize_id v.id
    ∷ [])

unfoldable pub artifact_line : Service → String
unfolding template plant_uml_safe sanitize_id
artifact_line s = template (
    "  artifact \""
    ∷ plant_uml_safe s.name
    ∷ " ("
    ∷ plant_uml_safe s.kind
    ∷ ")\" as svc_"
    ∷ sanitize_id s.id
    ∷ [])

unfoldable pub host_var : Host → String
unfolding template sanitize_id
host_var h = template ("host_" ∷ sanitize_id h.id ∷ [])

unfoldable pub host_label : Host → String
unfolding template plant_uml_safe
host_label h = template (plant_uml_safe h.name ∷ "\\n" ∷ plant_uml_safe h.ip ∷ [])

-- a host alone, or a block with its services
unfoldable pub host_block : Host → List Service → List String
unfolding template host_label host_var artifact_line
host_block h [] = template ("node \"" ∷ host_label h ∷ "\" as " ∷ host_var h ∷ []) ∷ []
host_block h (s ∷ ss) =
    template ("node \"" ∷ host_label h ∷ "\" as " ∷ host_var h ∷ " {" ∷ [])
      ∷ map artifact_line (s ∷ ss)
    ++ "}" ∷ []

unfoldable pub link_line : Host → String → String
unfolding template host_var sanitize_id
link_line h id = template ("vpn_" ∷ sanitize_id id ∷ " --> " ∷ host_var h ∷ [])

-- one round of the loop over the hosts
unfoldable pub host_lines : Dict (List Service) → Dict Credential → ExportOpts → Host → List String
unfolding host_block when_set link_line host_var credential_line template get
host_lines services_by_host creds opts h =
    host_block h (bucket services_by_host h.id)
    ++ when_set h.vpn_id (link_line h)
    ++ template ("note right of " ∷ host_var h ∷ [])
      ∷ credential_line (get creds h.credential_id) opts
    ++ "end note" ∷ "" ∷ []

unfoldable pub hosts_lines :
    Dict (List Service) → Dict Credential → ExportOpts → List Host → List String
unfolding host_lines
hosts_lines services_by_host creds opts [] = []
hosts_lines services_by_host creds opts (h ∷ hs) =
    host_lines services_by_host creds opts h ++ hosts_lines services_by_host creds opts hs

-- `project ? project.name : "Unassigned"`
unfoldable pub title : Option Project → String
title none = "Unassigned"
title (some p) = p.name

unfoldable pub title_line : Option Project → String
unfolding template plant_uml_safe title
title_line project = template ("title " ∷ plant_uml_safe (title project) ∷ " — Infrastructure" ∷ [])

module _ (project : Option Project) (vpns : List Vpn) (hosts : List Host) (services : List Service)
    (credentials : List Credential) (opts : ExportOpts) where
  -- `lines` at the end of the function
  unfoldable pub uml_lines : List String
  unfolding title_line vpn_line hosts_lines group_by cred_by_id
  uml_lines =
      "@startuml" ∷ title_line project ∷ "" ∷ map vpn_line vpns
      ++ ""
        ∷ hosts_lines (group_by (λ (s : Service). s.host_id) services) (cred_by_id credentials) opts
            hosts
      ++ "@enduml" ∷ []

  unfoldable pub build_plant_uml : String
  unfolding uml_lines join
  build_plant_uml = join "\n" uml_lines
