-- ===== src/Export/ProjectJson.antt =====
-- `buildProjectJson` of src/lib/umlExport.ts. The record that it returns has the types of the data,
-- so that it is compared as a value; the serialisation is JavaScript's.
use davy_jones.Prelude.{String, Option, none, some, List, map, if◌then◌else◌}
use davy_jones.Types.{Vpn, Host, Service, Credential, Project}
use davy_jones.Export.{ExportOpts}

-- the field `project` of an export
pub record ExportHead : Type 0 where
  pub name : String
  pub description : Option String

pub record ProjectExport : Type 0 where
  pub project : ExportHead
  pub vpns : List Vpn
  pub hosts : List Host
  pub services : List Service
  pub credentials : List Credential

-- `{ name: project?.name ?? "Unassigned", description: project?.description }`
unfoldable pub export_head : Option Project → ExportHead
export_head none = record { name = "Unassigned"; description = none }
export_head (some p) = record { name = p.name; description = p.description }

-- `{ ...c, password: undefined, privateKey: undefined, passphrase: undefined }`
unfoldable pub redact : Credential → Credential
redact c = record c { password = none; private_key = none; passphrase = none }

unfoldable pub build_project_json :
    Option Project
    → List Vpn
    → List Host
    → List Service
    → List Credential
    → ExportOpts
    → ProjectExport
unfolding export_head redact
build_project_json project vpns hosts services credentials opts = record {
  project = export_head project;
  vpns = vpns;
  hosts = hosts;
  services = services;
  credentials = map (λ c. if opts.include_secrets then c else redact c) credentials;
}
