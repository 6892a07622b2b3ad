-- ===== src/Export/Dialog.antt =====
-- src/components/Admin/ExportUmlDialog.tsx: the dialog that loads a project and downloads its exports.
-- `JSON.stringify` with its indentation is a parameter. Saved positions are whole, as in Export/DrawIo.
use davy_jones.Prelude.{String, Bool, true, false, Option, none, some, List, [], or_else}
use davy_jones.Prelude.Dict.{Dict}
use davy_jones.Prelude.Integers.{ℤ}
use davy_jones.Prelude.Text.{template}
use davy_jones.Prelude.{◌∷◌}
use davy_jones.Types.{Vpn, Host, Service, Credential, Project}
use davy_jones.Auth.{Answer, returned, thrown}
use davy_jones.Export.{ExportOpts}
use davy_jones.Export.PlantUml.{build_plant_uml}
use davy_jones.Export.DrawIo.{build_draw_io}
use davy_jones.Export.ProjectJson.{ProjectExport, build_project_json}

pub record State : Type 0 where
  pub loading : Bool
  pub include_secrets : Bool
  pub vpns : List Vpn
  pub hosts : List Host
  pub services : List Service
  pub credentials : List Credential
  pub positions : Dict (ℤ × ℤ)

abbrev pub opened : State
opened = record {
  loading = true;
  include_secrets = false;
  vpns = [];
  hosts = [];
  services = [];
  credentials = [];
  positions = [];
}

-- what the first four requests of the effect return
pub record Loaded : Type 0 where
  pub vpns : List Vpn
  pub hosts : List Host
  pub services : List Service
  pub credentials : List Credential

-- `api.layout.get(...).catch(() => null)` and `layout?.positions ?? {}`
unfoldable pub layout_positions : Answer (Option (Dict (ℤ × ℤ))) → Dict (ℤ × ℤ)
layout_positions (returned layout) = or_else layout []
layout_positions (thrown e) = []

-- `Promise.all` and what follows it. A failure of one of the four is caught nowhere.
unfoldable pub settle : Answer Loaded → Answer (Option (Dict (ℤ × ℤ))) → State → State
unfolding layout_positions
settle (returned l) layout s = record s {
  vpns = l.vpns;
  hosts = l.hosts;
  services = l.services;
  credentials = l.credentials;
  positions = layout_positions layout;
  loading = false;
}
settle (thrown e) layout s = s

-- a download, and `api.projects.exportEvent`, whose failure is ignored
pub record Download : Type 0 where
  pub file_name : String
  pub text : String
  pub mime_type : String

pub record ExportEvent : Type 0 where
  pub project_id : String
  pub format : String
  pub include_secrets : Bool

module _ (project : Option Project) (s : State) where
  abbrev pub opts_of : ExportOpts
  opts_of = record { include_secrets = s.include_secrets }

  abbrev pub file_named : String → String
  file_named extension =
      template (elim project [ none ↦ "unassigned" | some p ↦ p.name ] ∷ extension ∷ [])

  abbrev pub event_of : String → Option ExportEvent
  event_of format = elim project [
    | none ↦ none
    | some p ↦
        some (record { project_id = p.id; format = format; include_secrets = s.include_secrets })
  ]

  unfoldable pub handle_export_uml : Download × Option ExportEvent
  unfolding build_plant_uml template
  handle_export_uml = (
    record {
      file_name = file_named ".puml";
      text = build_plant_uml project s.vpns s.hosts s.services s.credentials opts_of;
      mime_type = "text/plain";
    },
    event_of "uml",
  )

  unfoldable pub handle_export_drawio : Download × Option ExportEvent
  unfolding build_draw_io template
  handle_export_drawio = (
    record {
      file_name = file_named ".drawio";
      text = build_draw_io project s.vpns s.hosts s.services s.credentials opts_of s.positions;
      mime_type = "application/xml";
    },
    event_of "drawio",
  )

  unfoldable pub handle_export_json : (ProjectExport → String) → Download × Option ExportEvent
  unfolding build_project_json template
  handle_export_json stringify = (
    record {
      file_name = file_named ".json";
      text = stringify (build_project_json project s.vpns s.hosts s.services s.credentials opts_of);
      mime_type = "application/json";
    },
    event_of "json",
  )
