-- ===== src/Export/Tests.antt =====
-- Tests of the exports: a name with a line feed, a label with markup, and a credential with secrets.
use davy_jones.Prelude.{◌≡◌, refl, true, false, none, some, [], ◌∷◌, map, length, All}
use davy_jones.Prelude.Text.{expand, concat, has_char}
use davy_jones.Prelude.Dict.{group_from}
use davy_jones.Prelude.Split.{split}
use davy_jones.Types.{Host, Credential}
use davy_jones.Export.{ExportOpts}
use davy_jones.Export.Texts.{sanitize_id, plant_uml_safe, drawio_label, xml_escape}
use davy_jones.Export.PlantUml.{uml_lines, build_plant_uml}
use davy_jones.Prelude.Integers.{pos, negsuc}
use davy_jones.Export.DrawIo.{cell_text, drawing}
use davy_jones.Export.Cells.{cell_id, numbers, JoinsEarlier, drawing_lem}
use davy_jones.Export.Lines.{split-build_plant_uml}
use davy_jones.Export.Labels.{read_value, flat_char, read_value-drawio_label}
use davy_jones.Export.Secrets.{no_secrets}
use davy_jones.Prelude.{String}
use davy_jones.Export.ProjectJson.{ProjectExport}
use davy_jones.Export.Dialog.{
  State, opened, handle_export_uml, handle_export_drawio, handle_export_json,
}
use davy_jones.Export.Downloads.{blinded_state, handle_export-blinded}

abbrev key : Credential
key = record {
  id = "c1";
  name = "root";
  username = "root";
  password = some "hunter2";
  private_key = some "a\nb";
  passphrase = none;
  project_id = none;
}

abbrev web : Host
web = record {
  id = "h-1";
  name = "web\n!include x";
  ip = "10.0.0.2";
  credential_id = "c1";
  vpn_id = some "v1";
  port = none;
  project_id = none;
}

abbrev with_secrets : ExportOpts
with_secrets = record { include_secrets = true }

cleaned : plant_uml_safe "!a\"b" ≡ "_a b"
unfolding plant_uml_safe
cleaned = refl

alias : sanitize_id "h-1" ≡ "h_1"
unfolding sanitize_id
alias = refl

escaped : drawio_label "a<b&c\n" ≡ "a&lt;b&amp;c&#10;"
unfolding drawio_label
escaped = refl

lines_of_one_host :
    uml_lines none [] (web ∷ []) [] (key ∷ []) with_secrets
    ≡ "@startuml" ∷ "title Unassigned — Infrastructure" ∷ "" ∷ ""
      ∷ "node \"web !include x\\n10.0.0.2\" as host_h_1" ∷ "vpn_v1 --> host_h_1"
      ∷ "note right of host_h_1" ∷ "  credential: root (user: root, auth: private key)"
      ∷ "  password: hunter2" ∷ "  private key:\\na\\nb" ∷ "end note" ∷ "" ∷ "@enduml" ∷ []
unfolding uml_lines group_from
lines_of_one_host = refl

split-build_plant_uml_example :
    split b'\n' (build_plant_uml none [] (web ∷ []) [] (key ∷ []) with_secrets)
    ≡ uml_lines none [] (web ∷ []) [] (key ∷ []) with_secrets
split-build_plant_uml_example = split-build_plant_uml none [] (web ∷ []) [] (key ∷ []) with_secrets

read_value-drawio_label_example :
    read_value none (drawio_label "a<b&c\n") ≡ some (expand flat_char "a<b&c\n")
unfolding has_char
read_value-drawio_label_example =
    read_value-drawio_label "a<b&c\n" (refl, (refl, (refl, (refl, (refl, (refl, tt))))))

-- a label that the reader refuses, though it is written as it is
control_is_written : (drawio_label "\u{1}" ≡ "\u{1}") × (read_value none "\u{1}" ≡ none)
unfolding drawio_label xml_escape expand concat read_value has_char
control_is_written = (refl, refl)

-- a host without a VPN and its note, at a saved position left of the origin
cells_of_one_host :
    map cell_text
      (drawing none [] (web ∷ []) [] [] no_secrets (("host-h-1", (negsuc 9, pos 20)) ∷ [])).cells
    ≡ "<mxCell id=\"2\" value=\"web&#10;!include x&#10;10.0.0.2\" style=\"whiteSpace=wrap;html=0;fillColor=#d5e8d4;strokeColor=#82b366;\" vertex=\"1\" parent=\"1\"><mxGeometry x=\"-10\" y=\"20\" width=\"160\" height=\"60\" as=\"geometry\" /></mxCell>"
      ∷ "<mxCell id=\"3\" value=\"(no credential configured)\" style=\"shape=note;whiteSpace=wrap;html=0;align=left;spacingLeft=6;fillColor=#fff2cc;strokeColor=#d6b656;\" vertex=\"1\" parent=\"1\"><mxGeometry x=\"-10\" y=\"100\" width=\"180\" height=\"56\" as=\"geometry\" /></mxCell>"
      ∷ []
unfolding drawing cell_text group_from
cells_of_one_host = refl

drawing_lem_example :
    let cells = (drawing none [] (web ∷ []) [] (key ∷ []) no_secrets []).cells in
    (map cell_id cells ≡ numbers 2 (length cells)) × All JoinsEarlier cells
drawing_lem_example = drawing_lem none [] (web ∷ []) [] (key ∷ []) no_secrets []

-- the dialog behind its load
abbrev loaded : State
loaded = record opened { loading = false; hosts = web ∷ []; credentials = key ∷ [] }

abbrev first_name : ProjectExport → String
first_name e = e.project.name

handle_export-blinded_example :
    (handle_export_uml none (blinded_state loaded) ≡ handle_export_uml none loaded)
    × (handle_export_drawio none (blinded_state loaded) ≡ handle_export_drawio none loaded)
    × (handle_export_json none (blinded_state loaded) first_name
        ≡ handle_export_json none loaded first_name)
handle_export-blinded_example = handle_export-blinded none loaded first_name refl
