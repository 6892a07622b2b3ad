-- ===== src/Export/Downloads.antt =====
-- src/components/Admin/ExportUmlDialog.tsx over src/lib/umlExport.ts: what is downloaded, and the event
-- that the server is told, without the tick at the secrets.
use davy_jones.Prelude.{
  ℕ, ◌+◌, String, false, ◌≡◌, refl, ap, Option, none, some, List, [], ◌∷◌, map,
}
use mathlib.Core.Option
use davy_jones.Prelude.Dict.{Dict, get, group_by}
use davy_jones.Prelude.Integers.{ℤ}
use davy_jones.Types.{Vpn, Host, Service, Credential, Project}
use davy_jones.Export.{cred_by_id}
use davy_jones.Export.DrawIo.{Drawing, note_lines, draw_host, draw_hosts, drawing, build_draw_io}
use davy_jones.Export.ProjectJson.{ProjectExport, redact, build_project_json}
use davy_jones.Export.Secrets.{
  blinded, auth_method-blinded, get-blinded, no_secrets, build_plant_uml-blinded,
}
use davy_jones.Export.Dialog.{State, handle_export_uml, handle_export_drawio, handle_export_json}

note_lines-blinded :
    (o : Option Credential) → note_lines (Option.map blinded o) no_secrets ≡ note_lines o no_secrets
unfolding note_lines
note_lines-blinded none = refl
note_lines-blinded (some c) = rw (auth_method-blinded c)

module _ (positions : Dict (ℤ × ℤ)) (by_host : Dict (List Service)) (cs : List Credential)
    (vpn_ids : Dict ℕ) where
  draw_host-blinded :
      (i : ℕ) (h : Host) (d : Drawing)
      → draw_host positions by_host (cred_by_id (map blinded cs)) no_secrets vpn_ids i h d
        ≡ draw_host positions by_host (cred_by_id cs) no_secrets vpn_ids i h d
  unfolding draw_host
  draw_host-blinded i h d =
      rw (get-blinded cs h.credential_id, note_lines-blinded (get (cred_by_id cs) h.credential_id))

  draw_hosts-blinded :
      (i : ℕ) (hs : List Host) (d : Drawing)
      → draw_hosts positions by_host (cred_by_id (map blinded cs)) no_secrets vpn_ids i hs d
        ≡ draw_hosts positions by_host (cred_by_id cs) no_secrets vpn_ids i hs d
  unfolding draw_hosts
  draw_hosts-blinded i [] d = refl
  draw_hosts-blinded i (h ∷ hs) d = rw (draw_host-blinded i h d) (
      draw_hosts-blinded (i + 1) hs
        (draw_host positions by_host (cred_by_id cs) no_secrets vpn_ids i h d))

build_draw_io-blinded :
    (project : Option Project) (vpns : List Vpn) (hosts : List Host) (services : List Service)
    (cs : List Credential) (positions : Dict (ℤ × ℤ))
    → build_draw_io project vpns hosts services (map blinded cs) no_secrets positions
      ≡ build_draw_io project vpns hosts services cs no_secrets positions
unfolding build_draw_io drawing
build_draw_io-blinded project vpns hosts services cs positions =
    rw
      (draw_hosts-blinded positions (group_by (λ (s : Service). s.host_id) services) cs _ 0 hosts _)

redacted-blinded : (cs : List Credential) → map redact (map blinded cs) ≡ map redact cs
unfolding redact
redacted-blinded [] = refl
redacted-blinded (c ∷ cs) = ap (λ (r : List Credential). redact c ∷ r) (redacted-blinded cs)

build_project_json-blinded :
    (project : Option Project) (vpns : List Vpn) (hosts : List Host) (services : List Service)
    (cs : List Credential)
    → build_project_json project vpns hosts services (map blinded cs) no_secrets
      ≡ build_project_json project vpns hosts services cs no_secrets
unfolding build_project_json
build_project_json-blinded project vpns hosts services cs = rw (redacted-blinded cs)

-- the dialog with the credentials of another project, equal but for their secrets
abbrev pub blinded_state : State → State
blinded_state s = record s { credentials = map blinded s.credentials }

-- Without the tick at the secrets none of the three downloads depends on the passwords, the passphrases
-- and the text of the private keys: blinded credentials give the same files, and the server is told the
-- same.
pub handle_export-blinded :
    (project : Option Project) (s : State) (stringify : ProjectExport → String)
    → s.include_secrets ≡ false
    → (handle_export_uml project (blinded_state s) ≡ handle_export_uml project s)
      × (handle_export_drawio project (blinded_state s) ≡ handle_export_drawio project s)
      × (handle_export_json project (blinded_state s) stringify
          ≡ handle_export_json project s stringify)
unfolding handle_export_uml handle_export_drawio handle_export_json
handle_export-blinded project s stringify off = rw off (
  rw (build_plant_uml-blinded project s.vpns s.hosts s.services s.credentials),
  rw (build_draw_io-blinded project s.vpns s.hosts s.services s.credentials s.positions),
  rw (build_project_json-blinded project s.vpns s.hosts s.services s.credentials),
)
