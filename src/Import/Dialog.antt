-- ===== src/Import/Dialog.antt =====
-- `handleFile` and `handleImport` of src/components/Admin/ImportProjectDialog.tsx. What `JSON.parse`
-- and `parseProjectExport` make of the file, and what `onImported` does, are arguments.
use davy_jones.Prelude.{ℕ, String, Bool, false, Option, none, some, List, [], length}
use davy_jones.Types.{Project}
use davy_jones.Auth.{Answer, returned, thrown}
use davy_jones.Export.ProjectJson.{ProjectExport}
use davy_jones.Import.{dedupe_name}
use davy_jones.Import.Run.{
  create_project, Server, Outcome, done, broke, and_then, send, import_credentials, import_vpns,
  import_hosts, import_services,
}

pub record ImportSummary : Type 0 where
  pub vpns : ℕ
  pub hosts : ℕ
  pub services : ℕ
  pub credentials : ℕ
  pub skipped_credentials : ℕ

pub record Dialog : Type 0 where
  pub parsed : Option ProjectExport
  pub file_error : Option String
  pub importing : Bool
  pub error : Option String
  pub summary : Option ImportSummary

unfoldable pub handle_file : Answer (Option ProjectExport) → Dialog → Dialog
handle_file (returned (some p)) s = record s { file_error = none; summary = none; parsed = some p }
handle_file (returned none) s = record s {
  file_error =
      some
        "This doesn't look like a Davy Jones project export (missing project/vpns/hosts/services/credentials).";
  summary = none;
  parsed = none;
}
handle_file (thrown _) s = record s {
  file_error = some "Could not parse this file as JSON.";
  summary = none;
  parsed = none;
}

-- the calls between `setImporting(true)` and `setSummary`, with the new project's id
unfoldable pub run_import : Server → List Project → ProjectExport → Outcome (String × ImportSummary)
unfolding send and_then import_credentials import_vpns import_hosts import_services dedupe_name
run_import server existing p =
    and_then
      (send server (create_project (dedupe_name p.project.name existing) p.project.description) [])
      λ project log.
        and_then (import_credentials server project p.credentials ([], 0) log) λ creds log.
          and_then (import_vpns server project creds.0 p.vpns [] log) λ vpns log.
            and_then (import_hosts server project creds.0 vpns p.hosts [] log) λ hosts log.
              and_then (import_services server project hosts p.services 0 log) λ services log.
                done
                  (
                    project,
                    record {
                      vpns = length vpns;
                      hosts = length hosts;
                      services = services;
                      credentials = length creds.0;
                      skipped_credentials = creds.1;
                    },
                  )
                  log

-- the error of a call, if it threw
unfoldable pub error_of : Answer Unit → Option String
error_of (returned _) = none
error_of (thrown e) = some e

-- The rest of `handleImport`, with the argument of `onImported` where it is called.
unfoldable pub finish_import :
    Answer Unit → Outcome (String × ImportSummary) → Dialog → Dialog × Option String
unfolding error_of
finish_import imported (done (project, summary) log) s = (
  record s { importing = false; error = error_of imported; summary = some summary },
  some project,
)
finish_import imported (broke e log) s = (record s { importing = false; error = some e }, none)

unfoldable pub handle_import : Server → Answer Unit → List Project → Dialog → Dialog × Option String
unfolding run_import finish_import
handle_import server imported existing s = elim s.parsed [
  | none ↦ (s, none)
  | some p ↦ finish_import imported (run_import server existing p) s
]
