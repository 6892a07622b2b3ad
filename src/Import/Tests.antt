-- ===== src/Import/Tests.antt =====
-- Tests of the import: a file with a VPN, a host on it, a host on a VPN that is gone, and two services.
use davy_jones.Prelude.{String, ◌≡◌, ◌≢◌, refl, false, none, some, List, [], ◌∷◌, length}
use davy_jones.Prelude.Text.{concat}
use davy_jones.Prelude.Decimal.{decimal}
use davy_jones.Types.{Host, Service, Project, no_certificate}
use davy_jones.Auth.{returned}
use davy_jones.Export.ProjectJson.{ProjectExport}
use davy_jones.Import.{is_taken, dedupe_name}
use davy_jones.Import.Names.{dedupe_name_lem}
use davy_jones.Import.Run.{
  Request, Server, create_project, create_credential, create_vpn, create_host, create_service,
}
use davy_jones.Import.Dialog.{run_import}
use davy_jones.Import.Issued.{IsLinked}
use davy_jones.Import.References.{log_of, run_import-IsLinked}
use davy_jones.Import.Tally.{OnDone}
use davy_jones.Import.Counts.{IsComplete, run_import-IsComplete}

abbrev project_named : String → Project
project_named name = record {
  id = name;
  name = name;
  description = none;
  member_ids = none;
  created_at = "";
}

abbrev office : List Project
office = project_named "office" ∷ project_named "office (2)" ∷ []

third_office : dedupe_name "office" office ≡ "office (3)"
unfolding dedupe_name
third_office = refl

dedupe_name_lem_example :
    (is_taken (dedupe_name "office" office) office ≡ false)
    × (is_taken "office" office ≡ false → dedupe_name "office" office ≡ "office")
dedupe_name_lem_example = dedupe_name_lem "office" office

-- a server that numbers what it creates
abbrev counting : Server
counting log r = returned (decimal (length log))

abbrev host_on : String → Host
host_on vpn = record {
  id = vpn;
  name = "web";
  ip = "10.0.0.2";
  credential_id = "c";
  vpn_id = some vpn;
  port = none;
  project_id = none;
}

abbrev service_on : String → Service
service_on host = record {
  id = host;
  name = "api";
  kind = "Docker";
  host_id = host;
  project_id = none;
}

abbrev file : ProjectExport
file = record {
  project = record { name = "office"; description = none };
  vpns =
      record {
        id = "v";
        name = "v";
        image = "img";
        container_name = "v";
        command = "";
        remote_gateway = "gw";
        port = 10443;
        client_certificate = no_certificate;
        credential_id = some "c";
        project_id = none;
        shared_project_ids = none;
        idle_timeout_minutes = none;
      }
      ∷ [];
  hosts = host_on "v" ∷ host_on "gone" ∷ [];
  services = service_on "v" ∷ service_on "nowhere" ∷ [];
  credentials =
      record {
        id = "c";
        name = "root";
        username = "root";
        password = some "hunter2";
        private_key = none;
        passphrase = none;
        project_id = none;
      }
      ∷ [];
}

requests :
    log_of (run_import counting [] file)
    ≡ create_project "office" none
      ∷ create_credential "root" "root" (some "hunter2") none none "0"
      ∷ create_vpn "v" "img" "v" "" "gw" 10443 no_certificate (some "1") "0"
      ∷ create_host "web" "10.0.0.2" "1" (some "2") none "0"
      ∷ create_host "web" "10.0.0.2" "1" none none "0"
      ∷ create_service "api" "Docker" "3" "0"
      ∷ []
unfolding run_import decimal
requests = refl

run_import-IsLinked_example : IsLinked counting (log_of (run_import counting office file))
run_import-IsLinked_example = run_import-IsLinked counting office file

-- a server whose ids begin with a word
abbrev prefixed : Server
prefixed log r = returned (concat "id_" (decimal (length log)))

prefixed_ids : (log : List Request) (r : Request) → prefixed log r ≢ returned ""
unfolding concat
prefixed_ids log r e = cc

run_import-IsComplete_example :
    OnDone (λ a log. IsComplete office file a.1 log) (run_import prefixed office file)
run_import-IsComplete_example = run_import-IsComplete prefixed office file prefixed_ids
