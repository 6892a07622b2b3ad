-- ===== src/Forms/Hosts.antt =====
-- src/components/Layout/AddResourcesPanel.tsx, `HostForm`. `Number` of the text in the port's input is
-- an argument.
use davy_jones.Prelude.{ℕ, String, ◌==◌, Option, none, some, or_else, nat_eq, if◌then◌else◌}
use davy_jones.Prelude.Decimal.{decimal}
use davy_jones.Types.{Host}
use davy_jones.Forms.{Draft, Save, save, or_undefined}

pub record HostForm : Type 0 where
  pub name : String
  pub ip : String
  pub credential_id : String
  pub vpn_id : String
  pub port : String

abbrev pub empty_host_form : HostForm
empty_host_form = record { name = ""; ip = ""; credential_id = ""; vpn_id = ""; port = "" }

pub record HostPayload : Type 0 where
  pub name : String
  pub ip : String
  pub credential_id : String
  pub vpn_id : Option String
  pub port : Option ℕ

-- `host.port ? String(host.port) : ""`
unfoldable pub port_text : Option ℕ → String
unfolding decimal
port_text none = ""
port_text (some n) = if nat_eq n 0 then "" else decimal n

unfoldable pub start_edit : Host → Draft HostForm → Draft HostForm
unfolding port_text
start_edit h d = record {
  editing_id = some h.id;
  form = record {
    name = h.name;
    ip = h.ip;
    credential_id = h.credential_id;
    vpn_id = or_else h.vpn_id "";
    port = port_text h.port;
  };
}

module _ (number : String → ℕ) where
  unfoldable pub host_payload : HostForm → HostPayload
  host_payload f = record {
    name = f.name;
    ip = f.ip;
    credential_id = f.credential_id;
    vpn_id = or_undefined f.vpn_id;
    port = if f.port == "" then none else some (number f.port);
  }

  unfoldable pub submit : Draft HostForm → Save HostPayload
  unfolding host_payload save
  submit d = save d.editing_id (host_payload d.form)
