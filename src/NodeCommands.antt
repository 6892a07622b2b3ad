-- ===== src/NodeCommands.antt =====
-- src/lib/nodeCommands.ts: the commands behind the hover menus. A `run` callback is the call that it
-- makes, as a value of `Call`.
pub mod Shell
pub mod Quoting
pub mod Commands
pub mod Tests
use Prim.Native.Char.{Char, code}
use davy_jones.Prelude.{
  ℕ, String, Bool, true, false, Option, none, some, List, [], ◌∷◌, ◌==◌, nat_eq, if◌then◌else◌,
}
use davy_jones.Prelude.Text.{concat, template, of_char, has_char, expand}
use davy_jones.Types.{Vpn, Host, Service}

pub data DockerAction : Type 0 where
  start stop : DockerAction

-- `onOpenShell(hostId, hostName)`, `onRunCommand(hostId, hostName, command, name)` and
-- `onDockerAction(vpnId, action)`
pub data Call : Type 0 where
  open_shell : String → String → Call
  run_command : String → String → String → String → Call
  docker : String → DockerAction → Call

pub record NodeAction : Type 0 where
  pub label : String
  pub command : String
  pub summary : Option String
  pub shell : Bool
  pub run : Call

abbrev pub quote : ℕ
quote = b'\''

abbrev pub backslash : ℕ
backslash = b'\\'

-- `'` becomes `'\''`.
abbrev pub q_char : Char → String
q_char c = if nat_eq (code c) quote then "'\\''" else of_char c

-- Single quotes for the shell.
unfoldable pub q : String → String
unfolding concat expand
q s = concat "'" (concat (expand q_char s) "'")

-- the class `[.[\]{}()*+?^$|\\]`
abbrev pub regex_specials : String
regex_specials = ".[]{}()*+?^$|\\"

abbrev pub rx_char : Char → String
rx_char c = if has_char regex_specials (code c) then concat "\\" (of_char c) else of_char c

-- Escapes for a regular expression.
unfoldable pub rx : String → String
unfolding expand has_char concat
rx s = expand rx_char s

unfoldable pub resolve_containers : String → String
unfolding template
resolve_containers name = template (
    "ids=$(docker ps -q --filter label=com.docker.swarm.service.name="
    ∷ q name
    ∷ " 2>/dev/null); "
    ∷ "[ -z \"$ids\" ] && ids=$(docker ps -q --filter name="
    ∷ q (template ("^" ∷ rx name ∷ "$" ∷ []))
    ∷ " 2>/dev/null); "
    ∷ "[ -z \"$ids\" ] && { echo \"no running container for "
    ∷ name
    ∷ " on this host\"; exit 1; }; "
    ∷ [])

-- the `run` helper of `hostActions`
unfoldable pub host_run : Host → String → String → NodeAction
host_run host label command = record {
  label = label;
  command = command;
  summary = none;
  shell = false;
  run = run_command host.id host.name command label;
}

unfoldable pub host_actions : Host → List NodeAction
unfolding host_run
host_actions host =
    record {
      label = "Open shell";
      command = "";
      summary = none;
      shell = true;
      run = open_shell host.id host.name;
    }
    ∷ host_run host "Disk usage" "df -h"
    ∷ host_run host "Memory" "free -h"
    ∷ host_run host "Top processes" "ps aux --sort=-%cpu | head -15"
    ∷ host_run host "Docker containers" "docker ps"
    ∷ host_run host "Failed units" "systemctl --failed --no-pager"
    ∷ host_run host "Last logins" "last -n 10"
    ∷ []

-- the `run` helper of `serviceActions`
unfoldable pub service_run : Service → Host → String → String → Option String → NodeAction
unfolding template
service_run service host label command summary = record {
  label = label;
  command = command;
  summary = summary;
  shell = false;
  run = run_command host.id host.name command (template (service.name ∷ " — " ∷ label ∷ []));
}

-- the branch for `service.type === "Docker"`
unfoldable pub docker_actions : Service → Host → List NodeAction
unfolding resolve_containers service_run template q
docker_actions service host =
    let name = q service.name in
    let resolve = resolve_containers service.name in
    service_run service host "Tasks"
      (template (
        "docker service ps --no-trunc " ∷ name ∷ " 2>/dev/null || " ∷ "{ " ∷ resolve
        ∷ "docker inspect --format '{{.Name}}  {{.State.Status}}  {{.Config.Image}}' $ids; }" ∷ []))
      (some (template ("docker service ps " ∷ service.name ∷ [])))
    ∷ service_run service host "Logs" (template ("docker service logs --tail 100 " ∷ name ∷ []))
        none
    ∷ service_run service host "Inspect"
        (template (
          "docker service inspect --pretty " ∷ name ∷ " 2>/dev/null || " ∷ "{ " ∷ resolve
          ∷ "docker inspect $ids; }" ∷ []))
        (some (template ("docker service inspect " ∷ service.name ∷ [])))
    ∷ service_run service host "Stats" (template (resolve ∷ "docker stats --no-stream $ids" ∷ []))
        (some (template ("docker stats (containers of " ∷ service.name ∷ ")" ∷ [])))
    ∷ []

-- the branch for `service.type === "LXC"`
unfoldable pub lxc_actions : Service → Host → List NodeAction
unfolding service_run template q
lxc_actions service host =
    let name = q service.name in
    service_run service host "Info" (template ("lxc info " ∷ name ∷ [])) none
    ∷ service_run service host "Processes" (template ("lxc exec " ∷ name ∷ " -- ps aux" ∷ [])) none
    ∷ service_run service host "Console log" (template ("lxc console --show-log " ∷ name ∷ [])) none
    ∷ []

-- the branch for any other type
unfoldable pub process_actions : Service → Host → List NodeAction
unfolding service_run template q
process_actions service host =
    let name = q service.name in
    service_run service host "Find process"
      (template ("ps aux | grep -i " ∷ name ∷ " | grep -v grep" ∷ [])) none
    ∷ service_run service host "Listening ports" "ss -ltnp" none
    ∷ []

unfoldable pub service_actions : Service → Option Host → List NodeAction
unfolding docker_actions lxc_actions process_actions
service_actions service none = []
service_actions service (some host) =
    if service.kind == "Docker"
    then docker_actions service host
    else if service.kind == "LXC"
    then lxc_actions service host
    else process_actions service host

unfoldable pub vpn_actions : Vpn → List NodeAction
unfolding template
vpn_actions vpn =
    record {
      label = "Start container";
      command = template ("docker start " ∷ vpn.container_name ∷ []);
      summary = none;
      shell = false;
      run = docker vpn.id start;
    }
    ∷ record {
      label = "Stop container";
      command = template ("docker stop " ∷ vpn.container_name ∷ []);
      summary = none;
      shell = false;
      run = docker vpn.id stop;
    }
    ∷ []
