-- ===== src/NodeCommands/Tests.antt =====
-- Tests of the commands: names that hold quotes and operators.
use davy_jones.Prelude.{◌≡◌, refl, none, some, [], ◌∷◌}
use davy_jones.Types.{Host, Service}
use davy_jones.NodeCommands.{q, rx, lxc_actions}
use davy_jones.NodeCommands.Shell.{literal}
use davy_jones.NodeCommands.Quoting.{literal-rx}
use davy_jones.NodeCommands.Commands.{command_words, words-lxc_actions}

abbrev web : Host
web = record {
  id = "h1";
  name = "web";
  ip = "10.0.0.2";
  credential_id = "c1";
  vpn_id = none;
  port = none;
  project_id = none;
}

-- a name that would run a second command if it were not quoted
abbrev hostile : Service
hostile = record {
  id = "s1";
  name = "a'; rm -rf $HOME #";
  kind = "LXC";
  host_id = "h1";
  project_id = none;
}

quoted_name : q "it's" ≡ "'it'\\''s'"
unfolding q
quoted_name = refl

escaped_name : rx "web.1" ≡ "web\\.1"
unfolding rx
escaped_name = refl

literal-rx_example : literal (rx "web.1") ≡ some "web.1"
literal-rx_example = literal-rx "web.1"

words-lxc_actions_example :
    command_words (lxc_actions hostile web)
    ≡ some ("lxc" ∷ "info" ∷ "a'; rm -rf $HOME #" ∷ [])
      ∷ some ("lxc" ∷ "exec" ∷ "a'; rm -rf $HOME #" ∷ "--" ∷ "ps" ∷ "aux" ∷ [])
      ∷ some ("lxc" ∷ "console" ∷ "--show-log" ∷ "a'; rm -rf $HOME #" ∷ [])
      ∷ []
words-lxc_actions_example = words-lxc_actions hostile web
