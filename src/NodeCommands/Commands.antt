-- ===== src/NodeCommands/Commands.antt =====
-- The command lines of src/lib/nodeCommands.ts as the shell splits them: the resource's name is one
-- word, whatever it holds.
use davy_jones.Prelude.{String, Option, some, ◌≡◌, refl, ap, List, [], ◌∷◌, map, ◌∙◌, filter, ◌==◌}
use davy_jones.Prelude.Text.{concat, template, expand, concat_assoc, concat-nil}
use davy_jones.Types.{Host, Service}
use davy_jones.NodeCommands.{NodeAction, q, q_char, lxc_actions, docker_actions}
use davy_jones.NodeCommands.Shell.{quoted, bare, blank, scan, words}
use davy_jones.NodeCommands.Quoting.{put_all, put_all-some, scan-q}

-- The shell reads a quoted text, whatever it holds, as that text at the start of a word, and goes on
-- behind it in the same word.
scan_blank-q : (s rest : String) → scan blank (concat (q s) rest) ≡ put_all s (scan bare rest)
unfolding scan q
scan_blank-q s rest = ap (scan quoted) (concat_assoc (expand q_char s) "'" rest) ∙ scan-q s rest

-- The words of a command that ends in a quoted text, after its literal part.
module _ (s : String) where
  scan_last : scan blank (concat (q s) "") ≡ some (s ∷ [])
  scan_last = rw (scan_blank-q s "") (unfold scan in rw (put_all-some, concat-nil))

  scan_inner :
      (rest : String) (ws : List String)
      → scan bare rest ≡ some ("" ∷ ws)
      → scan blank (concat (q s) rest) ≡ some (s ∷ ws)
  scan_inner rest ws h = rw (scan_blank-q s rest, h, put_all-some, concat-nil)

-- the words of each action's command
abbrev pub command_words : List NodeAction → List (Option (List String))
command_words = map (λ a. words a.command)

-- For every service, the shell splits the three LXC commands into the fixed words of each and the
-- service's name as one single word.
pub words-lxc_actions :
    (service : Service) (host : Host)
    → command_words (lxc_actions service host)
      ≡ some ("lxc" ∷ "info" ∷ service.name ∷ [])
        ∷ some ("lxc" ∷ "exec" ∷ service.name ∷ "--" ∷ "ps" ∷ "aux" ∷ [])
        ∷ some ("lxc" ∷ "console" ∷ "--show-log" ∷ service.name ∷ [])
        ∷ []
unfolding lxc_actions words template
words-lxc_actions service host =
    rw (scan_last service.name, scan_inner service.name " -- ps aux" _ refl)

-- The second Docker action follows the logs of the service whose name is the last word.
pub words-docker_actions_logs :
    (service : Service) (host : Host)
    → command_words (filter (λ a. a.label == "Logs") (docker_actions service host))
      ≡ some ("docker" ∷ "service" ∷ "logs" ∷ "--tail" ∷ "100" ∷ service.name ∷ []) ∷ []
unfolding docker_actions words template
words-docker_actions_logs service host = rw (scan_last service.name)
