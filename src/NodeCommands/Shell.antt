-- ===== src/NodeCommands/Shell.antt =====
-- How a POSIX shell and a regular expression read a text, for the parts that the commands of
-- src/lib/nodeCommands.ts rely on. An independent description: it names no function of that file.
use Prim.Native.Char.{Char, code}
use Prim.Native.String.{[], ◌∷◌}
use mathlib.Core.Option
use mathlib.Core.List.{List}
use davy_jones.Prelude.{String, Bool, true, false, Option, none, some, nat_eq, if◌then◌else◌}
use davy_jones.Prelude.Text.{has_char}

-- Where the shell stands: between words, in a word, in single quotes, or behind a backslash.
pub data Mode : Type 0 where
  blank bare quoted escaped : Mode

-- Characters that a shell does not take literally outside quotes.
abbrev pub shell_specials : String
shell_specials = "|&;<>()$`\"*?[#~=%{}\n\t!"

abbrev with_char : Char → List String → List String
with_char c List.[] = List.◌∷◌ (c ∷ []) List.[]
with_char c (List.◌∷◌ w ws) = List.◌∷◌ (c ∷ w) ws

-- one more character at the front of the first word
unfoldable pub put : Char → Option (List String) → Option (List String)
put c = Option.map (with_char c)

-- the end of a word, before the words that follow
abbrev pub end_word : Option (List String) → Option (List String)
end_word = Option.map (List.◌∷◌ "")

-- The words of a simple command; `none` where a character would be expanded or an operator stands.
unfoldable pub scan : Mode → String → Option (List String)
scan blank [] = some List.[]
scan blank (c ∷ s) =
    let next = scan blank s in
    let open_quote = scan quoted s in
    let behind = scan escaped s in
    let plain = scan bare s in
    if nat_eq (code c) b' '
    then next
    else if nat_eq (code c) b'\''
    then open_quote
    else if nat_eq (code c) b'\\'
    then behind
    else if has_char shell_specials (code c)
    then none
    else put c plain
scan bare [] = some (List.◌∷◌ "" List.[])
scan bare (c ∷ s) =
    let next = scan blank s in
    let open_quote = scan quoted s in
    let behind = scan escaped s in
    let plain = scan bare s in
    if nat_eq (code c) b' '
    then end_word next
    else if nat_eq (code c) b'\''
    then open_quote
    else if nat_eq (code c) b'\\'
    then behind
    else if has_char shell_specials (code c)
    then none
    else put c plain
scan quoted [] = none
scan quoted (c ∷ s) =
    let close_quote = scan bare s in
    let inside = scan quoted s in if nat_eq (code c) b'\'' then close_quote else put c inside
scan escaped [] = none
scan escaped (c ∷ s) = put c (scan bare s)

-- the words of a command line
unfoldable pub words : String → Option (List String)
unfolding scan put has_char
words s = scan blank s

-- Characters that a regular expression does not take literally.
abbrev pub regex_operators : String
regex_operators = ".[]{}()*+?^$|\\"

-- The text that a regular expression matches, if it matches one text only: a backslash makes the
-- next character literal, and `none` stands for an operator.
unfoldable pub literal_from : Bool → String → Option String
literal_from true [] = none
literal_from true (c ∷ s) = Option.map (◌∷◌ c) (literal_from false s)
literal_from false [] = some ""
literal_from false (c ∷ s) =
    let behind = literal_from true s in
    let plain = Option.map (◌∷◌ c) (literal_from false s) in
    if nat_eq (code c) b'\\'
    then behind
    else if has_char regex_operators (code c)
    then none
    else plain

unfoldable pub literal : String → Option String
unfolding literal_from has_char
literal s = literal_from false s
