-- ===== src/Shell/Parsing/Pipes.antt =====
-- A line of commands with pipes between them: what `parse_line` makes of it.
use sistemas_operativos.Prelude.{◌≢◌, Bool, false, Option, some, List, [], ◌∷◌, ◌++◌}
use sistemas_operativos.Shell.Strings.{String}
use sistemas_operativos.Shell.Command.{Cmd, null}
use sistemas_operativos.Shell.Parsing.{Process, parse_cmd, pipe_result}
use sistemas_operativos.Shell.Parsing.Words.{Without}

-- The text of a command: it has no `|`, is not empty and does not start with a space.
abbrev pub IsCommand : String → Type 0
IsCommand [] = ⊥
IsCommand (x ∷ s) = (x ≢ b' ') × Without b'|' (x ∷ s)

abbrev pub AllCommands : List String → Type 0
AllCommands [] = Unit {0}
AllCommands (w ∷ ws) = IsCommand w × AllCommands ws

-- the commands with a `|` between each two
unfoldable pub pipe_join : List String → String
pipe_join [] = []
pipe_join (w ∷ []) = w
pipe_join (w ∷ v ∷ ws) = w ++ b'|' ∷ pipe_join (v ∷ ws)

-- The commands, each parsed alone, in pipes that nest to the right. Only the first starts the buffer.
unfoldable pub nested : Process → Bool → List String → Option Cmd
nested env first [] = some null
nested env first (w ∷ []) = parse_cmd env first w
nested env first (w ∷ v ∷ ws) = pipe_result (parse_cmd env first w) (nested env false (v ∷ ws))
