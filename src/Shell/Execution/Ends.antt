-- ===== src/Shell/Execution/Ends.antt =====
-- How the processes of exec.c and runcmd.c end.
use sistemas_operativos.Prelude.{
  ℕ, zero, suc, ◌≡◌, refl, Bool, true, false, Option, none, some, ◌>>=◌, List, ◌∷◌, ℤ, pos, negsuc,
}
use sistemas_operativos.Shell.Strings.{String, split_line, until}
use sistemas_operativos.Shell.Command.{Cmd, null, exec, back, pipe, pipe_cmd_create}
use sistemas_operativos.Shell.Parsing.{Process, parse_cmd, pipe_result, parse_line_from, parse_line}
use sistemas_operativos.Shell.Execution.{
  Os, Trace, environ_pair, setenv, call, child, replaced, exits, set_environ_vars, Action, ignores,
  changes_directory, quits, prints_directory, runs, is_cd, exit_shell, pwd, free_command, same,
  run_parsed, run_cmd,
}

-- The process and its children end: each exits or becomes another program.
pub data Ends : Trace → Type 0 where
  exits_ends : {n : ℕ} → Ends (exits n)
  replaced_ends : {argv : List String} → Ends (replaced argv)
  call_ends : {c : _} {t : Trace} → Ends t → Ends (call c t)
  child_ends : {s t : Trace} → Ends s → Ends t → Ends (child s t)

abbrev set_pair : String → List String → Trace → ℤ → Trace
set_pair arg args t i = elim i [
  | negsuc n ↦ set_environ_vars args t
  | pos idx ↦
      let (key, value) = environ_pair arg idx in call (setenv key value) (set_environ_vars args t)
]

-- Every process that the shell makes for the line ends.
pub data ProcessesEnd : Option Action → Type 0 where
  shell_lost : ProcessesEnd none
  builtin_ignores : ProcessesEnd (some ignores)
  builtin_cd : {d : Option String} → ProcessesEnd (some (changes_directory d))
  builtin_exit : ProcessesEnd (some quits)
  builtin_pwd : ProcessesEnd (some prints_directory)
  no_process : {c : Cmd} {w : Bool} → ProcessesEnd (some (runs c none w))
  process_ends : {c : Cmd} {t : Trace} {w : Bool} → Ends t → ProcessesEnd (some (runs c (some t) w))

free_null_pipe : (c : Cmd) → free_command (pipe_cmd_create null c) ≡ false
unfolding pipe_cmd_create free_command
free_null_pipe null = refl
free_null_pipe (exec c) = refl
free_null_pipe (back s c) = refl
free_null_pipe (pipe l r) = refl

pipe_lost :
    (os : Os) (r : Option Cmd)
    → (pipe_result (some null) r >>= λ parsed. run_parsed os parsed) ≡ none
unfolding pipe_result run_parsed
pipe_lost os none = refl
pipe_lost os (some c) = rw (free_null_pipe c) refl

parse_lost :
    (os : Os) (process : Process) (line : String) (fuel : ℕ)
    → (parse_line_from process fuel true (b'|' ∷ line) >>= λ parsed. run_parsed os parsed) ≡ none
unfolding parse_line_from split_line until parse_cmd
parse_lost os process line zero = refl
parse_lost os process line (suc fuel) = pipe_lost os _

-- A line that begins with `|` makes the shell follow a null pointer, whatever comes behind it.
pub run_cmd-pipe_first :
    (os : Os) (process : Process) (line : String) → run_cmd os process (b'|' ∷ line) ≡ none
unfolding run_cmd is_cd exit_shell pwd same parse_line
run_cmd-pipe_first os process line = parse_lost os process line _
