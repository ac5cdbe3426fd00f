-- ===== src/Shell/Execution.antt =====
-- exec.c, builtin.c and runcmd.c: what the shell does with a command line, as the system calls that its
-- processes make. What the system answers is a parameter.
pub mod Ends
use sistemas_operativos.Prelude.{
  ℕ, ◌+◌, ltb, ◌==◌, if◌then◌else◌, Bool, true, false, ◌&&◌, not, Option, none, some, ◌>>=◌, List,
  [], ◌∷◌, length, take, drop, get_or, pos, negsuc,
}
use sistemas_operativos.Shell.Strings.{String, behind, has_byte, block_contains}
use sistemas_operativos.Shell.Command.{
  ExecType, exec_type, redir_type, ExecCmd, Cmd, null, exec, back, pipe,
}
use sistemas_operativos.Shell.Parsing.{Process, parse_line}

-- The answers: the descriptor of a file that is opened to be read or, with `true`, created, whether
-- `execvp` finds the program, the ends of a pipe, and whether `fork` makes a process.
pub record Os : Type 0 where
  pub opens : String → Bool → Option ℕ
  pub execs : List String → Bool
  pub pipes : Option (ℕ × ℕ)
  pub forks : Bool

pub data Call : Type 0 where
  setenv : String → String → Call
  open_file : String → Bool → Call
  dup2 : ℕ → ℕ → Call
  close : ℕ → Call
  pipe_call : Call
  wait_for_child : Call

-- What a process does: calls, children, and how it ends. `undefined` is a null pointer that is followed.
pub data Trace : Type 0 where
  call : Call → Trace → Trace
  child : Trace → Trace → Trace
  replaced : List String → Trace
  exits : ℕ → Trace
  undefined : Trace

-- `get_environ_key` and `get_environ_value` at the index of the `=`
unfoldable pub environ_pair : String → ℕ → String × String
environ_pair arg idx = (take idx arg, drop (idx + 1) arg)

unfoldable pub set_environ_vars : List String → Trace → Trace
set_environ_vars [] rest = rest
set_environ_vars (arg ∷ args) rest =
    let below = set_environ_vars args rest in
    elim (block_contains arg b'=') [
      | negsuc n ↦ below
      | pos idx ↦ let (key, value) = environ_pair arg idx in call (setenv key value) below
    ]

-- `open_redir_fd`, `dup2` and `close`, if there is a name
unfoldable pub redirect : Os → String → Bool → ℕ → Trace → Trace
redirect os file create target rest =
    let opened = call (open_file file create) (elim (os.opens file create) [
      | none ↦ exits 1
      | some fd ↦ call (dup2 fd target) (call (close fd) rest)
    ]) in
    if length file == 0 then rest else opened

-- "&1"
abbrev pub to_stdout : String → Bool
to_stdout file = length file == 2 && (get_or file 0 0 == b'&' && get_or file 1 0 == b'1')

-- the redirection of the errors, which may go where the output goes
unfoldable pub redirect_errors : Os → String → Trace → Trace
redirect_errors os file rest =
    let opened = redirect os file true 2 rest in
    if to_stdout file then call (dup2 1 2) rest else opened

-- the case EXEC of `exec_cmd`
unfoldable pub exec_program : Os → ExecCmd → Trace
exec_program os c = set_environ_vars c.eargv (if os.execs c.argv then replaced c.argv else exits 1)

-- the cases EXEC and REDIR
unfoldable pub exec_simple : Os → ExecType → ExecCmd → Trace
exec_simple os exec_type c = exec_program os c
exec_simple os redir_type c =
    let redirected =
      redirect os c.in_file false 0
        (redirect os c.out_file true 1 (redirect_errors os c.err_file (exec_program os c))) in
    if length c.scmd == 0 then exits 1 else redirected

-- a child, if `fork` makes one
abbrev pub fork_child : Os → Trace → Trace → Trace
fork_child os inner rest = if os.forks then child inner rest else rest

-- The case PIPE, with what the children do behind their redirections.
unfoldable pub exec_pipe : Os → Trace → Trace → Trace
exec_pipe os left right = call pipe_call (elim os.pipes [
  | none ↦ exits 1
  | some (reader, writer) ↦
      fork_child os (call (close reader) (call (dup2 writer 1) (call (close writer) left))) (
        fork_child os (call (close writer) (call (dup2 reader 0) (call (close reader) right))) (
          call (close reader)
            (call (close writer) (call wait_for_child (call wait_for_child (exits 0))))))
])

unfoldable pub exec_cmd : Os → Cmd → Trace
exec_cmd os null = undefined
exec_cmd os (exec c) = exec_simple os c.exec_kind c
exec_cmd os (back scmd c) = exec_cmd os c
exec_cmd os (pipe left right) = exec_pipe os (exec_cmd os left) (exec_cmd os right)

-- The lines that `run_cmd` takes itself, or the command that it runs: the trace of the process that
-- `fork` makes for it, whether `print_status_info` or `print_back_info` follows, and so whether the shell
-- waits.
pub data Action : Type 0 where
  ignores : Action
  changes_directory : Option String → Action
  quits : Action
  prints_directory : Action
  runs : Cmd → Option Trace → Bool → Action

-- `strcmp(s, t) == 0`
unfoldable pub same : String → String → Bool
same [] [] = true
same [] (y ∷ t) = false
same (x ∷ s) [] = false
same (x ∷ s) (y ∷ t) = if x == y then same s t else false

unfoldable pub exit_shell : String → Bool
exit_shell cmd = same cmd (b'e' ∷ b'x' ∷ b'i' ∷ b't' ∷ [])

-- `none` is NULL.
unfoldable pub get_directory : String → Option String
get_directory cmd = if has_byte b' ' cmd then some (behind b' ' cmd) else none

-- the line is for `cd`
unfoldable pub is_cd : String → Bool
is_cd cmd =
    same (take 2 cmd) (b'c' ∷ b'd' ∷ []) && not (ltb 2 (length cmd) && not (get_or cmd 2 0 == b' '))

unfoldable pub pwd : String → Bool
pwd cmd = same cmd (b'p' ∷ b'w' ∷ b'd' ∷ [])

-- `parsed->type == BACK`
unfoldable pub is_back : Cmd → Bool
is_back (back scmd c) = true
is_back c = false

-- `free_command`, which follows a null pointer in a command: `false` if it does
unfoldable pub free_command : Cmd → Bool
free_command null = false
free_command (exec c) = true
free_command (back scmd c) = free_command c
free_command (pipe left right) = free_command left && free_command right

-- What is behind the parser. `none` is a null pointer that the shell follows.
unfoldable pub run_parsed : Os → Cmd → Option Action
run_parsed os parsed =
    if free_command parsed
    then some
        (runs parsed (if os.forks then some (exec_cmd os parsed) else none) (not (is_back parsed)))
    else none

-- `history` always says no.
unfoldable pub run_cmd : Os → Process → String → Option Action
run_cmd os process [] = some ignores
run_cmd os process (x ∷ line) =
    let cmd = x ∷ line in
    if is_cd cmd
    then some (changes_directory (get_directory cmd))
    else if exit_shell cmd
    then some quits
    else if pwd cmd
    then some prints_directory
    else parse_line process cmd >>= λ parsed. run_parsed os parsed
