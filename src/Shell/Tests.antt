-- ===== src/Shell/Tests.antt =====
-- The parser and `run_cmd` on concrete lines.
use sistemas_operativos.Prelude.{◌≡◌, refl, arith, true, [], ◌∷◌, none, some, pos}
use sistemas_operativos.Shell.Strings.{String, has_byte, behind, block_contains, contains_from}
use sistemas_operativos.Shell.Command.{exec_cmd_create}
use sistemas_operativos.Shell.Parsing.{Process, parse_exec}
use sistemas_operativos.Shell.Parsing.Words.{Plain, join, parse_exec-join}
use sistemas_operativos.Shell.Execution.{
  Os, setenv, open_file, dup2, close, call, exits, environ_pair, set_environ_vars, redirect,
  redirect_errors, changes_directory, quits, same, exit_shell, get_directory, is_cd, run_cmd,
}
use sistemas_operativos.Shell.Execution.Ends.{run_cmd-pipe_first}

abbrev process : Process
process = record { getenv = λ name. none; status = pos 0 }

abbrev ls : String
ls = b'l' ∷ b's' ∷ []

abbrev wc : String
wc = b'w' ∷ b'c' ∷ []

ls-Plain : Plain ls
ls-Plain = record {
  nonempty = omega arith;
  no_space = (λ e. omega arith, (λ e. omega arith, tt));
  no_dollar = (λ e. omega arith, (λ e. omega arith, tt));
  no_in = (λ e. omega arith, (λ e. omega arith, tt));
  no_out = (λ e. omega arith, (λ e. omega arith, tt));
  no_equals = (λ e. omega arith, (λ e. omega arith, tt));
}

parse_exec-join_example :
    parse_exec process (join (ls ∷ ls ∷ []))
    ≡ some (record (exec_cmd_create (join (ls ∷ ls ∷ []))) { argv = ls ∷ ls ∷ [] })
parse_exec-join_example =
    parse_exec-join process (ls ∷ ls ∷ []) (ls-Plain, (ls-Plain, tt)) (omega arith)

abbrev os : Os
os = record {
  opens = λ file create. some 3;
  execs = λ argv. true;
  pipes = some (3, 4);
  forks = true;
}

run_cmd-pipe_first_example : run_cmd os process (b'|' ∷ ls) ≡ none
run_cmd-pipe_first_example = run_cmd-pipe_first os process ls

-- `cd ls` and `exit`
cd_test : run_cmd os process (b'c' ∷ b'd' ∷ b' ' ∷ ls) ≡ some (changes_directory (some ls))
unfolding run_cmd is_cd same get_directory has_byte behind
cd_test = refl

exit_test : run_cmd os process (b'e' ∷ b'x' ∷ b'i' ∷ b't' ∷ []) ≡ some quits
unfolding run_cmd is_cd exit_shell same
exit_test = refl

-- `ls 2>&1` has its errors where its output goes, and `ls >ls` opens the file first.
errors_test : redirect_errors os (b'&' ∷ b'1' ∷ []) (exits 0) ≡ call (dup2 1 2) (exits 0)
unfolding redirect_errors
errors_test = refl

output_test :
    redirect os ls true 1 (exits 0)
    ≡ call (open_file ls true) (call (dup2 3 1) (call (close 3) (exits 0)))
unfolding redirect
output_test = refl

-- `ls=wc` before a command
environ_test :
    set_environ_vars ((b'l' ∷ b's' ∷ b'=' ∷ wc) ∷ []) (exits 0) ≡ call (setenv ls wc) (exits 0)
unfolding set_environ_vars environ_pair block_contains contains_from
environ_test = refl
