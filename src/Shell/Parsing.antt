-- ===== src/Shell/Parsing.antt =====
-- src/parsing.c. `none` is a write behind the end of `argv` or `eargv`, or a read in front of the
-- buffer. A line has fewer than 1024 bytes, so tokens and file names fit their arrays.
pub mod Words
pub mod Pipes
use sistemas_operativos.Prelude.{
  ℕ, zero, suc, ◌+◌, ◌-◌, ltb, ◌==◌, if◌then◌else◌, Bool, true, false, ◌&&◌, ◌||◌, not, Option,
  none, some, List, [], ◌∷◌, ◌++◌, length, drop, get_or, ℤ, pos, negsuc, is_neg,
}
use sistemas_operativos.Shell.Strings.{
  String, until, behind, split_line, block_contains, has_byte, decimal,
}
use sistemas_operativos.Shell.Command.{
  ExecCmd, redir_type, Cmd, null, exec, exec_cmd_create, back_cmd_create, pipe_cmd_create,
}

abbrev pub maxargs : ℕ
maxargs = 20

-- What `getenv` answers, and the global `status`.
pub record Process : Type 0 where
  pub getenv : String → Option String
  pub status : ℤ

-- `get_token` and the step of the index behind the token and its space
unfoldable pub next_token : String → String × String
next_token buf = (until b' ' buf, behind b' ' buf)

-- the output file that the index of `>` stands for
unfoldable pub redirect_out : ExecCmd → String → ℕ → ExecCmd
redirect_out c arg zero = record c { exec_kind = redir_type; out_file = drop 1 arg }
redirect_out c arg (suc zero) = record c { exec_kind = redir_type; err_file = drop 2 arg }
redirect_out c arg (suc (suc i)) = record c { exec_kind = redir_type }

unfoldable pub parse_redir_in : ExecCmd → String → ℤ → Option ExecCmd
parse_redir_in c arg (pos i) = some (record c { exec_kind = redir_type; in_file = drop 1 arg })
parse_redir_in c arg (negsuc n) = none

-- the changed command where the C function returns true
unfoldable pub parse_redir_out : ExecCmd → String → ℤ → Option ExecCmd
parse_redir_out c arg (pos i) = some (redirect_out c arg i)
parse_redir_out c arg (negsuc n) = parse_redir_in c arg (block_contains arg b'<')

unfoldable pub parse_redir_flow : ExecCmd → String → Option ExecCmd
parse_redir_flow c arg = parse_redir_out c arg (block_contains arg b'>')

abbrev pub is_positive : ℤ → Bool
is_positive (pos n) = ltb 0 n
is_positive (negsuc n) = false

-- whether `parse_environ_var` takes the token
unfoldable pub is_environ_var : String → Bool
is_environ_var arg = is_positive (block_contains arg b'=') && is_neg (block_contains arg b'-')

unfoldable pub value_or_empty : Option String → String
value_or_empty none = []
value_or_empty (some value) = value

unfoldable pub expand_environ_var : Process → String → String
expand_environ_var env [] = []
expand_environ_var env (c ∷ name) =
    if not (c == b'$')
    then c ∷ name
    else if (length name == 0) || not (get_or name 0 0 == b'?')
    then value_or_empty (env.getenv name)
    else decimal env.status

-- `c->eargv[c->eargc++] = arg`
unfoldable pub push_eargv : ExecCmd → String → Option ExecCmd
push_eargv c arg =
    if ltb (length c.eargv) maxargs then some (record c { eargv = c.eargv ++ arg ∷ [] }) else none

-- `c->argv[argc++] = tok`, for a token that is not empty
unfoldable pub push_argv : ExecCmd → String → Option ExecCmd
push_argv c tok =
    if length tok == 0
    then some c
    else if ltb (length c.argv) maxargs
    then some (record c { argv = c.argv ++ tok ∷ [] })
    else none

-- a token that is no redirection
unfoldable pub parse_word : Process → ExecCmd → String → Option ExecCmd
parse_word env c tok =
    if is_environ_var tok then push_eargv c tok else push_argv c (expand_environ_var env tok)

-- the body of the loop of `parse_exec`, behind `parse_redir_flow`
unfoldable pub parse_token : Process → ExecCmd → String → Option ExecCmd → Option ExecCmd
parse_token env c tok (some c') = some c'
parse_token env c tok none = parse_word env c tok

-- The loop of `parse_exec`, on fuel: the bytes left are as many as it has, or fewer.
unfoldable pub parse_tokens : Process → ℕ → ExecCmd → String → Option ExecCmd
parse_tokens env fuel c [] = some c
parse_tokens env zero c (x ∷ s) = none
parse_tokens env (suc fuel) c (x ∷ s) =
    let (tok, rest) = next_token (x ∷ s) in
    elim (parse_token env c tok (parse_redir_flow c tok)) [
      | none ↦ none
      | some c' ↦ parse_tokens env fuel c' rest
    ]

-- `c->argv[argc] = NULL`
unfoldable pub end_argv : Option ExecCmd → Option ExecCmd
end_argv none = none
end_argv (some c) = if ltb (length c.argv) maxargs then some c else none

unfoldable pub parse_exec : Process → String → Option ExecCmd
parse_exec env buf_cmd =
    end_argv (parse_tokens env (length buf_cmd) (exec_cmd_create buf_cmd) buf_cmd)

unfoldable pub exec_result : Option ExecCmd → Option Cmd
exec_result none = none
exec_result (some c) = some (exec c)

unfoldable pub back_result : Option ExecCmd → Option Cmd
back_result none = none
back_result (some c) = some (back_cmd_create c)

unfoldable pub parse_back : Process → String → Option Cmd
parse_back env buf_cmd = back_result (parse_exec env (until b'&' buf_cmd))

-- The test of `parse_cmd`: a `&` at index 0 has it read `buf_cmd[-1]`, which is out of the buffer for
-- its first string, and a NUL or a space for the others.
unfoldable pub parse_at : Process → Bool → String → ℤ → Option Cmd
parse_at env first buf_cmd (negsuc n) = exec_result (parse_exec env buf_cmd)
parse_at env first buf_cmd (pos zero) =
    let back = parse_back env buf_cmd in if first then none else back
parse_at env first buf_cmd (pos (suc i)) =
    if get_or buf_cmd i 0 == b'>'
    then exec_result (parse_exec env buf_cmd)
    else parse_back env buf_cmd

unfoldable pub parse_cmd : Process → Bool → String → Option Cmd
parse_cmd env first buf_cmd =
    if length buf_cmd == 0
    then some null
    else parse_at env first buf_cmd (block_contains buf_cmd b'&')

unfoldable pub pipe_result : Option Cmd → Option Cmd → Option Cmd
pipe_result none right = none
pipe_result (some l) none = none
pipe_result (some l) (some r) = some (pipe_cmd_create l r)

-- On fuel: each call is for a string with one `|` less.
unfoldable pub parse_line_from : Process → ℕ → Bool → String → Option Cmd
parse_line_from env zero first buf = none
parse_line_from env (suc fuel) first buf =
    let (left, right) = split_line buf b'|' in
    let more = parse_line_from env fuel false right in
    pipe_result (parse_cmd env first left)
      (if has_byte b'|' right then more else parse_cmd env false right)

unfoldable pub parse_line : Process → String → Option Cmd
parse_line env buf = parse_line_from env (length buf + 1) true buf
