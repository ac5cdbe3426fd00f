-- ===== src/Shell/Command.antt =====
-- types.h and createcmd.c. A `struct cmd *` is a value of `Cmd`; the pid, which the parser leaves 0, is
-- left out.
use sistemas_operativos.Prelude.{List, []}
use sistemas_operativos.Shell.Strings.{String}

-- the types that an `execcmd` can have
pub data ExecType : Type 0 where
  exec_type redir_type : ExecType

-- `argv` and `eargv` up to `argc` and `eargc`
pub record ExecCmd : Type 0 where
  pub exec_kind : ExecType
  pub scmd : String
  pub argv : List String
  pub eargv : List String
  pub out_file : String
  pub in_file : String
  pub err_file : String

pub data Cmd : Type 0 where
  null : Cmd
  exec : ExecCmd → Cmd
  back : String → Cmd → Cmd
  pipe : Cmd → Cmd → Cmd

unfoldable pub exec_cmd_create : String → ExecCmd
exec_cmd_create buf_cmd = record {
  exec_kind = exec_type;
  scmd = buf_cmd;
  argv = [];
  eargv = [];
  out_file = [];
  in_file = [];
  err_file = [];
}

unfoldable pub back_cmd_create : ExecCmd → Cmd
back_cmd_create c = back c.scmd (exec c)

unfoldable pub pipe_cmd_create : Cmd → Cmd → Cmd
pipe_cmd_create left null = left
pipe_cmd_create left (exec c) = pipe left (exec c)
pipe_cmd_create left (back s c) = pipe left (back s c)
pipe_cmd_create left (pipe l r) = pipe left (pipe l r)
