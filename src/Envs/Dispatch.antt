-- ===== src/Envs/Dispatch.antt =====
-- `syscall` of kern/syscall.c, which picks a call by its number. The text that is printed is not
-- modelled; what the console has read is the parameter `input`.
use sistemas_operativos.Prelude.{
  ℕ, ◌==◌, if◌then◌else◌, Option, some, ◌>>=◌, ℤ, pos, to_int, bit_or,
}
use sistemas_operativos.Pages.Layout.{pte_p, pte_w, pte_u}
use sistemas_operativos.Sched.State.{Env}
use sistemas_operativos.Sched.Syscall.{invalid, sys_getpriority, sys_setpriority}
use sistemas_operativos.Envs.{System, Step, Exit, returned, yielded}
use sistemas_operativos.Envs.Calls.{
  sys_page_alloc, sys_page_map, sys_page_unmap, sys_exofork, sys_env_set_status, user_mem_assert,
  go_on, sys_env_set_pgfault_upcall, sys_env_destroy,
}
use sistemas_operativos.Envs.Messages.{sys_ipc_try_send, sys_ipc_recv}

-- The environment is destroyed if it may not use the text; else the text is printed.
unfoldable pub sys_cputs : System → ℕ → ℕ → ℕ → Option Exit
sys_cputs s cur text len =
    user_mem_assert s cur text len (bit_or (bit_or pte_p pte_w) pte_u) >>= λ exit.
    some (go_on exit (returned (pos 0)))

unfoldable pub sys_getenvid : System → ℕ → ℤ
sys_getenvid s cur = to_int (s.envs cur).env_id

-- the environments after `sys_setpriority`, with its code
abbrev pub with_priority : System → ℤ × (ℕ → Env) → Exit
with_priority s (code, envs) = returned code (record s { envs = envs })

abbrev pub finish : Step ℤ → Option Exit
finish r = r >>= λ (code, s). some (returned code s)

-- the cases of the switch, with the numbers of inc/syscall.h
unfoldable pub syscall : System → ℕ → ℕ → ℕ → ℕ → ℕ → ℕ → ℕ → ℕ → Option Exit
syscall s cur input number a1 a2 a3 a4 a5 =
    if number == 0
    then sys_cputs s cur a1 a2
    else if number == 1
    then some (returned (pos input) s)
    else if number == 2
    then some (returned (sys_getenvid s cur) s)
    else if number == 3
    then some (returned (sys_getpriority s.envs cur a1) s)
    else if number == 4
    then sys_env_destroy s cur a1
    else if number == 5
    then finish (sys_page_alloc s cur a1 a2 a3)
    else if number == 6
    then finish (sys_page_map s cur a1 a2 a3 a4 a5)
    else if number == 7
    then finish (sys_page_unmap s cur a1 a2)
    else if number == 8
    then finish (sys_exofork s cur)
    else if number == 9
    then finish (sys_env_set_status s cur a1 a2)
    else if number == 10
    then sys_env_set_pgfault_upcall s cur a1 a2
    else if number == 11
    then some (yielded s)
    else if number == 12
    then finish (sys_ipc_try_send s cur a1 a2 a3 a4)
    else if number == 13
    then some (sys_ipc_recv s cur a1)
    else if number == 14
    then some (with_priority s (sys_setpriority s.envs cur a1 (to_int a2)))
    else some (returned invalid s)
