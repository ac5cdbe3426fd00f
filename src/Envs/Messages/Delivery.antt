-- ===== src/Envs/Messages/Delivery.antt =====
-- What a call of `sys_ipc_try_send` of kern/syscall.c does to the environments.
use sistemas_operativos.Prelude.{
  ℕ, ◌<◌, ◌≡◌, ◌≢◌, leb, ◌==◌, if◌then◌else◌, true, false, none, some, ℤ, pos, is_neg, bit_or,
}
use sistemas_operativos.Pages.Layout.{utop, pte_p, pte_u}
use sistemas_operativos.Sched.State.{env_runnable, Env}
use sistemas_operativos.Sched.Syscall.{envid2env}
use sistemas_operativos.Envs.{System, Step}

-- The environment `after` has received `value` from the id `from`: it waits no longer, and can run with 0
-- in eax.
pub record Received (after : Env) (from value perm : ℕ) : Type 0 where
  pub sender : after.env_ipc_from ≡ from
  pub message : after.env_ipc_value ≡ value
  pub permissions : after.env_ipc_perm ≡ perm
  pub silent : after.env_ipc_recving ≡ false
  pub ready : after.env_status ≡ env_runnable
  pub answer : after.env_tf.reg_eax ≡ 0

-- The permissions that the receiver is left with: 0 without a page, those it had if it asks for none, and
-- else those of the page.
unfoldable pub message_perm : Env → ℕ → ℕ → ℕ
message_perm dst srcva perm =
    if leb utop srcva
    then 0
    else if dst.env_ipc_dstva == 0
    then dst.env_ipc_perm
    else bit_or perm (bit_or pte_u pte_p)

-- What a call leaves: an error and the environments as they were; or the message at an environment that
-- waited for one, and the others as they were. Only a call that sends a page may have no result.
pub data Sent (s : System) (cur envid value srcva perm : ℕ) : Step ℤ → Type 0 where
  undefined : srcva < utop → Sent s cur envid value srcva perm none
  refused :
      {code : ℤ} {s' : System}
      → is_neg code ≡ true
      → s'.envs ≡ s.envs
      → Sent s cur envid value srcva perm (some (code, s'))
  sent :
      {s' : System} (dst : ℕ)
      → envid2env s.envs cur envid false ≡ some dst
      → (s.envs dst).env_ipc_recving ≡ true
      → Received (s'.envs dst) (s.envs cur).env_id value (message_perm (s.envs dst) srcva perm)
      → ((j : ℕ) → j ≢ dst → s'.envs j ≡ s.envs j)
      → Sent s cur envid value srcva perm (some (pos 0, s'))

abbrev permit : ℕ → Env → Env
permit p env = record env { env_ipc_perm = p }

module _ (s : System) (cur envid dst value srcva perm : ℕ)
    (found : envid2env s.envs cur envid false ≡ some dst)
    (waits : (s.envs dst).env_ipc_recving ≡ true) where
  abbrev Result : Step ℤ → Type 0
  Result = Sent s cur envid value srcva perm
