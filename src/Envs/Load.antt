-- ===== src/Envs/Load.antt =====
-- `load_icode` and `env_create` of kern/env.c: an environment from the image of a program.
use sistemas_operativos.Prelude.{
  ℕ, zero, suc, ◌+◌, ◌-◌, ◌*◌, ◌/◌, ◌%◌, ◌^◌, ◌==◌, if◌then◌else◌, Option, none, some, ◌>>=◌, List,
  [], ◌∷◌, ℤ, pos, negsuc,
}
use sistemas_operativos.Pages.{PhysicalMemory}
use sistemas_operativos.Pages.Layout.{pgsize}
use sistemas_operativos.Pages.Tables.{set_word, page_lookup}
use sistemas_operativos.Sched.State.{max_priority}
use sistemas_operativos.Envs.{System, Step, change_env, with_memory}
use sistemas_operativos.Envs.Alloc.{env_alloc, region_alloc}

pub record Proghdr : Type 0 where
  pub p_type : ℕ
  pub p_offset : ℕ
  pub p_va : ℕ
  pub p_filesz : ℕ
  pub p_memsz : ℕ

-- The image: its header, the `e_phnum` program headers at `e_phoff`, and its bytes.
pub record Elf : Type 0 where
  pub e_magic : ℕ
  pub e_entry : ℕ
  pub headers : List Proghdr
  pub binary : ℕ → ℕ

abbrev pub elf_magic : ℕ
elf_magic = 0x464c457f

-- the word with its byte `k` set to `b`
abbrev set_byte : ℕ → ℕ → ℕ → ℕ
set_byte w k b = w - w / 256 ^ k % 256 * 256 ^ k + b % 256 * 256 ^ k

-- A byte stored at a virtual address of the directory. An address that is not mapped is a fault in the
-- kernel, which panics.
unfoldable pub store_byte : PhysicalMemory → ℕ → ℕ → ℕ → Option PhysicalMemory
store_byte m pgdir va b = page_lookup m pgdir va >>= λ (found, m1). found >>= λ (page, entry).
    let i = va % pgsize / 4 in some (set_word m1 page i (set_byte (m1.words page i) (va % 4) b))

-- `memset` and `memcpy` of `n` bytes to `va`: `from` gives the bytes by their distance
unfoldable pub store_bytes : ℕ → PhysicalMemory → ℕ → ℕ → (ℕ → ℕ) → Option PhysicalMemory
store_bytes zero m pgdir va from = some m
store_bytes (suc n) m pgdir va from = store_byte m pgdir (va % 2 ^ 32) (from 0) >>= λ m1.
    store_bytes n m1 pgdir (va + 1) (λ i. from (i + 1))

-- one round of the loop over the headers; ELF_PROG_LOAD is 1
unfoldable pub load_segment : PhysicalMemory → ℕ → (ℕ → ℕ) → Proghdr → Option PhysicalMemory
load_segment m pgdir binary ph =
    let loaded = region_alloc m pgdir ph.p_va ph.p_memsz >>= λ m1.
    store_bytes ph.p_memsz m1 pgdir ph.p_va (λ i. 0) >>= λ m2.
    store_bytes ph.p_filesz m2 pgdir ph.p_va (λ i. binary (ph.p_offset + i)) in
    if ph.p_type == 1 then loaded else some m

unfoldable pub load_segments : PhysicalMemory → ℕ → (ℕ → ℕ) → List Proghdr → Option PhysicalMemory
load_segments m pgdir binary [] = some m
load_segments m pgdir binary (ph ∷ headers) =
    load_segment m pgdir binary ph >>= λ m1. load_segments m1 pgdir binary headers

-- The segments, then a page for the stack below USTACKTOP, then the entry point.
unfoldable pub load_icode : System → ℕ → Elf → Option System
load_icode s e elf =
    let loaded = (s.envs e).env_pgdir >>= λ pgdir.
    load_segments s.memory pgdir elf.binary elf.headers >>= λ m1.
    region_alloc m1 pgdir 0xeebfd000 pgsize >>= λ m2. some (
      change_env (with_memory s m2) e
        (λ env. record env { env_tf = record (env.env_tf) { tf_eip = elf.e_entry } })) in
    if elf.e_magic == elf_magic then loaded else none

-- `env_create` for what `env_alloc` gives
unfoldable pub create_with : Elf → ℕ → ℤ × System → Step ℕ
create_with elf kind (negsuc n, s) = none
create_with elf kind (pos e, s) = load_icode s e elf >>= λ s1.
    some (e, change_env s1 e (λ env. record env { env_type = kind; priority = max_priority }))

-- The index is that of `env_last_created`.
unfoldable pub env_create : System → Elf → ℕ → Step ℕ
env_create s elf kind = env_alloc s 0 >>= λ r. create_with elf kind r
