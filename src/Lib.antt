-- ===== src/Lib.antt =====
-- Course projects on operating systems: a file system in memory behind FUSE (TP File System), a small
-- kernel (TP Sched) and a shell (TP Shell). They are separate programs. FileSystem is the first, Shell
-- the last, and Sched, Pages, Envs and Strings are parts of the kernel.
--
-- Prelude holds what they share: Boolean tests on native numbers with their lemmas, lists with native
-- lengths, the C `int` as `pos` and `negsuc`, fixed arrays as functions with a count of their used
-- cells, and what `bit_or` and `bit_and` do to the upper and the lower bits.
--
-- FileSystem models TP File System/src. A `filesystem_t` is the record Filesystem (State): the table
-- of inodes, the maps of used inodes and blocks, the superblock, and one region of bytes for the data
-- blocks. Intmap, Inode and Directory are intmap.c, inode.c and directory.c; a directory is read and
-- written through its byte layout, 1024 entries of 36 bytes with the count behind them, as the C
-- pointer into `data_block` does. Paths, Create, ReadWrite, Remove and Attributes are filesystem.c:
-- path resolution, the operations that make entries, reading and writing, deletion, and status and
-- permissions. Each returns its code and the new file system. Table has the accesses by inode number;
-- `none` is an access outside the table, which C leaves undefined. What getuid, getgid and time answer
-- is the parameter Host. Loops over fixed ranges recurse on what is left of the range. The loop of
-- `fs_write_file` has fuel for 13 rounds: each round but the last fills a block to its end, a file has
-- 12 slots, and one round ends the loop. Invariant has the balance of counters, maps and pointers that
-- the operations keep.
--
-- FileSystem.Fuse models TP File System/fisopfs.c: each callback with its `private_data`, which may be
-- NULL, and in Persistence the name, the reading and the writing of the file on the host's disk. Which of
-- the library's calls fail is a parameter there.
--
-- Sched models TP Sched/kern/sched.c for one CPU, with `env_run` and `envid2env` of kern/env.c and the
-- calls on priorities of kern/syscall.c. A call of `sched_yield`, which does not return, ends with
-- what the CPU does next: it runs an environment, waits or enters the monitor. Both compilations are
-- modelled: Yield has `sched_yield_round_robin` and `sched_yield_priorities`.
--
-- Pages models TP Sched/kern/pmap.c with kern/pmap.h, inc/mmu.h and inc/types.h (Layout). A page is its
-- index, and the record PhysicalMemory has the references, the links and the 1024 words of each page;
-- `none` is a panic. Allocator is the list of free pages, Tables the walk, insertion, lookup and removal
-- of mappings, and Access `user_mem_check`. Loops over pages recurse on the number of pages left.
--
-- Envs models the rest of kern/env.c and kern/syscall.c over both: the record System has the
-- environments of Sched and the memory of Pages. Alloc and Free are the table of environments, Calls and
-- Messages the system calls, Dispatch `syscall`, Load the start of a program from its image, and Fork
-- lib/fork.c and lib/pgfault.c, which an environment runs itself. A call that may not return ends in an
-- Exit. `none` is a panic or a null pointer that is followed.
--
-- Strings models lib/string.c and `printnum` of lib/printfmt.c. `printnum` has fuel for 64 digits, which
-- a number below 2^64 does not exceed in any base from 2 on; `none` is the fuel that ran out.
--
-- Shell models TP Shell/parsing.c with utils.c and createcmd.c. A string is the list of its bytes.
-- getenv and the last status are the parameter Process. `none` is an access outside an array.
-- `parse_tokens` has as much fuel as there are bytes, since each round takes a byte or more, and
-- `parse_line` one more than that, since each call takes a `|`. Execution models exec.c, runcmd.c,
-- builtin.c and freecmd.c: a process is the trace of its system calls and children up to its end, and
-- what the system answers is the parameter Os. What fails without changing what follows, such as
-- `setenv` or `dup2`, is left out.
--
-- Not modelled: the start of the kernel, its devices and traps, and which translations the processor
-- keeps, which are the machine's; memset and memmove, which are assembly; what the shell reads and
-- prints, and TP Fork, which are calls of the operating system; null pointers, where no caller passes one.
pub mod Prelude
pub mod Envs
pub mod FileSystem
pub mod Pages
pub mod Sched
pub mod Shell
pub mod Strings
