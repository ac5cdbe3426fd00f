-- ===== src/Envs/Alloc/Fresh.antt =====
-- What `env_alloc` of kern/env.c leaves.
use sistemas_operativos.Prelude.{
  ℕ, ◌^◌, ◌≤◌, ◌<◌, ◌≡◌, ◌≢◌, refl, sym, ap, subst, ◌∙◌, arith, true, false, Option, none, some,
  ◌>>=◌, List, [], update, update_self, update_ne, ℤ, pos, bit_or,
}
use mathlib.Core.List.{Memᴰ}
use sistemas_operativos.Pages.{Kernel}
use sistemas_operativos.Pages.Layout.{uvpt, pdx, pgnum}
use sistemas_operativos.Pages.Allocator.{incref}
use sistemas_operativos.Pages.Allocator.Pool.{
  Pool, Pool-ref, Pool-words, Allocated, exhausted, taken, page_alloc-Allocated,
}
use sistemas_operativos.Pages.Tables.{no_mem, set_word, page2pa}
use sistemas_operativos.Pages.Tables.Walk.{pa2page-inside, small_page}
use sistemas_operativos.Sched.State.{nenv, env_runnable, Env}
use sistemas_operativos.Envs.{System, Step}
use sistemas_operativos.Envs.Alloc.{
  no_free_env, generation, new_env, new_directory_page, setup_with, env_setup_vm, alloc_with,
  alloc_head, env_alloc,
}
use sistemas_operativos.Envs.Alloc.Ids.{IsId, generation-IsId}

-- The environment `e` of the system `s'` is new: its id is one of its index and not the last one there,
-- it can run, it does not wait for a message, and its directory is that of the kernel but for the entry
-- that maps the directory itself.
pub record NewEnv (s s' : System) (e parent : ℕ) : Type 0 where
  pub identified : IsId e (s'.envs e).env_id
  pub renewed : (s'.envs e).env_id ≢ (s.envs e).env_id
  pub child : (s'.envs e).env_parent_id ≡ parent
  pub ready : (s'.envs e).env_status ≡ env_runnable
  pub silent : (s'.envs e).env_ipc_recving ≡ false
  pub directory : ℕ
  pub directed : (s'.envs e).env_pgdir ≡ some directory
  pub copied : (i : ℕ) → i ≢ pdx uvpt → s'.memory.words directory i ≡ s.memory.words s.kern_pgdir i

-- What `env_alloc` leaves of a system whose free pages are the list `ps`: an error and the system as it
-- was, if there is no free environment or no free page; or the first free environment, which is new, off
-- the list, with the others as they were and a list of free pages.
pub data AllocatedEnv (s : System) (ps : List ℕ) (parent : ℕ) : Step ℤ → Type 0 where
  no_environment : s.env_free_list ≡ none → AllocatedEnv s ps parent (some (no_free_env, s))
  no_memory : ps ≡ [] → AllocatedEnv s ps parent (some (no_mem, s))
  made :
      {s' : System} {qs : List ℕ} (e : ℕ)
      → s.env_free_list ≡ some e
      → s'.env_free_list ≡ (s.envs e).env_link
      → NewEnv s s' e parent
      → ((j : ℕ) → j ≢ e → s'.envs j ≡ s.envs j)
      → Pool s'.memory qs
      → AllocatedEnv s ps parent (some (pos e, s'))

-- the words of a new directory
copied_word :
    (words : ℕ → ℕ → ℕ) (w : ℕ → ℕ) (p k v i : ℕ)
    → i ≢ k
    → update (update words p w) p (update (update words p w p) k v) p i ≡ w i
copied_word words w p k v i ne =
    ap (λ f. f i) (update_self (update words p w) p (update (update words p w p) k v))
    ∙ update_ne (update words p w p) k v i ne
    ∙ ap (λ f. f i) (update_self words p w)

below : (p n : ℕ) → p < n → n ≤ 2 ^ 20 → p < 2 ^ 20
below p n b h = omega arith

page_number : (p : ℕ) → p < 2 ^ 20 → pgnum (page2pa p) ≡ p
unfolding pgnum
page_number p h = small_page p h

abbrev housed : ℕ → Env → Env
housed p env = record env { env_pgdir = some p }

-- the table after both changes of the environment
module _ (envs : ℕ → Env) (e p parent : ℕ) where
  abbrev moved : ℕ → Env
  moved = update envs e (housed p (envs e))

  moved_self : update moved e (new_env e parent (moved e)) e ≡ new_env e parent (housed p (envs e))
  moved_self =
      update_self moved e (new_env e parent (moved e))
      ∙ ap (new_env e parent) (update_self envs e (housed p (envs e)))

  moved_other : (j : ℕ) → j ≢ e → update moved e (new_env e parent (moved e)) j ≡ envs j
  moved_other j ne =
      update_ne moved e (new_env e parent (moved e)) j ne
      ∙ update_ne envs e (housed p (envs e)) j ne

module _ (s : System) (parent e : ℕ) (bound : s.memory.npages ≤ 2 ^ 20) (fits : e < nenv)
    (narrow : (s.envs e).env_id < 2 ^ 31) (head : s.env_free_list ≡ some e) where
  alloc_setup :
      (ps : List ℕ) (r : Kernel (Option ℕ))
      → ¬ Memᴰ s.kern_pgdir ps
      → Allocated s.memory true ps r
      → AllocatedEnv s ps parent
          ((r >>= λ a. setup_with s e a) >>= λ t. some (alloc_with e parent t))
  unfolding setup_with alloc_with new_directory_page set_word incref
  alloc_setup _ _ d exhausted = no_memory refl
  alloc_setup _ _ d (taken {p} {ps = qs} {m'} pool b f n ref words) =
      rw (pa2page-inside m' (page2pa p) p number inside) (
        made e head (ap (λ (x : Env). x.env_link) (update_self s.envs e (housed p (s.envs e))))
          (record {
            identified = subst (λ (x : Env). IsId e x.env_id) (sym self) id.0;
            renewed = subst (λ (x : Env). x.env_id ≢ (s.envs e).env_id) (sym self) id.1;
            child = ap (λ (x : Env). x.env_parent_id) self;
            ready = ap (λ (x : Env). x.env_status) self;
            silent = ap (λ (x : Env). x.env_ipc_recving) self;
            directory = p;
            directed = ap (λ (x : Env). x.env_pgdir) self;
            copied =
                λ i ne. copied_word m'.words (m'.words s.kern_pgdir) p (pdx uvpt) _ i ne ∙ same i;
          })
          (moved_other s.envs e p parent)
          (Pool-words _ qs _ (Pool-ref _ qs (Pool-words m' qs copy pool) p inside f _)))
    where
      copy : ℕ → ℕ → ℕ
      copy = update m'.words p (m'.words s.kern_pgdir)

      number : pgnum (page2pa p) ≡ p
      number = page_number p (below p s.memory.npages b bound)

      inside : p < m'.npages
      inside = subst (λ k. p < k) (sym n) b

      self :
          update (moved s.envs e p parent) e (new_env e parent (moved s.envs e p parent e)) e
          ≡ new_env e parent (housed p (s.envs e))
      self = moved_self s.envs e p parent

      id :
          IsId e (bit_or (generation (s.envs e).env_id) e)
          × (bit_or (generation (s.envs e).env_id) e ≢ (s.envs e).env_id)
      id = generation-IsId e (s.envs e).env_id fits narrow

      same : (i : ℕ) → m'.words s.kern_pgdir i ≡ s.memory.words s.kern_pgdir i
      same i =
          ap (λ w. w s.kern_pgdir i) words
          ∙ ap (λ f. f i) (update_ne s.memory.words p (λ i. 0) s.kern_pgdir (λ z. d (Memᴰ.head z)))

-- The first free environment, if there is one, is one of the table with an id that is not negative.
abbrev pub HeadInTable : System → Type 0
HeadInTable s = (e : ℕ) → s.env_free_list ≡ some e → (e < nenv) × ((s.envs e).env_id < 2 ^ 31)

module _ (s : System) (parent : ℕ) (ps : List ℕ) (bound : s.memory.npages ≤ 2 ^ 20)
    (pool : Pool s.memory ps) (kernel : ¬ Memᴰ s.kern_pgdir ps) where
  alloc_head-AllocatedEnv :
      (h : Option ℕ)
      → s.env_free_list ≡ h
      → ((e : ℕ) → h ≡ some e → (e < nenv) × ((s.envs e).env_id < 2 ^ 31))
      → AllocatedEnv s ps parent (alloc_head s parent h)
  unfolding alloc_head env_setup_vm
  alloc_head-AllocatedEnv none head table = no_environment head
  alloc_head-AllocatedEnv (some e) head table =
      alloc_setup s parent e bound (table e refl).0 (table e refl).1 head ps _ kernel
        (page_alloc-Allocated s.memory true ps pool)

  -- On a system of at most 2^20 pages whose free pages are the list `ps`, the kernel's directory not among
  -- them, and whose first free environment, if there is one, is one of the table with an id that is not
  -- negative: `env_alloc` fails and changes nothing if no environment or no page is free; or else it takes
  -- that environment off the list, with an id of its index that is not the last one there, ready to run
  -- and not waiting for a message, and a directory with the kernel's entries but for the one that maps
  -- itself. The other environments are as they were.
  pub env_alloc-AllocatedEnv : HeadInTable s → AllocatedEnv s ps parent (env_alloc s parent)
  unfolding env_alloc
  env_alloc-AllocatedEnv table = alloc_head-AllocatedEnv s.env_free_list refl table
