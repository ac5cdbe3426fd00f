-- ===== src/Shell/Parsing/Words.antt =====
-- A command of plain words: what `parse_exec` makes of words with spaces between them.
use sistemas_operativos.Prelude.{
  ℕ, zero, suc, ◌+◌, ◌<◌, ◌≤◌, ◌≡◌, refl, sym, ap, ◌∙◌, ◌≢◌, arith, ltb, ◌==◌, ≢→==, true, false,
  some, List, [], ◌∷◌, ◌++◌, length, length-append, neg,
}
use mathlib.Core.List.{append-nil, append_assoc}
use sistemas_operativos.Shell.Strings.{String, until, behind, contains_from, block_contains}
use sistemas_operativos.Shell.Command.{ExecCmd, exec_cmd_create}
use sistemas_operativos.Shell.Parsing.{
  Process, maxargs, next_token, parse_redir_in, parse_redir_out, parse_redir_flow, is_environ_var,
  expand_environ_var, push_argv, parse_word, parse_token, parse_tokens, end_argv, parse_exec,
}

-- No byte of the string is `c`.
abbrev pub Without : ℕ → String → Type 0
Without c [] = Unit {0}
Without c (x ∷ s) = (x ≢ c) × Without c s

pub until-Without : (c : ℕ) (s : String) → Without c s → until c s ≡ s
unfolding until
until-Without c [] w = refl
until-Without c (x ∷ s) (ne, w) = rw (≢→== x c ne, until-Without c s w) refl

pub behind-Without : (c : ℕ) (s : String) → Without c s → behind c s ≡ []
unfolding behind
behind-Without c [] w = refl
behind-Without c (x ∷ s) (ne, w) = rw (≢→== x c ne) (behind-Without c s w)

pub until-append : (c : ℕ) (s t : String) → Without c s → until c (s ++ c ∷ t) ≡ s
unfolding until
until-append c [] t w = ground arith
until-append c (x ∷ s) t (ne, w) = rw (≢→== x c ne, until-append c s t w) refl

pub behind-append : (c : ℕ) (s t : String) → Without c s → behind c (s ++ c ∷ t) ≡ t
unfolding behind
behind-append c [] t w = ground arith
behind-append c (x ∷ s) t (ne, w) = rw (≢→== x c ne) (behind-append c s t w)

pub contains-Without : (i c : ℕ) (s : String) → Without c s → contains_from i c s ≡ neg 1
unfolding contains_from
contains-Without i c [] w = refl
contains-Without i c (x ∷ s) (ne, w) = rw (≢→== x c ne) (contains-Without (i + 1) c s w)

-- A word that the parser leaves as it is: not empty, and without a byte that it gives a meaning to.
pub record Plain (w : String) : Type 0 where
  pub nonempty : 0 < length w
  pub no_space : Without b' ' w
  pub no_dollar : Without b'$' w
  pub no_in : Without b'<' w
  pub no_out : Without b'>' w
  pub no_equals : Without b'=' w

abbrev pub AllPlain : List String → Type 0
AllPlain [] = Unit {0}
AllPlain (w ∷ ws) = Plain w × AllPlain ws

-- the words with a space between each two
unfoldable pub join : List String → String
join [] = []
join (w ∷ []) = w
join (w ∷ v ∷ ws) = w ++ b' ' ∷ join (v ∷ ws)

room_lem : (n : ℕ) → n < maxargs → ltb n maxargs ≡ true
room_lem n h = ground arith

not_nil : (n : ℕ) → 0 < n → (n == 0) ≡ false
not_nil n h = ground arith

module _ (env : Process) where
  expand-plain : (w : String) → Without b'$' w → expand_environ_var env w ≡ w
  unfolding expand_environ_var
  expand-plain [] h = refl
  expand-plain (x ∷ s) (ne, h) = rw (≢→== x b'$' ne) refl

  parse_token-Plain :
      (c : ExecCmd) (w : String)
      → Plain w
      → length c.argv < maxargs
      → parse_token env c w (parse_redir_flow c w) ≡ some (record c { argv = c.argv ++ w ∷ [] })
  unfolding parse_token parse_redir_flow parse_redir_out parse_redir_in parse_word is_environ_var
      block_contains push_argv
  parse_token-Plain c w p room =
      rw
        (
          contains-Without 0 b'>' w p.no_out,
          contains-Without 0 b'<' w p.no_in,
          contains-Without 0 b'=' w p.no_equals,
          expand-plain w p.no_dollar,
        )
        (rw (room_lem (length c.argv) room, not_nil (length w) p.nonempty) refl)

  parse_done : (fuel : ℕ) (c : ExecCmd) → parse_tokens env fuel c [] ≡ some c
  unfolding parse_tokens
  parse_done zero c = refl
  parse_done (suc fuel) c = refl

  parse_step :
      (fuel : ℕ) (c : ExecCmd) (w rest buf : String)
      → 0 < length buf
      → until b' ' buf ≡ w
      → behind b' ' buf ≡ rest
      → Plain w
      → length c.argv < maxargs
      → parse_tokens env (suc fuel) c buf
        ≡ parse_tokens env fuel (record c { argv = c.argv ++ w ∷ [] }) rest
  unfolding parse_tokens next_token
  parse_step fuel c w rest [] h hu hb p room = absurd (omega arith)
  parse_step fuel c w rest (x ∷ s) h hu hb p room =
      rw (parse_tokens, next_token, hu, parse_token-Plain c w p room, hb) refl

  parse_joined :
      (fuel : ℕ) (c : ExecCmd) (ws : List String)
      → AllPlain ws
      → length (join ws) ≤ fuel
      → length c.argv + length ws ≤ maxargs
      → parse_tokens env fuel c (join ws) ≡ some (record c { argv = c.argv ++ ws })
  unfolding join
  parse_joined fuel c [] ps h room =
      parse_done fuel c ∙ ap (λ a. some (record c { argv = a })) (sym (append-nil c.argv))
  parse_joined zero c (w ∷ []) (p, ps) h room = absurd (omega (arith, p.nonempty))
  parse_joined (suc fuel) c (w ∷ []) (p, ps) h room =
      parse_step fuel c w [] w p.nonempty (until-Without b' ' w p.no_space)
        (behind-Without b' ' w p.no_space) p (omega arith)
      ∙ parse_done fuel _
  parse_joined zero c (w ∷ v ∷ ws) (p, ps) h room =
      absurd (omega (arith, p.nonempty, length-append w (b' ' ∷ join (v ∷ ws))))
  parse_joined (suc fuel) c (w ∷ v ∷ ws) (p, ps) h room =
      parse_step fuel c w (join (v ∷ ws)) (w ++ b' ' ∷ join (v ∷ ws))
        (omega (arith, length-append w (b' ' ∷ join (v ∷ ws)))) (until-append b' ' w _ p.no_space)
        (behind-append b' ' w _ p.no_space) p (omega arith)
      ∙ parse_joined fuel _ (v ∷ ws) ps
          (omega (arith, p.nonempty, h, length-append w (b' ' ∷ join (v ∷ ws))))
          (omega (arith, room, length-append c.argv (w ∷ [])))
      ∙ ap (λ a. some (record c { argv = a })) (append_assoc c.argv (w ∷ []) (v ∷ ws))

  -- Parsing up to 19 plain words with spaces between them gives these words as the arguments, with
  -- neither a redirection nor an environment variable.
  pub parse_exec-join :
      (ws : List String)
      → AllPlain ws
      → length ws < maxargs
      → parse_exec env (join ws) ≡ some (record (exec_cmd_create (join ws)) { argv = ws })
  unfolding parse_exec end_argv exec_cmd_create
  parse_exec-join ws ps h =
      rw
        (parse_joined (length (join ws)) (exec_cmd_create (join ws)) ws ps (omega arith)
          (omega arith))
        (rw (room_lem (length ws) h) refl)
