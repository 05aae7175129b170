-- ===== src/Shell/Lines.antt =====
-- myShell/hw1.c: `executeLine`, `shellMode` and `batchMode`.
pub mod Split
pub mod Input
pub mod Session
pub mod Batch
pub mod After
mod Tests
use cos.Base.{
  ℕ, zero, suc, ◌+◌, ◌-◌, Bool, true, false, ◌||◌, Option, none, some, List, [], ◌∷◌, ◌++◌, ◌==◌,
  if◌then◌else◌, Str,
}
use cos.Shell.Commands.{
  Shell, Os, Outcome, running, exited, blocked, fault, bind, execute_command,
  wait_for_all_child_processes, copy_process_output_to_buffer,
}
use cos.Base.{up_to_zero}

-- ';' and '|'
abbrev pub semicolon : ℕ
semicolon = 59

abbrev pub bar : ℕ
bar = 124

-- `pipe_count`
unfoldable pub count_pipes : Str → ℕ
count_pipes [] = 0
count_pipes (c ∷ cs) = if c == bar then suc (count_pipes cs) else count_pipes cs

abbrev pub reset_line_info : Shell → Shell
reset_line_info s = record s { is_first_block = true; is_last_block = false }

-- The flags that `executeLine` sets for a character.
abbrev pub update_flags : (seen pipe_count : ℕ) → Shell → Shell
update_flags seen pipe_count s = record s {
  is_first_block = seen == 0;
  is_last_block = seen == pipe_count;
}

-- Behind the last command.
abbrev pub finish_line : Os → Shell → Outcome
finish_line os s = bind (wait_for_all_child_processes os s) (λ t. running (reset_line_info t))

-- Behind a command that ends in '|'.
abbrev pub pass_output : Os → Shell → Outcome
pass_output os s = bind (wait_for_all_child_processes os s) (copy_process_output_to_buffer os)

-- The loop of `executeLine`; `line` is the text from the last separator to the character.
unfoldable pub line_loop :
    Os → (pipe_count seen_pipe_count : ℕ) → (line : Str) → Str → Shell → Outcome
line_loop os n seen line [] s = bind (execute_command os line s) (finish_line os)
line_loop os n seen line (c ∷ cs) s =
    let s' = update_flags seen n s in
    elim (c == semicolon) [
      | true ↦ bind (execute_command os line s') (λ t. line_loop os n seen [] cs t)
      | false ↦ elim (c == bar) [
        | true ↦
            bind (execute_command os line s')
              (λ t. bind (pass_output os t) (λ u. line_loop os n (seen + 1) [] cs u))
        | false ↦ line_loop os n seen (line ++ c ∷ []) cs s'
      ]
    ]

unfoldable pub execute_line : Os → Str → Shell → Outcome
execute_line os line s =
    if os.pipe s then line_loop os (count_pipes line) 0 [] line s else exited false

-- `shellMode` on the characters that `getchar` returns. A `char` is signed, so the byte 255 is taken
-- for `EOF`; `line` holds `cursor` characters. A zero among them ends the string of `executeLine`.
abbrev pub line_size : ℕ
line_size = 251

unfoldable pub shell_mode : Os → (cursor : ℕ) → (line : Str) → Str → Shell → Outcome
shell_mode os cursor line [] s = running s
shell_mode os cursor line (c ∷ cs) s =
    let cursor' = if cursor == line_size then 0 else cursor in
    let line' = if cursor == line_size then [] else line in
    elim (c == 255) [
      | true ↦ running s
      | false ↦ elim (c == 10) [
        | true ↦ bind (execute_line os (up_to_zero line') s) (λ t. shell_mode os 0 [] cs t)
        | false ↦ shell_mode os (cursor' + 1) (line' ++ c ∷ []) cs s
      ]
    ]

-- `fgets` of at most `k` characters: the line, and the rest of the file.
unfoldable pub fgets : ℕ → Str → Str × Str
fgets zero cs = ([], cs)
fgets (suc k) [] = ([], [])
fgets (suc k) (c ∷ cs) =
    let rest = fgets k cs in if c == 10 then (c ∷ [], cs) else (c ∷ rest.0, rest.1)

-- The loop of `batchMode`, on fuel; `none` is that it is not enough.
unfoldable pub batch_loop : ℕ → Os → Str → Shell → Option Outcome
batch_loop zero os file s = none
batch_loop (suc k) os [] s = some (running s)
batch_loop (suc k) os (c ∷ cs) s =
    let (line, rest) = fgets (line_size - 1) (c ∷ cs) in
    elim (execute_line os (up_to_zero line) s) [
      | running t ↦ batch_loop k os rest t
      | exited b ↦ some (exited b)
      | blocked ↦ some blocked
      | fault ↦ some fault
    ]
