-- ===== src/Shell/Commands.antt =====
-- myShell/hw1.c: the state of the shell, its child processes and `executeCommand`, as the parent
-- process runs them. The history is the list of the data that the queue of myShell/queue.c holds, to
-- which `enqueue` appends.
pub mod Children
use cos.Base.{
  up_to_zero, ℕ, suc, ◌+◌, Bool, true, false, not, Option, none, some, List, [], ◌∷◌, ◌++◌, ltb,
  leb, if◌then◌else◌, length, get_elem?, Str, codes, str_eq,
}
use cos.Shell.Words.{trim, parse_command, command_after}
use cos.Base.{◌==◌}

-- What a child process does: print the rows of the history, or become the program of the arguments,
-- which may fail.
pub data Program : Type 0 where
  print_history : List (ℕ × Str) → Program
  exec : List Str → Program

-- `input` is what the pipe at its standard input holds, or `none` where the input is the shell's;
-- `to_pipe` says that its standard output is the pipe to the shell.
pub record Child : Type 0 where
  pub program : Program
  pub input : Option Str
  pub to_pipe : Bool

-- The globals of the program; the last three are histories: the children that were forked, their
-- process ids, and the ids that `waitpid` has returned for, in order.
pub record Shell : Type 0 where
  pub is_first_block : Bool
  pub is_last_block : Bool
  pub child_pids : List ℕ
  pub current_working_directory : Str
  pub history : List Str
  pub output_buffer : Str
  pub started : List Child
  pub forked_pids : List ℕ
  pub waited_pids : List ℕ

-- The system calls. `pipe`: whether it succeeds; `fork`: the process id, or `none`; `waitpid`: whether
-- it ends by returning the process, interrupted calls aside; `chdir`, with the `getcwd` behind it: the
-- new directory, or `none`; `read`: the bytes that are in the pipe, or `none`.
pub record Os : Type 0 where
  pub pipe : Shell → Bool
  pub fork : Shell → Option ℕ
  pub waitpid : ℕ → Bool
  pub chdir : Str → Option Str → Option Str
  pub read : Shell → Option Str

-- A fault is a write out of bounds; `blocked` is a `read` that never returns.
pub data Outcome : Type 0 where
  running : Shell → Outcome
  exited : (success : Bool) → Outcome
  blocked : Outcome
  fault : Outcome

abbrev pub bind : Outcome → (Shell → Outcome) → Outcome
bind (running s) f = f s
bind (exited b) f = exited b
bind blocked f = blocked
bind fault f = fault

-- `executeHistory`, from the number `index` on.
unfoldable pub execute_history : (index : ℕ) → List Str → List (ℕ × Str)
execute_history index [] = []
execute_history index (c ∷ cs) = (index + 1, c) ∷ execute_history (index + 1) cs

abbrev pub max_process_count : ℕ
max_process_count = 128

abbrev pub buffer_size : ℕ
buffer_size = 1048576

-- `createChildProcess`, as the parent sees it.
unfoldable pub create_child_process : Os → Child → Shell → Outcome
create_child_process os child s =
    if leb max_process_count (length s.child_pids) then exited false else elim (os.fork s) [
      | none ↦ exited false
      | some pid ↦ running (record s {
        child_pids = s.child_pids ++ pid ∷ [];
        started = s.started ++ child ∷ [];
        forked_pids = s.forked_pids ++ pid ∷ [];
      })
    ]

unfoldable pub wait_loop : Os → List ℕ → Shell → Outcome
wait_loop os [] s = running (record s { child_pids = [] })
wait_loop os (pid ∷ pids) s =
    let rest = wait_loop os pids (record s { waited_pids = s.waited_pids ++ pid ∷ [] }) in
    if os.waitpid pid then rest else exited false

unfoldable pub wait_for_all_child_processes : Os → Shell → Outcome
unfolding wait_loop
wait_for_all_child_processes os s = wait_loop os s.child_pids s

-- `copyProcessOutputToBuffer`. The shell holds the other end of the pipe open itself, so it waits for
-- ever where the pipe holds nothing.
unfoldable pub copy_process_output_to_buffer : Os → Shell → Outcome
copy_process_output_to_buffer os s = elim (os.read s) [
  | none ↦ exited false
  | some [] ↦ blocked
  | some (b ∷ bs) ↦
      let bytes = b ∷ bs in
      if ltb (length bytes) buffer_size then running (record s { output_buffer = bytes }) else fault
]

-- What the child of `executeCommand` does. It writes the output buffer to its own pipe before it
-- reads it.
abbrev pub child_of : List Str → Shell → Child
child_of args s = record {
  program = elim (get_elem? args 0) [
    | none ↦ exec args
    | some name ↦
        if str_eq name (codes "history")
        then print_history (execute_history 0 s.history)
        else exec args
  ];
  input = if s.is_first_block then none else some (up_to_zero s.output_buffer);
  to_pipe = not s.is_last_block;
}

-- `executeCommand` behind the parse: `cd`, `quit`, or a child process.
unfoldable pub execute_args : Os → (command : Str) → (args : List Str) → Shell → Outcome
execute_args os command args s =
    if str_eq command (codes "cd")
    then elim (os.chdir s.current_working_directory (get_elem? args 1)) [
      | none ↦ exited false
      | some directory ↦ running (record s { current_working_directory = directory })
    ]
    else if str_eq command (codes "quit")
    then bind (wait_for_all_child_processes os s) (λ t. exited true)
    else create_child_process os (child_of args s) s

-- `executeCommand` of a trimmed command.
unfoldable pub execute_trimmed : Os → Str → Shell → Outcome
execute_trimmed os [] s = running s
execute_trimmed os (c ∷ cs) s = elim (parse_command (c ∷ cs)) [
  | none ↦ fault
  | some args ↦
      execute_args os (command_after (c ∷ cs)) args
        (record s { history = s.history ++ (c ∷ cs) ∷ [] })
]

unfoldable pub execute_command : Os → Str → Shell → Outcome
execute_command os command s = execute_trimmed os (trim command) s
