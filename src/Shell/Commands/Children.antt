-- ===== src/Shell/Commands/Children.antt =====
-- What `executeCommand` of myShell/hw1.c does with a command, on every branch.
use mathlib.Core.Path.{subst}
use cos.Base.{
  ℕ, ◌≤◌, ◌<◌, ◌≡◌, refl, ap, ◌∙◌, inl, inr, true, false, Option, none, some, Option-cases, List,
  [], ◌∷◌, ◌++◌, arith, leb, Bool-cases, if◌then◌else◌, length, get_elem?, Str, codes, str_eq,
  eq-str_eq, str_eq_refl, All, ◌≢◌, ◌⊎◌, sym, ltb, leb→le, not_ltb→le, ltb→lt, append_assoc,
  append-nil,
}
use cos.Shell.Words.{trim, parse_command, command_after, is_blank, token, max_args_count}
use cos.Shell.Words.Parse.{Spaced, blank, last, next, parse_command-Spaced}
use cos.Shell.Words.Trim.{trim-Trimmed}
use cos.Shell.Commands.{
  Shell, Os, Outcome, running, exited, fault, bind, max_process_count, create_child_process,
  child_of, execute_args, execute_trimmed, execute_command, wait_loop, wait_for_all_child_processes,
}
use cos.Base.{◌≢◌}
use cos.Shell.Words.{token}
use cos.Shell.Words.{is_blank}

-- The shell with a command in its history.
abbrev pub remember : Str → Shell → Shell
remember command s = record s { history = s.history ++ command ∷ [] }

-- What comes of a trimmed command whose words are `args`.
pub data Executed (os : Os) (s : Shell) (command : Str) : Outcome → Type 0 where
  nothing : command ≡ [] → Executed os s command (running s)
  overflow :
      (args : List Str)
      → Spaced command args
      → max_args_count ≤ length args
      → Executed os s command fault
  moved :
      (arg : Str) (args : List Str) (directory : Str)
      → Spaced command (arg ∷ args)
      → length (arg ∷ args) < max_args_count
      → arg ≡ codes "cd"
      → os.chdir s.current_working_directory (get_elem? args 0) ≡ some directory
      → Executed os s command
          (running (record (remember command s) { current_working_directory = directory }))
  lost :
      (arg : Str) (args : List Str)
      → Spaced command (arg ∷ args)
      → length (arg ∷ args) < max_args_count
      → arg ≡ codes "cd"
      → os.chdir s.current_working_directory (get_elem? args 0) ≡ none
      → Executed os s command (exited false)
  quitted :
      (arg : Str) (args : List Str)
      → Spaced command (arg ∷ args)
      → length (arg ∷ args) < max_args_count
      → arg ≡ codes "quit"
      → All (λ pid. os.waitpid pid ≡ true) s.child_pids
      → Executed os s command (exited true)
  unwaited :
      (arg : Str) (args : List Str)
      → Spaced command (arg ∷ args)
      → length (arg ∷ args) < max_args_count
      → arg ≡ codes "quit"
      → ¬ All (λ pid. os.waitpid pid ≡ true) s.child_pids
      → Executed os s command (exited false)
  forked :
      (arg : Str) (args : List Str) (pid : ℕ)
      → Spaced command (arg ∷ args)
      → length (arg ∷ args) < max_args_count
      → arg ≢ codes "cd"
      → arg ≢ codes "quit"
      → length s.child_pids < max_process_count
      → os.fork (remember command s) ≡ some pid
      → Executed os s command (
          running (record (remember command s) {
            child_pids = s.child_pids ++ pid ∷ [];
            started = s.started ++ child_of (arg ∷ args) (remember command s) ∷ [];
            forked_pids = s.forked_pids ++ pid ∷ [];
          }))
  unforked :
      (arg : Str) (args : List Str)
      → Spaced command (arg ∷ args)
      → length (arg ∷ args) < max_args_count
      → arg ≢ codes "cd"
      → arg ≢ codes "quit"
      → (max_process_count ≤ length s.child_pids) ⊎ (os.fork (remember command s) ≡ none)
      → Executed os s command (exited false)

-- The first word of a command that does not begin with a blank is where `strtok` cuts it.
token-blank :
    (word rest : Str) → All (λ c. is_blank c ≡ false) word → token (word ++ 32 ∷ rest) ≡ word
unfolding token
token-blank [] rest h = refl
token-blank (c ∷ cs) rest h = rw h.0 (ap (λ t. c ∷ t) (token-blank cs rest h.1))

token-end : (word : Str) → All (λ c. is_blank c ≡ false) word → token word ≡ word
unfolding token
token-end [] h = refl
token-end (c ∷ cs) h = rw h.0 (ap (λ t. c ∷ t) (token-end cs h.1))

no_blanks :
    (before rest : Str) (c : ℕ) (cs : Str)
    → c ∷ cs ≡ before ++ rest
    → All (λ c. is_blank c ≡ true) before
    → is_blank c ≡ false
    → c ∷ cs ≡ rest
no_blanks [] rest c cs e all h = e
no_blanks (b ∷ before) rest c cs e all h =
    let same : c ≡ b = cc in absurd (ground (arith, same, all.0, h))

Spaced-first :
    (c : ℕ) (cs : Str) (args : List Str)
    → is_blank c ≡ false
    → Spaced (c ∷ cs) args
    → (more : List Str) × (args ≡ token (c ∷ cs) ∷ more)
Spaced-first c cs args h (blank s all) = absurd (ground (arith, all.0, h))
Spaced-first c cs args h (last s before word e all ok ne) =
    let same = no_blanks before word c cs e all h in
    ([], ap (λ w. w ∷ []) (sym (ap token same ∙ token-end word ok)))
Spaced-first c cs args h (next s before word rest words e all ok ne spaced) =
    let same = no_blanks before (word ++ 32 ∷ rest) c cs e all h in
    (words, ap (λ w. w ∷ words) (sym (ap token same ∙ token-blank word rest ok)))

command_after-token :
    (c : ℕ) (cs : Str) → is_blank c ≡ false → command_after (c ∷ cs) ≡ token (c ∷ cs)
unfolding command_after
command_after-token c cs h = rw h refl

-- Every wait succeeds, or one of them fails.
data Waited (os : Os) (pids : List ℕ) (s : Shell) : Outcome → Type 0 where
  all_waited :
      All (λ pid. os.waitpid pid ≡ true) pids
      → Waited os pids s
          (running (record s { child_pids = []; waited_pids = s.waited_pids ++ pids }))
  one_failed : ¬ All (λ pid. os.waitpid pid ≡ true) pids → Waited os pids s (exited false)

Waited-behind :
    (os : Os) (pid : ℕ) (pids : List ℕ) (s : Shell) (o : Outcome)
    → os.waitpid pid ≡ true
    → Waited os pids (record s { waited_pids = s.waited_pids ++ pid ∷ [] }) o
    → Waited os (pid ∷ pids) s o
Waited-behind os pid pids s o h (all_waited all) =
    subst (λ w. Waited os (pid ∷ pids) s (running (record s { child_pids = []; waited_pids = w })))
      (sym (append_assoc s.waited_pids (pid ∷ []) pids)) (all_waited (h, all))
Waited-behind os pid pids s o h (one_failed some_pid) = one_failed (λ all. some_pid all.1)

wait_loop-Waited : (os : Os) (pids : List ℕ) (s : Shell) → Waited os pids s (wait_loop os pids s)
unfolding wait_loop
wait_loop-Waited os [] s =
    subst (λ w. Waited os [] s (running (record s { child_pids = []; waited_pids = w })))
      (append-nil s.waited_pids) (all_waited tt)
wait_loop-Waited os (pid ∷ pids) s = elim (Bool-cases (os.waitpid pid)) [
  | inl h ↦
      let t = record s { waited_pids = s.waited_pids ++ pid ∷ [] } in
      rw h (Waited-behind os pid pids s (wait_loop os pids t) h (wait_loop-Waited os pids t))
  | inr h ↦ rw h (one_failed (λ all. let no : true ≡ false = sym all.0 ∙ h in cc))
]

module _ (os : Os) (s : Shell) (command arg : Str) (args : List Str)
    (spaced : Spaced command (arg ∷ args)) (few : length (arg ∷ args) < max_args_count) where
  Waited-Executed :
      arg ≡ codes "quit"
      → (o : Outcome) → Waited os s.child_pids (remember command s) o
      → Executed os s command (bind o (λ t. exited true))
  Waited-Executed e o (all_waited all) = quitted arg args spaced few e all
  Waited-Executed e o (one_failed some_pid) = unwaited arg args spaced few e some_pid

  execute_args-Executed :
      Executed os s command (execute_args os arg (arg ∷ args) (remember command s))
  unfolding execute_args wait_for_all_child_processes create_child_process
  execute_args-Executed = elim (Bool-cases (str_eq arg (codes "cd"))) [
    | inl is_cd ↦ elim (Option-cases (os.chdir s.current_working_directory (get_elem? args 0))) [
      | inl fails ↦
          rw (is_cd, fails) (lost arg args spaced few (eq-str_eq arg (codes "cd") is_cd) fails)
      | inr (directory, goes) ↦
          rw (is_cd, goes)
            (moved arg args directory spaced few (eq-str_eq arg (codes "cd") is_cd) goes)
    ]
    | inr no_cd ↦ elim (Bool-cases (str_eq arg (codes "quit"))) [
      | inl is_quit ↦
          rw (no_cd, is_quit)
            (Waited-Executed (eq-str_eq arg (codes "quit") is_quit)
              (wait_loop os s.child_pids (remember command s))
              (wait_loop-Waited os s.child_pids (remember command s)))
      | inr no_quit ↦
          rw (no_cd, no_quit) (spawn (str_ne (codes "cd") no_cd) (str_ne (codes "quit") no_quit))
    ]
  ]
    where
      str_ne : (t : Str) → str_eq arg t ≡ false → arg ≢ t
      str_ne t h e =
          let no : true ≡ false = sym (str_eq_refl t) ∙ (ap (λ x. str_eq x t) (sym e) ∙ h) in cc

      spawn :
          arg ≢ codes "cd"
          → arg ≢ codes "quit"
          → Executed os s command (
              create_child_process os
                (child_of (arg ∷ args) (remember command s))
                (remember command s))
      spawn no_cd no_quit = elim (Bool-cases (leb max_process_count (length s.child_pids))) [
        | inl full ↦ rw full (
            unforked arg args spaced few no_cd no_quit
              (inl (leb→le max_process_count (length s.child_pids) full)))
        | inr room ↦ elim (Option-cases (os.fork (remember command s))) [
          | inl fails ↦ rw (room, fails) (unforked arg args spaced few no_cd no_quit (inr fails))
          | inr (pid, forks) ↦
              rw (room, forks)
                (forked arg args pid spaced few no_cd no_quit (ground (arith, room)) forks)
        ]
      ]

execute_trimmed-Executed :
    (os : Os) (command : Str) (s : Shell)
    → ((c : ℕ) (cs : Str) → command ≡ c ∷ cs → is_blank c ≡ false)
    → Executed os s command (execute_trimmed os command s)
unfolding execute_trimmed
execute_trimmed-Executed os [] s first = nothing refl
execute_trimmed-Executed os (c ∷ cs) s first =
    let (args, spaced, parses) = parse_command-Spaced (c ∷ cs) in
    let h = first c cs refl in
    let (more, e) = Spaced-first c cs args h spaced in
    elim (Bool-cases (ltb (length args) max_args_count)) [
      | inr many ↦
          let overflows : parse_command (c ∷ cs) ≡ none =
            parses ∙ ap (λ b. if b then some args else none) many in
          subst (behind_parse c cs) (sym overflows)
            (overflow args spaced (not_ltb→le (length args) max_args_count many))
      | inl fits ↦
          let found : parse_command (c ∷ cs) ≡ some args =
            parses ∙ ap (λ b. if b then some args else none) fits in
          let at_first : Spaced (c ∷ cs) (token (c ∷ cs) ∷ more) =
            subst (Spaced (c ∷ cs)) e spaced in
          subst (behind_parse c cs) (sym (found ∙ ap some e)) (
            rw (command_after-token c cs h) (
              execute_args-Executed os s (c ∷ cs) (token (c ∷ cs)) more at_first (
                subst (λ x. length x < max_args_count) e
                  (ltb→lt (length args) max_args_count fits))))
    ]
  where
    behind_parse : ℕ → Str → Option (List Str) → Type 0
    behind_parse c cs r = Executed os s (c ∷ cs) (elim r [
      | none ↦ fault
      | some args ↦ execute_args os (command_after (c ∷ cs)) args (remember (c ∷ cs) s)
    ])

-- `executeCommand` with the white space off the command: an empty one does nothing; one of 64 words or
-- more overflows `args`, and no other does; any other goes into the history. `cd` changes the directory, or ends the
-- shell if it cannot; `quit` waits for the children and ends the shell; any other command becomes a
-- child with a place in the table of 128, or ends the shell if there is none or it cannot fork.
pub execute_command-Executed :
    (os : Os) (command : Str) (s : Shell)
    → Executed os s (trim command) (execute_command os command s)
unfolding execute_command
execute_command-Executed os command s =
    execute_trimmed-Executed os (trim command) s
      (λ c cs e. let h = (trim-Trimmed command).first c cs e in ground (arith, h))
