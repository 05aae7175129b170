-- ===== src/Shell/Lines/After.antt =====
-- The state of the shell of myShell/hw1.c after a line.
use mathlib.Core.Path.{subst}
use cos.Base.{
  ℕ, ◌≡◌, refl, sym, ap, ◌∙◌, inl, inr, Bool, true, false, Option, none, some, Bool-cases, List, [],
  ◌∷◌, ◌++◌, ◌==◌, ltb, if◌then◌else◌, length, Str, append-nil, append_assoc,
}
use cos.Shell.Words.{trim}
use cos.Shell.Words.Parse.{Spaced, no_words}
use cos.Shell.Commands.{
  Shell, Os, Outcome, running, exited, blocked, fault, bind, buffer_size, execute_command,
  wait_loop, wait_for_all_child_processes, copy_process_output_to_buffer,
}
use cos.Shell.Commands.Children.{Executed, execute_command-Executed}
use cos.Shell.Lines.{finish_line, pass_output, execute_line, reset_line_info}
use cos.Shell.Lines.Split.{
  Line, final, followed, piped, bars, text, Cut, set_flags, run_line, execute_line-runs,
}

-- A predicate on the state of a shell that goes on.
abbrev pub Running : (Shell → Type 0) → Outcome → Type 0
Running P (running t) = P t
Running P (exited b) = Unit
Running P blocked = Unit
Running P fault = Unit

pub Running-bind :
    (P Q : Shell → Type 0) (o : Outcome) (f : Shell → Outcome)
    → Running P o
    → ((t : Shell) → P t → Running Q (f t))
    → Running Q (bind o f)
Running-bind P Q (running t) f p h = h t p
Running-bind P Q (exited b) f p h = tt
Running-bind P Q blocked f p h = tt
Running-bind P Q fault f p h = tt

pub Running-mono :
    (P Q : Shell → Type 0) (o : Outcome) → ((t : Shell) → P t → Q t) → Running P o → Running Q o
Running-mono P Q (running t) f p = f t p
Running-mono P Q (exited b) f p = tt
Running-mono P Q blocked f p = tt
Running-mono P Q fault f p = tt

no_pipe :
    (os : Os) (line : Str) (s : Shell) → os.pipe s ≡ false → execute_line os line s ≡ exited false
unfolding execute_line
no_pipe os line s e = rw (execute_line, e) refl

-- What a trimmed command adds to the history.
abbrev pub kept : Str → List Str
kept [] = []
kept (c ∷ cs) = (c ∷ cs) ∷ []

-- What the commands of a line add to the history.
abbrev pub commands : Line → List Str
commands (final command) = kept (trim command)
commands (followed command l) = kept (trim command) ++ commands l
commands (piped command l) = kept (trim command) ++ commands l

kept-Spaced :
    (command arg : Str) (args : List Str)
    → Spaced command (arg ∷ args)
    → kept command ≡ command ∷ []
kept-Spaced [] arg args spaced =
    let no : arg ∷ args ≡ [] = no_words [] (arg ∷ args) spaced refl in cc
kept-Spaced (c ∷ cs) arg args spaced = refl

-- The processes that were forked are those that were waited for and those in the table.
abbrev pub Tracked : Shell → Type 0
Tracked s = s.waited_pids ++ s.child_pids ≡ s.forked_pids

abbrev Kept : List Str → Shell → Type 0
Kept history t = (t.history ≡ history) × Tracked t

Executed-Kept :
    (os : Os) (s : Shell) (command : Str) (o : Outcome)
    → Tracked s
    → Executed os s command o
    → Running (Kept (s.history ++ kept command)) o
Executed-Kept os s command o track (Executed.nothing e) = (rw e (sym (append-nil s.history)), track)
Executed-Kept os s command o track (Executed.overflow args spaced le) = tt
Executed-Kept os s command o track (Executed.moved arg args directory spaced few e e') =
    (ap (λ x. s.history ++ x) (sym (kept-Spaced command arg args spaced)), track)
Executed-Kept os s command o track (Executed.lost arg args spaced few e e') = tt
Executed-Kept os s command o track (Executed.quitted arg args spaced few e all) = tt
Executed-Kept os s command o track (Executed.unwaited arg args spaced few e all) = tt
Executed-Kept os s command o track (Executed.forked arg args pid spaced few ne ne' lt e) = (
  ap (λ x. s.history ++ x) (sym (kept-Spaced command arg args spaced)),
  sym (append_assoc s.waited_pids s.child_pids (pid ∷ [])) ∙ ap (λ x. x ++ pid ∷ []) track,
)
Executed-Kept os s command o track (Executed.unforked arg args spaced few ne ne' why) = tt

-- No child is left: each one that was forked has been waited for.
abbrev pub AllEnded : Shell → Type 0
AllEnded t = (t.child_pids ≡ []) × (t.waited_pids ≡ t.forked_pids)

pub wait_loop-AllEnded :
    (os : Os) (pids : List ℕ) (s : Shell)
    → s.waited_pids ++ pids ≡ s.forked_pids
    → Running (λ t. (t.history ≡ s.history) × AllEnded t) (wait_loop os pids s)
unfolding wait_loop
wait_loop-AllEnded os [] s track = (refl, (refl, sym (append-nil s.waited_pids) ∙ track))
wait_loop-AllEnded os (pid ∷ pids) s track = elim (Bool-cases (os.waitpid pid)) [
  | inl h ↦ rw h (
      wait_loop-AllEnded os pids (record s { waited_pids = s.waited_pids ++ pid ∷ [] })
        (append_assoc s.waited_pids (pid ∷ []) pids ∙ track))
  | inr h ↦ rw h tt
]

pub AllEnded-Tracked : (t : Shell) → AllEnded t → Tracked t
AllEnded-Tracked t ended =
    ap (λ x. t.waited_pids ++ x) ended.0 ∙ (append-nil t.waited_pids ∙ ended.1)

copy-history :
    (os : Os) (s : Shell)
    → Tracked s
    → Running (Kept s.history) (copy_process_output_to_buffer os s)
unfolding copy_process_output_to_buffer
copy-history os s track = by_read (os.read s)
  where
    by_read :
        (r : Option Str)
        → Running (Kept s.history) (elim r [
          | none ↦ exited false
          | some [] ↦ blocked
          | some (b ∷ bs) ↦
              if ltb (length (b ∷ bs)) buffer_size
              then running (record s { output_buffer = b ∷ bs })
              else fault
        ])
    by_read none = tt
    by_read (some []) = tt
    by_read (some (b ∷ bs)) = elim (Bool-cases (ltb (length (b ∷ bs)) buffer_size)) [
      | inl h ↦ rw h (refl, track)
      | inr h ↦ rw h tt
    ]

-- Between two lines every child has been waited for, and the flags are as at the start.
pub record Done (old : List Str) (t : Shell) : Type 0 where
  pub ended : AllEnded t
  pub is_first : t.is_first_block ≡ true
  pub is_last : t.is_last_block ≡ false
  pub remembered : t.history ≡ old

module _ (os : Os) where
  execute_command-Kept :
      (command : Str) (s : Shell)
      → Tracked s
      → Running (Kept (s.history ++ kept (trim command))) (execute_command os command s)
  execute_command-Kept command s track =
      Executed-Kept os s (trim command) (execute_command os command s) track
        (execute_command-Executed os command s)

  pass_output-Kept : (s : Shell) → Tracked s → Running (Kept s.history) (pass_output os s)
  unfolding wait_for_all_child_processes
  pass_output-Kept s track =
      Running-bind _ _ (wait_loop os s.child_pids s) (copy_process_output_to_buffer os)
        (wait_loop-AllEnded os s.child_pids s track)
        (λ t h.
          subst (λ x. Running (Kept x) (copy_process_output_to_buffer os t)) h.0
            (copy-history os t (AllEnded-Tracked t h.1)))

  finish_line-Done : (s : Shell) → Tracked s → Running (Done s.history) (finish_line os s)
  unfolding wait_for_all_child_processes
  finish_line-Done s track =
      Running-bind _ _ (wait_loop os s.child_pids s) (λ t. running (reset_line_info t))
        (wait_loop-AllEnded os s.child_pids s track)
        (λ t h. record { ended = h.1; is_first = refl; is_last = refl; remembered = h.0 })

  run_line-Done :
      (is_first : Bool) (l : Line) (s : Shell)
      → Tracked s
      → Running (Done (s.history ++ commands l)) (run_line os is_first l s)
  run_line-Done is_first (final command) s track =
      Running-bind _ _ (execute_command os command (set_flags is_first true s)) (finish_line os)
        (execute_command-Kept command (set_flags is_first true s) track)
        (λ t h. subst (λ x. Running (Done x) (finish_line os t)) h.0 (finish_line-Done t h.1))
  run_line-Done is_first (followed command l) s track =
      Running-bind _ _ (execute_command os command (set_flags is_first (bars l == 0) s))
        (λ t. run_line os is_first l t)
        (execute_command-Kept command (set_flags is_first (bars l == 0) s) track)
        (λ t h.
          subst (λ x. Running (Done x) (run_line os is_first l t))
            (ap (λ x. x ++ commands l) h.0
              ∙ append_assoc s.history (kept (trim command)) (commands l))
            (run_line-Done is_first l t h.1))
  run_line-Done is_first (piped command l) s track =
      Running-bind _ _ (execute_command os command (set_flags is_first false s))
        (λ t. bind (pass_output os t) (λ u. run_line os false l u))
        (execute_command-Kept command (set_flags is_first false s) track)
        (λ t h.
          Running-bind _ _ (pass_output os t) (λ u. run_line os false l u) (pass_output-Kept t h.1)
            (λ u h'.
              subst (λ x. Running (Done x) (run_line os false l u))
                (ap (λ x. x ++ commands l) (h'.0 ∙ h.0)
                  ∙ append_assoc s.history (kept (trim command)) (commands l))
                (run_line-Done false l u h'.1)))

-- Where the processes that were forked are those that were waited for and those in the table: after a
-- line, if the shell goes on, the table is empty, `waitpid` has returned for every process that was
-- ever forked, and the flags are reset; the history has the commands of the line behind what was
-- there, trimmed and without the empty ones.
pub execute_line-Done :
    (os : Os) (line : Str) (s : Shell)
    → os.pipe s ≡ true
    → Tracked s
    → (l : Line) × Cut l
      × (text l ≡ line)
      × Running (Done (s.history ++ commands l)) (execute_line os line s)
execute_line-Done os line s ok track =
    let (l, cut, same, runs) = execute_line-runs os line s ok in
    (
      l,
      cut,
      same,
      subst (Running (Done (s.history ++ commands l))) (sym runs) (run_line-Done os true l s track),
    )

-- A line keeps track of the processes, whatever comes of it.
pub execute_line-Tracked :
    (os : Os) (line : Str) (s : Shell) → Tracked s → Running Tracked (execute_line os line s)
execute_line-Tracked os line s track = elim (Bool-cases (os.pipe s)) [
  | inr fails ↦ subst (Running Tracked) (sym (no_pipe os line s fails)) tt
  | inl ok ↦
      let (l, cut, same, after) = execute_line-Done os line s ok track in
      Running-mono (Done (s.history ++ commands l)) Tracked (execute_line os line s)
        (λ t h. AllEnded-Tracked t h.ended) after
]
