-- ===== src/Shell/Lines/Split.antt =====
-- How `executeLine` of myShell/hw1.c cuts a line.
use cos.Base.{
  ℕ, suc, ◌+◌, ◌≡◌, refl, sym, ap, ◌∙◌, inl, inr, Bool, true, false, List, [], ◌∷◌, ◌++◌, ◌==◌,
  arith, Bool-cases, All, Str, append-nil, append_assoc,
}
use cos.Shell.Words.{trim}
use cos.Shell.Commands.{
  Shell, Os, Outcome, running, exited, bind, execute_command, execute_trimmed, wait_loop,
  wait_for_all_child_processes,
}
use cos.Shell.Lines.{
  semicolon, bar, count_pipes, update_flags, finish_line, pass_output, line_loop, execute_line,
}
use cos.Shell.Lines.{reset_line_info}
use cos.Base.{ap₂}
use cos.Base.{==_iff}

-- A line, as its commands with the separators between them.
pub data Line : Type 0 where
  final : (command : Str) → Line
  followed : (command : Str) → Line → Line
  piped : (command : Str) → Line → Line

-- The text of a line.
abbrev pub text : Line → Str
text (final command) = command
text (followed command l) = command ++ semicolon ∷ text l
text (piped command l) = command ++ bar ∷ text l

abbrev pub bars : Line → ℕ
bars (final command) = 0
bars (followed command l) = bars l
bars (piped command l) = suc (bars l)

abbrev pub Plain : Str → Type 0
Plain = All (λ c. ((c == semicolon) ≡ false) × ((c == bar) ≡ false))

-- That no command has a separator in it.
abbrev pub Cut : Line → Type 0
Cut (final command) = Plain command
Cut (followed command l) = Plain command × Cut l
Cut (piped command l) = Plain command × Cut l

abbrev pub set_flags : (is_first is_last : Bool) → Shell → Shell
set_flags is_first is_last s = record s { is_first_block = is_first; is_last_block = is_last }

-- What a line means: its commands run in order, a block up to each '|'; the shell waits for the
-- children of a block and takes over their output before the next one. `first` says that the first of
-- these commands is in the first block of the line.
abbrev pub run_line : Os → (first : Bool) → Line → Shell → Outcome
run_line os first (final command) s =
    bind (execute_command os command (set_flags first true s)) (finish_line os)
run_line os first (followed command l) s =
    bind (execute_command os command (set_flags first (bars l == 0) s)) (λ t. run_line os first l t)
run_line os first (piped command l) s =
    bind (execute_command os command (set_flags first false s))
      (λ t. bind (pass_output os t) (λ u. run_line os false l u))

pub bind-eq :
    (o : Outcome) {f g : Shell → Outcome} → ((s : Shell) → f s ≡ g s) → bind o f ≡ bind o g
bind-eq (running s) h = h s
bind-eq (exited b) h = refl
bind-eq Outcome.blocked h = refl
bind-eq Outcome.fault h = refl

module _ (os : Os) (n : ℕ) where
  line_loop-plain :
      (seen : ℕ) (line : Str) (c : ℕ) (cs : Str) (s : Shell)
      → (c == semicolon) ≡ false
      → (c == bar) ≡ false
      → line_loop os n seen line (c ∷ cs) s
        ≡ line_loop os n seen (line ++ c ∷ []) cs (update_flags seen n s)
  unfolding line_loop
  line_loop-plain seen line c cs s h h' = rw (line_loop, h, h') refl

  -- Up to the character behind a command, which sets the flags again.
  line_loop-command :
      (seen : ℕ) (line command : Str) (c : ℕ) (cs : Str) (s : Shell)
      → Plain command
      → line_loop os n seen line (command ++ c ∷ cs) s
        ≡ line_loop os n seen (line ++ command) (c ∷ cs) s
  unfolding line_loop
  line_loop-command seen line [] c cs s h =
      ap (λ x. line_loop os n seen x (c ∷ cs) s) (sym (append-nil line))
  line_loop-command seen line (d ∷ ds) c cs s h =
      line_loop-plain seen line d (ds ++ c ∷ cs) s h.0.0 h.0.1
      ∙ (line_loop-command seen (line ++ d ∷ []) ds c cs (update_flags seen n s) h.1
          ∙ ap (λ x. line_loop os n seen x (c ∷ cs) s) (append_assoc line (d ∷ []) ds))

  line_loop-last :
      (seen : ℕ) (line : Str) (c : ℕ) (command : Str) (s : Shell)
      → Plain (c ∷ command)
      → line_loop os n seen line (c ∷ command) s
        ≡ bind (execute_command os (line ++ c ∷ command) (update_flags seen n s)) (finish_line os)
  unfolding line_loop
  line_loop-last seen line c [] s h = line_loop-plain seen line c [] s h.0.0 h.0.1
  line_loop-last seen line c (d ∷ ds) s h =
      line_loop-plain seen line c (d ∷ ds) s h.0.0 h.0.1
      ∙ (line_loop-last seen (line ++ c ∷ []) d ds (update_flags seen n s) h.1
          ∙ ap (λ x. bind (execute_command os x (update_flags seen n s)) (finish_line os))
              (append_assoc line (c ∷ []) (d ∷ ds)))

  wait_loop-flags :
      (is_first is_last : Bool) (pids : List ℕ) (s : Shell)
      → bind (wait_loop os pids s) (λ t. running (reset_line_info t))
        ≡ bind (wait_loop os pids (set_flags is_first is_last s)) (λ t. running (reset_line_info t))
  unfolding wait_loop
  wait_loop-flags is_first is_last [] s = refl
  wait_loop-flags is_first is_last (p ∷ pids) s = elim (Bool-cases (os.waitpid p)) [
    | inl h ↦
        rw h (
          wait_loop-flags is_first is_last pids
            (record s { waited_pids = s.waited_pids ++ p ∷ [] }))
    | inr h ↦ rw h refl
  ]

  -- An empty command does nothing, whatever the flags are.
  nothing-finish :
      (is_first is_last : Bool) (s : Shell)
      → bind (execute_command os [] s) (finish_line os)
        ≡ bind (execute_command os [] (set_flags is_first is_last s)) (finish_line os)
  unfolding execute_command execute_trimmed trim wait_for_all_child_processes
  nothing-finish is_first is_last s = wait_loop-flags is_first is_last s.child_pids s

  bars-test : (seen k : ℕ) → n ≡ seen + k → (seen == n) ≡ (k == 0)
  bars-test seen k e = elim (Bool-cases (k == 0)) [
    | inl h ↦ let h' : (seen == n) ≡ true = ground arith in h' ∙ sym h
    | inr h ↦ let h' : (seen == n) ≡ false = ground arith in h' ∙ sym h
  ]

  line_loop-run :
      (l : Line) (seen : ℕ) (s : Shell)
      → Cut l
      → n ≡ seen + bars l
      → line_loop os n seen [] (text l) s ≡ run_line os (seen == 0) l s
  unfolding line_loop
  line_loop-run (final []) seen s h e = nothing-finish (seen == 0) true s
  line_loop-run (final (c ∷ cs)) seen s h e =
      line_loop-last seen [] c cs s h
      ∙ ap (λ b. bind (execute_command os (c ∷ cs) (set_flags (seen == 0) b s)) (finish_line os))
          (bars-test seen 0 e)
  line_loop-run (followed command l) seen s h e =
      line_loop-command seen [] command semicolon (text l) s h.0
      ∙ (bind-eq (execute_command os command (update_flags seen n s))
            (λ t. line_loop-run l seen t h.1 e)
          ∙ ap
              (λ b.
                bind (execute_command os command (set_flags (seen == 0) b s))
                  (λ t. run_line os (seen == 0) l t))
              (bars-test seen (bars l) e))
  line_loop-run (piped command l) seen s h e =
      let more : n ≡ (seen + 1) + bars l = omega (arith, e) in
      let not_last : (suc (bars l) == 0) ≡ false = ground arith in
      let not_first : ((seen + 1) == 0) ≡ false = ground arith in
      line_loop-command seen [] command bar (text l) s h.0
      ∙ (bind-eq (execute_command os command (update_flags seen n s)) (λ t.
            bind-eq (pass_output os t)
              (λ u. line_loop-run l (seen + 1) u h.1 more ∙ ap (λ b. run_line os b l u) not_first))
          ∙ ap
              (λ b.
                bind (execute_command os command (set_flags (seen == 0) b s))
                  (λ t. bind (pass_output os t) (λ u. run_line os false l u)))
              (bars-test seen (suc (bars l)) e ∙ not_last))

count_pipes-append :
    (command rest : Str) → Plain command → count_pipes (command ++ rest) ≡ count_pipes rest
unfolding count_pipes
count_pipes-append [] rest h = refl
count_pipes-append (c ∷ cs) rest h = rw h.0.1 (count_pipes-append cs rest h.1)

count_pipes-text : (l : Line) → Cut l → count_pipes (text l) ≡ bars l
unfolding count_pipes
count_pipes-text (final command) h =
    ap count_pipes (sym (append-nil command)) ∙ count_pipes-append command [] h
count_pipes-text (followed command l) h =
    count_pipes-append command (semicolon ∷ text l) h.0 ∙ count_pipes-text l h.1
count_pipes-text (piped command l) h =
    count_pipes-append command (bar ∷ text l) h.0 ∙ ap suc (count_pipes-text l h.1)

-- With a character before its first command.
abbrev put_before : ℕ → Line → Line
put_before c (final command) = final (c ∷ command)
put_before c (followed command l) = followed (c ∷ command) l
put_before c (piped command l) = piped (c ∷ command) l

put_before-text : (c : ℕ) (l : Line) → text (put_before c l) ≡ c ∷ text l
put_before-text c (final command) = refl
put_before-text c (followed command l) = refl
put_before-text c (piped command l) = refl

put_before-Cut :
    (c : ℕ) (l : Line)
    → (c == semicolon) ≡ false
    → (c == bar) ≡ false
    → Cut l
    → Cut (put_before c l)
put_before-Cut c (final command) h h' cut = ((h, h'), cut)
put_before-Cut c (followed command l) h h' cut = (((h, h'), cut.0), cut.1)
put_before-Cut c (piped command l) h h' cut = (((h, h'), cut.0), cut.1)

line-Cut : (s : Str) → (l : Line) × Cut l × (text l ≡ s)
line-Cut [] = (final [], tt, refl)
line-Cut (c ∷ cs) =
    let (l, cut, same) = line-Cut cs in
    elim (Bool-cases (c == semicolon)) [
      | inl h ↦ (followed [] l, (tt, cut), ap₂ (λ a b. a ∷ b) (sym ((==_iff c semicolon).0 h)) same)
      | inr h ↦ elim (Bool-cases (c == bar)) [
        | inl h' ↦ (piped [] l, (tt, cut), ap₂ (λ a b. a ∷ b) (sym ((==_iff c bar).0 h')) same)
        | inr h' ↦ (
          put_before c l,
          put_before-Cut c l h h' cut,
          put_before-text c l ∙ ap (λ t. c ∷ t) same,
        )
      ]
    ]

-- Every line is made of commands without separators, and where the pipe can be made
-- `executeLine` runs them in order: those before the first '|' as the first block, those behind the
-- last one as the last block, each block but the last followed by a wait for its children and the
-- transfer of its output, and the last one by a wait and a reset of the flags.
pub execute_line-runs :
    (os : Os) (line : Str) (s : Shell)
    → os.pipe s ≡ true
    → (l : Line) × Cut l × (text l ≡ line) × (execute_line os line s ≡ run_line os true l s)
unfolding execute_line
execute_line-runs os line s ok =
    let (l, cut, same) = line-Cut line in
    (
      l,
      cut,
      same,
      rw ok (
          ap (λ x. line_loop os (count_pipes x) 0 [] x s) (sym same)
          ∙ line_loop-run os (count_pipes (text l)) l 0 s cut
              (omega (arith, count_pipes-text l cut))),
    )
