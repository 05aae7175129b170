-- ===== src/Shell/Lines/Input.antt =====
-- The lines that `shellMode` of myShell/hw1.c reads.
use cos.Base.{ℕ, ◌+◌, ◌<◌, ◌≡◌, ap, false, List, [], ◌∷◌, ◌++◌, ◌==◌, arith, if◌then◌else◌, Str}
use cos.Shell.Commands.{Shell, Os, Outcome, running, bind}
use cos.Base.{up_to_zero}
use cos.Shell.Lines.{line_size, execute_line, shell_mode}

-- The strings of these lines, each up to its first zero byte, as `executeLine` gets them.
abbrev pub run_lines : Os → List Str → Shell → Outcome
run_lines os [] s = running s
run_lines os (line ∷ lines) s =
    bind (execute_line os (up_to_zero line) s) (λ t. run_lines os lines t)

pub shell_mode-next :
    (os : Os) (cursor : ℕ) (before : Str) (c : ℕ) (cs : Str) (s : Shell)
    → cursor < line_size
    → (c == 255) ≡ false
    → (c == 10) ≡ false
    → shell_mode os cursor before (c ∷ cs) s ≡ shell_mode os (cursor + 1) (before ++ c ∷ []) cs s
unfolding shell_mode
shell_mode-next os cursor before c cs s lt h h' =
    let room : (cursor == line_size) ≡ false = ground (arith, lt) in
    rw (shell_mode, h, h')
      (ap
        (λ b.
          shell_mode os ((if b then 0 else cursor) + 1) ((if b then [] else before) ++ c ∷ []) cs s)
        room)

pub shell_mode-newline :
    (os : Os) (cursor : ℕ) (before cs : Str) (s : Shell)
    → cursor < line_size
    → shell_mode os cursor before (10 ∷ cs) s
      ≡ bind (execute_line os (up_to_zero before) s) (λ t. shell_mode os 0 [] cs t)
unfolding shell_mode
shell_mode-newline os cursor before cs s lt =
    let room : (cursor == line_size) ≡ false = ground (arith, lt) in
    ap
      (λ b.
        bind (execute_line os (up_to_zero (if b then [] else before)) s)
          (λ t. shell_mode os 0 [] cs t))
      room
