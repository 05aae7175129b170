-- ===== src/Shell/Lines/Batch.antt =====
-- The lines that `batchMode` of myShell/hw1.c reads from a file.
use cos.Base.{
  ℕ, zero, suc, ◌-◌, ◌≤◌, ◌<◌, ◌≡◌, refl, ap, inl, inr, false, some, List, [], ◌∷◌, ◌++◌, ◌==◌,
  arith, Bool-cases, ==_iff, length, length-append, All, Str,
}
use cos.Shell.Commands.{Shell, Os, Outcome, running, exited, blocked, fault, bind}
use cos.Base.{up_to_zero}
use cos.Shell.Lines.{line_size, execute_line, fgets, batch_loop}
use cos.Shell.Lines.Input.{run_lines}
use cos.Base.{◌≢◌}

abbrev pub NoNewline : Str → Type 0
NoNewline = All (λ c. (c == 10) ≡ false)

-- What `fgets` of at most `k` characters gives.
pub data Got (k : ℕ) (cs line rest : Str) : Type 0 where
  a_line :
      (body : Str)
      → cs ≡ line ++ rest
      → line ≡ body ++ 10 ∷ []
      → NoNewline body
      → length line ≤ k
      → Got k cs line rest
  full : cs ≡ line ++ rest → NoNewline line → length line ≡ k → Got k cs line rest
  at_end : cs ≡ line → rest ≡ [] → NoNewline line → length line ≤ k → Got k cs line rest

Got-behind :
    (k c : ℕ) (cs line rest : Str)
    → (c == 10) ≡ false
    → Got k cs line rest
    → Got (suc k) (c ∷ cs) (c ∷ line) rest
Got-behind k c cs line rest h (a_line body e e' plain le) =
    a_line (c ∷ body) (ap (λ t. c ∷ t) e) (ap (λ t. c ∷ t) e') (h, plain) (omega (arith, le))
Got-behind k c cs line rest h (full e plain n) =
    full (ap (λ t. c ∷ t) e) (h, plain) (omega (arith, n))
Got-behind k c cs line rest h (at_end e done plain le) =
    at_end (ap (λ t. c ∷ t) e) done (h, plain) (omega (arith, le))

fgets-Got : (k : ℕ) (cs : Str) → Got k cs (fgets k cs).0 (fgets k cs).1
unfolding fgets
fgets-Got zero cs = full refl tt refl
fgets-Got (suc k) [] = at_end refl refl tt (omega arith)
fgets-Got (suc k) (c ∷ cs) = elim (Bool-cases (c == 10)) [
  | inl h ↦ rw h (a_line [] refl (ap (λ x. x ∷ []) ((==_iff c 10).0 h)) tt (omega arith))
  | inr h ↦ rw h (Got-behind k c cs (fgets k cs).0 (fgets k cs).1 h (fgets-Got k cs))
]

-- A file, as the lines that `fgets` gives: each as long as it can be.
pub data Chunks : Str → List Str → Type 0 where
  no_lines : Chunks [] []
  more_lines :
      (file line rest : Str) (lines : List Str)
      → file ≢ []
      → Got (line_size - 1) file line rest
      → Chunks rest lines
      → Chunks file (line ∷ lines)

Got-shorter :
    (k : ℕ) (cs line rest : Str) → cs ≢ [] → 0 < k → Got k cs line rest → length rest < length cs
Got-shorter k cs line rest ne pos (a_line body e e' plain le) =
    omega (arith, ap length e, ap length e', length-append line rest, length-append body (10 ∷ []))
Got-shorter k cs line rest ne pos (full e plain n) =
    omega (arith, ap length e, length-append line rest)
Got-shorter k [] line rest ne pos (at_end e done plain le) = absurd (ne refl)
Got-shorter k (c ∷ cs) line rest ne pos (at_end e done plain le) = omega (arith, ap length done)

-- The lines of a file, on fuel.
abbrev pub cut_file : ℕ → Str → List Str
cut_file zero file = []
cut_file (suc fuel) [] = []
cut_file (suc fuel) (c ∷ cs) =
    (fgets (line_size - 1) (c ∷ cs)).0 ∷ cut_file fuel (fgets (line_size - 1) (c ∷ cs)).1

rest-length :
    (fuel c : ℕ) (cs : Str)
    → length (c ∷ cs) < suc fuel
    → length (fgets (line_size - 1) (c ∷ cs)).1 < fuel
rest-length fuel c cs lt =
    let got = fgets-Got (line_size - 1) (c ∷ cs) in
    let ne : c ∷ cs ≢ [] = λ e. cc in
    omega (arith, Got-shorter (line_size - 1) (c ∷ cs) _ _ ne (omega arith) got)

pub cut_file-Chunks :
    (fuel : ℕ) (file : Str) → length file < fuel → Chunks file (cut_file fuel file)
cut_file-Chunks zero file lt = absurd (omega arith)
cut_file-Chunks (suc fuel) [] lt = no_lines
cut_file-Chunks (suc fuel) (c ∷ cs) lt =
    more_lines (c ∷ cs) _ _ _ (λ e. cc) (fgets-Got (line_size - 1) (c ∷ cs))
      (cut_file-Chunks fuel _ (rest-length fuel c cs lt))

pub batch_loop-runs :
    (fuel : ℕ) (os : Os) (file : Str) (s : Shell)
    → length file < fuel
    → batch_loop fuel os file s ≡ some (run_lines os (cut_file fuel file) s)
unfolding batch_loop
batch_loop-runs zero os file s lt = absurd (omega arith)
batch_loop-runs (suc fuel) os [] s lt = refl
batch_loop-runs (suc fuel) os (c ∷ cs) s lt =
    go (execute_line os (up_to_zero (fgets (line_size - 1) (c ∷ cs)).0) s)
      (λ t. batch_loop-runs fuel os (fgets (line_size - 1) (c ∷ cs)).1 t (rest-length fuel c cs lt))
  where
    go :
        (o : Outcome)
        → ((t : Shell)
            → batch_loop fuel os (fgets (line_size - 1) (c ∷ cs)).1 t
              ≡ some (run_lines os (cut_file fuel (fgets (line_size - 1) (c ∷ cs)).1) t))
        → (elim o [
          | running t ↦ batch_loop fuel os (fgets (line_size - 1) (c ∷ cs)).1 t
          | exited b ↦ some (exited b)
          | blocked ↦ some blocked
          | fault ↦ some fault
        ])
          ≡ some (bind o (λ t. run_lines os (cut_file fuel (fgets (line_size - 1) (c ∷ cs)).1) t))
    go (running t) ih = ih t
    go (exited b) ih = refl
    go blocked ih = refl
    go fault ih = refl

-- With a round of fuel for each character of the file and one more, the loop of `batchMode` ends: it
-- runs the lines of the file in order, each with its newline, up to 250 characters at a time.
batch_loop-Chunks :
    (fuel : ℕ) (os : Os) (file : Str) (s : Shell)
    → length file < fuel
    → (lines : List Str) × Chunks file lines
      × (batch_loop fuel os file s ≡ some (run_lines os lines s))
batch_loop-Chunks fuel os file s lt =
    (cut_file fuel file, cut_file-Chunks fuel file lt, batch_loop-runs fuel os file s lt)
