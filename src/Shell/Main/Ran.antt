-- ===== src/Shell/Main/Ran.antt =====
-- What `main` of myShell/hw1.c runs of its batch files.
use cos.Base.{
  suc, ◌≡◌, refl, ap, ◌∙◌, inl, inr, Option-cases, map, Option, none, some, List, [], ◌∷◌, arith,
  length, Str, true,
}
use cos.Shell.Commands.{
  Shell, Os, Outcome, running, exited, blocked, fault, bind, wait_loop,
  wait_for_all_child_processes,
}
use cos.Shell.Lines.Input.{run_lines}
use cos.Shell.Lines.Batch.{Chunks, cut_file, cut_file-Chunks, batch_loop-runs}
use cos.Shell.Lines.After.{
  Running, Running-bind, Running-mono, Tracked, AllEnded, AllEnded-Tracked, wait_loop-AllEnded,
  execute_line-Tracked,
}
use cos.Base.{up_to_zero}
use cos.Shell.Lines.{execute_line}
use cos.Shell.Main.{globals, batch_mode, batch_files, Login, shell_main}

-- The files by these names hold these lines; a name that is no file stands for none.
pub data Opened (fopen : Str → Option Str) : List Str → List (List Str) → Type 0 where
  no_files : Opened fopen [] []
  missing :
      (filename : Str) (filenames : List Str) (files : List (List Str))
      → fopen filename ≡ none
      → Opened fopen filenames files
      → Opened fopen (filename ∷ filenames) ([] ∷ files)
  found :
      (filename file : Str) (lines : List Str) (filenames : List Str) (files : List (List Str))
      → fopen filename ≡ some file
      → Chunks file lines
      → Opened fopen filenames files
      → Opened fopen (filename ∷ filenames) (lines ∷ files)

-- The lines of each file in order, and a wait for the child processes behind each file.
abbrev pub run_files : Os → List (List Str) → Shell → Outcome
run_files os [] s = running s
run_files os (lines ∷ files) s =
    bind (bind (run_lines os lines s) (wait_for_all_child_processes os)) (run_files os files)

-- A file goes on where the run of its lines does.
batch_files-next :
    (os : Os) (fopen : Str → Option Str) (filename : Str) (filenames : List Str) (s : Shell)
    (lines : List Str) (files : List (List Str))
    → batch_mode os fopen filename s ≡ some (run_lines os lines s)
    → ((t : Shell) → batch_files os fopen filenames t ≡ some (run_files os files t))
    → batch_files os fopen (filename ∷ filenames) s ≡ some (run_files os (lines ∷ files) s)
unfolding batch_files
batch_files-next os fopen filename filenames s lines files here ih =
    rw (batch_files, here) (go (bind (run_lines os lines s) (wait_for_all_child_processes os)))
  where
    go :
        (o : Outcome)
        → (elim o [
          | running t ↦ batch_files os fopen filenames t
          | exited b ↦ some (exited b)
          | blocked ↦ some blocked
          | fault ↦ some fault
        ])
          ≡ some (bind o (run_files os files))
    go (running t) = ih t
    go (exited b) = refl
    go blocked = refl
    go fault = refl

-- The lines of a file that is there.
abbrev lines_of : Option Str → List Str
lines_of none = []
lines_of (some file) = cut_file (suc (length file)) file

batch_mode-runs :
    (os : Os) (fopen : Str → Option Str) (filename : Str) (s : Shell)
    → batch_mode os fopen filename s ≡ some (run_lines os (lines_of (fopen filename)) s)
unfolding batch_mode
batch_mode-runs os fopen filename s = elim (Option-cases (fopen filename)) [
  | inl e ↦ rw (batch_mode, e) refl
  | inr (file, e) ↦ rw (batch_mode, e) (batch_loop-runs (suc (length file)) os file s (omega arith))
]

batch_files-runs :
    (os : Os) (fopen : Str → Option Str) (filenames : List Str) (s : Shell)
    → batch_files os fopen filenames s
      ≡ some (run_files os (map (λ filename. lines_of (fopen filename)) filenames) s)
unfolding batch_files
batch_files-runs os fopen [] s = refl
batch_files-runs os fopen (filename ∷ filenames) s =
    batch_files-next os fopen filename filenames s _ _ (batch_mode-runs os fopen filename s)
      (batch_files-runs os fopen filenames)

all-Opened :
    (fopen : Str → Option Str) (filenames : List Str)
    → Opened fopen filenames (map (λ filename. lines_of (fopen filename)) filenames)
all-Opened fopen [] = Opened.no_files
all-Opened fopen (filename ∷ filenames) = elim (Option-cases (fopen filename)) [
  | inl e ↦ rw e (Opened.missing filename filenames _ e (all-Opened fopen filenames))
  | inr (file, e) ↦ rw e (
      Opened.found filename file _ filenames _ e
        (cut_file-Chunks (suc (length file)) file (omega arith)) (all-Opened fopen filenames))
]

run_lines-Tracked :
    (os : Os) (lines : List Str) (s : Shell) → Tracked s → Running Tracked (run_lines os lines s)
run_lines-Tracked os [] s track = track
run_lines-Tracked os (line ∷ lines) s track =
    Running-bind _ _ (execute_line os (up_to_zero line) s) (λ t. run_lines os lines t)
      (execute_line-Tracked os (up_to_zero line) s track) (run_lines-Tracked os lines)

run_files-AllEnded :
    (os : Os) (files : List (List Str)) (s : Shell)
    → AllEnded s
    → Running AllEnded (run_files os files s)
unfolding wait_for_all_child_processes
run_files-AllEnded os [] s ended = ended
run_files-AllEnded os (lines ∷ files) s ended =
    Running-bind AllEnded AllEnded (bind (run_lines os lines s) (wait_for_all_child_processes os))
      (run_files os files)
      (Running-bind Tracked AllEnded (run_lines os lines s) (wait_for_all_child_processes os)
        (run_lines-Tracked os lines s (AllEnded-Tracked s ended))
        (λ t track.
          Running-mono _ AllEnded (wait_loop os t.child_pids t) (λ u h. h.1)
            (wait_loop-AllEnded os t.child_pids t track)))
      (run_files-AllEnded os files)

-- Where the calls of the login succeed, `main` with the names of some batch files runs the lines of the
-- files that are there, in order, as `fgets` gives them and each up to its first zero byte, with a
-- wait for the child processes behind each file, and does nothing else: it comes to whatever that run
-- comes to, which may be a `read` that never returns. The loops over the lines and the files need no
-- more rounds than they have. If the run comes to its end, no child is left in the table, and
-- `waitpid` has returned for every process that was forked.
pub shell_main-Opened :
    (os : Os) (fopen : Str → Option Str) (input directory : Str) (login : Login) (filename : Str)
    (filenames : List Str)
    → login ≡ record { getlogin_r = true; gethostname = true; getcwd = some directory }
    → (files : List (List Str)) × Opened fopen (filename ∷ filenames) files
      × (shell_main login os fopen input (filename ∷ filenames)
          ≡ some (run_files os files (globals directory)))
      × Running AllEnded (run_files os files (globals directory))
unfolding shell_main
shell_main-Opened os fopen input directory login filename filenames e =
    let files = map (λ filename. lines_of (fopen filename)) (filename ∷ filenames) in
    (
      files,
      all-Opened fopen (filename ∷ filenames),
      ap (λ l. shell_main l os fopen input (filename ∷ filenames)) e
          ∙ batch_files-runs os fopen (filename ∷ filenames) (globals directory),
      run_files-AllEnded os files (globals directory) (refl, refl),
    )
