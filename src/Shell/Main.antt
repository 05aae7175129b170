-- ===== src/Shell/Main.antt =====
-- `batchMode` and `main` of myShell/hw1.c. The files and the calls of the login are parameters; what
-- `main` frees at its end is in Shell/Remembered.
pub mod Ran
use cos.Base.{suc, Bool, true, false, Option, none, some, List, [], ◌∷◌, if◌then◌else◌, length, Str}
use cos.Shell.Commands.{
  Shell, Os, Outcome, running, exited, blocked, fault, bind, wait_for_all_child_processes,
}
use cos.Shell.Lines.{shell_mode, batch_loop}

-- What the globals hold when `main` begins, but for the directory.
abbrev pub globals : (current_working_directory : Str) → Shell
globals directory = record {
  is_first_block = true;
  is_last_block = false;
  child_pids = [];
  current_working_directory = directory;
  history = [];
  output_buffer = [];
  started = [];
  forked_pids = [];
  waited_pids = [];
}

-- `batchMode`; the fuel is a round for each character and one more.
unfoldable pub batch_mode :
    Os → (fopen : Str → Option Str) → (filename : Str) → Shell → Option Outcome
batch_mode os fopen filename s = elim (fopen filename) [
  | none ↦ some (running s)
  | some file ↦ batch_loop (suc (length file)) os file s
]

-- The loop of `main` over the batch files.
unfoldable pub batch_files : Os → (fopen : Str → Option Str) → List Str → Shell → Option Outcome
batch_files os fopen [] s = some (running s)
batch_files os fopen (filename ∷ filenames) s = elim (batch_mode os fopen filename s) [
  | none ↦ none
  | some o ↦ elim (bind o (wait_for_all_child_processes os)) [
    | running t ↦ batch_files os fopen filenames t
    | exited b ↦ some (exited b)
    | blocked ↦ some blocked
    | fault ↦ some fault
  ]
]

-- Whether `getlogin_r` and `gethostname` succeed, and the directory that `getcwd` gives, if it does.
pub record Login : Type 0 where
  pub getlogin_r : Bool
  pub gethostname : Bool
  pub getcwd : Option Str

-- `main` up to the loop that frees the history: `input` is what `getchar` returns, and `filenames`
-- are the arguments behind the name of the program.
unfoldable pub shell_main :
    Login
    → Os
    → (fopen : Str → Option Str) → (input : Str) → (filenames : List Str) → Option Outcome
shell_main login os fopen input filenames =
    if login.getlogin_r
    then if login.gethostname
      then elim login.getcwd [
        | none ↦ some (exited false)
        | some directory ↦ elim filenames [
          | [] ↦ some (shell_mode os 0 [] input (globals directory))
          | f ∷ fs ↦ batch_files os fopen (f ∷ fs) (globals directory)
        ]
      ]
      else some (exited false)
    else some (exited false)
