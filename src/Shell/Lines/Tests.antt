-- ===== src/Shell/Lines/Tests.antt =====
-- Runs of the commands and lines of myShell/hw1.c, and the theorems about them at concrete inputs.
use cos.Shell.Main.{globals, Login, shell_main}
use cos.Shell.Main.Ran.{Opened, run_files, shell_main-Opened}
use cos.Base.{
  map, Option, str_eq, ◌+◌, ◌≡◌, refl, true, false, none, some, List, [], ◌∷◌, ◌++◌, ltb,
  if◌then◌else◌, length, Str, codes,
}
use cos.Shell.Words.{trim, parse_command, max_args_count}
use cos.Shell.Words.Parse.{Spaced, parse_command-Spaced}
use cos.Shell.Commands.{Shell, Os, running, execute_command, print_history, exec}
use cos.Shell.Commands.Children.{Executed, execute_command-Executed}
use cos.Shell.Words.{strtok, parse_loop, command_after}
use cos.Shell.Commands.{
  execute_trimmed, execute_args, create_child_process, wait_for_all_child_processes,
  copy_process_output_to_buffer, execute_history,
}
use cos.Shell.Lines.{line_loop, count_pipes}
use cos.Shell.Lines.{execute_line, shell_mode}
use cos.Shell.Lines.Split.{Line, Cut, text, run_line, execute_line-runs}
use cos.Shell.Lines.Input.{run_lines}
use cos.Shell.Lines.Session.{Session, held, shell_mode-Session}
use cos.Shell.Lines.After.{AllEnded, Running, Done, commands, execute_line-Done}
use cos.Shell.Words.{parse_loop}

abbrev home : Str
home = codes "/home"

-- A system on which every call succeeds, and every block prints "ok".
abbrev os : Os
os = record {
  pipe = λ s. true;
  fork = λ s. some (100 + length s.started);
  waitpid = λ pid. true;
  chdir = λ old directory. directory;
  read = λ s. some (codes "ok");
}

abbrev fresh : Shell
fresh = record {
  is_first_block = true;
  is_last_block = false;
  child_pids = [];
  current_working_directory = home;
  history = [];
  output_buffer = [];
  started = [];
  forked_pids = [];
  waited_pids = [];
}

trims : trim (codes "  ls -l ") ≡ codes "ls -l"
unfolding trim
trims = refl

parses : parse_command (codes "ls  -l") ≡ some (codes "ls" ∷ codes "-l" ∷ [])
unfolding parse_command parse_loop strtok
parses = refl

-- A pipeline of two blocks: `history` in the second sees the commands of the line.
pipeline :
    execute_line os (codes "ls -l | history") fresh
    ≡ running (record fresh {
      history = codes "ls -l" ∷ codes "history" ∷ [];
      output_buffer = codes "ok";
      started =
          record { program = exec (codes "ls" ∷ codes "-l" ∷ []); input = none; to_pipe = true }
          ∷ record {
            program = print_history ((1, codes "ls -l") ∷ (2, codes "history") ∷ []);
            input = some (codes "ok");
            to_pipe = false;
          }
          ∷ [];
      forked_pids = 100 ∷ 101 ∷ [];
      waited_pids = 100 ∷ 101 ∷ [];
    })
unfolding execute_line line_loop execute_command execute_trimmed trim parse_command strtok
    execute_args command_after create_child_process wait_for_all_child_processes
    copy_process_output_to_buffer count_pipes execute_history
pipeline = refl

parse_command-Spaced_example :
    (args : List Str) × Spaced (codes "ls  -l") args
    × (parse_command (codes "ls  -l")
        ≡ (if ltb (length args) max_args_count then some args else none))
parse_command-Spaced_example = parse_command-Spaced (codes "ls  -l")

execute_command-Executed_example :
    Executed os fresh (trim (codes " cd /tmp")) (execute_command os (codes " cd /tmp") fresh)
execute_command-Executed_example = execute_command-Executed os (codes " cd /tmp") fresh

execute_line-runs_example :
    (l : Line) × Cut l
    × (text l ≡ codes "ls ; cat | wc")
    × (execute_line os (codes "ls ; cat | wc") fresh ≡ run_line os true l fresh)
execute_line-runs_example = execute_line-runs os (codes "ls ; cat | wc") fresh refl

execute_line-Done_example :
    (l : Line) × Cut l
    × (text l ≡ codes "ls | wc")
    × Running (Done ([] ++ commands l)) (execute_line os (codes "ls | wc") fresh)
execute_line-Done_example = execute_line-Done os (codes "ls | wc") fresh refl refl

abbrev two_lines : Str
two_lines = codes "ls\ncd /\nx"

shell_mode-Session_example :
    (lines : List Str) × Session two_lines lines
    × (shell_mode os 0 [] two_lines fresh ≡ run_lines os (map held lines) fresh)
shell_mode-Session_example = shell_mode-Session os two_lines fresh

-- A script; no other file is there.
abbrev script : Str → Option Str
script filename = if str_eq filename (codes "a.sh") then some (codes "ls\ncd /tmp\n") else none

abbrev login : Login
login = record { getlogin_r = true; gethostname = true; getcwd = some home }

shell_main-Opened_example :
    (files : List (List Str)) × Opened script (codes "a.sh" ∷ codes "b.sh" ∷ []) files
    × (shell_main login os script [] (codes "a.sh" ∷ codes "b.sh" ∷ [])
        ≡ some (run_files os files (globals home)))
    × Running AllEnded (run_files os files (globals home))
shell_main-Opened_example =
    shell_main-Opened os script [] home login (codes "a.sh") (codes "b.sh" ∷ []) refl
