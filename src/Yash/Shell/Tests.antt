-- ===== src/Yash/Shell/Tests.antt =====
-- Tests of the shell process of Project 1/yash, and its theorems at concrete inputs.
use system_prog.Base.{ℕ, zero, suc, ◌+◌, ◌≡◌, refl, true, some, List, [], ◌∷◌, arith, bytes}
use system_prog.Yash.Types.{Cmd, no_cmd, Job, running}
use system_prog.Yash.Parse.{
  is_blank, skip_blanks, cut_token, strtok, take_token, tokenize_loop, tokenize, redirect_slot,
  round_amp, round_word, round, scan, is_trailing, trim, finish, parse_tokens, parse_line,
}
use system_prog.Yash.Jobs.{
  Table, wif_exited, Wait, exit, jobs_count, next_jid, jobs_add, jobs_remove, jobs_current,
  current_from, is_live, is_done, has_pid, report_job, report, collect, sweep, done_mark, jobs_reap,
  jobs_print_one, decimal, decimal_loop, jobs_wait_fg, killed_groups,
}
use system_prog.Yash.Jobs.Order.{IsTable}
use system_prog.Yash.Shell.{
  World, Spawn, Effect, spawn, print, Turn, Input, line, sig_give_terminal, settle, foreground,
  builtin_of, run_builtin, builtin_try, fork_all, launch, enter, exec_job, run_job, run_line, reap,
  leave, act, turn, run, chomp,
}
use system_prog.Yash.Shell.Wellformed.{IsPrompt, run-IsPrompt}
use system_prog.Yash.Shell.Children.{killed, Positive, exec_job_untracked}

-- Pids from `first` on.
abbrev forks_from : ℕ → Spawn
forks_from first = record { pipe = true; fork = λ i. some (first + i); memory = true }

abbrev start : List Wait → World
start ws = record { table = []; terminal = 9; shell_pgid = 9; waits = ws; trace = [] }

abbrev turn_of : Input → Turn
turn_of i = record { reports = []; input = i; spawn = forks_from 100 }

abbrev session : List Turn
session =
    turn_of (line (bytes "sleep 5 &\n"))
    ∷ record (turn_of (line (bytes "ls\n"))) { spawn = forks_from 200 }
    ∷ record (turn_of (line (bytes "\n"))) { reports = (100, wif_exited) ∷ [] }
    ∷ []

abbrev after_session : World
after_session = record (start []) {
  trace =
      print (bytes "# ")
      ∷ spawn 100 100
      ∷ print (bytes "# ")
      ∷ spawn 200 200
      ∷ print (bytes "[1] + Done\tsleep 5 &\n")
      ∷ print (bytes "# ")
      ∷ [];
}

session_runs : run session (start (exit ∷ [])) ≡ some (after_session, true)
unfolding run turn act reap run_line run_job chomp parse_line tokenize tokenize_loop take_token
    strtok skip_blanks cut_token is_blank parse_tokens scan round redirect_slot round_amp round_word
    finish trim is_trailing builtin_try builtin_of run_builtin exec_job enter launch fork_all
    jobs_add jobs_count next_jid foreground settle jobs_wait_fg sig_give_terminal jobs_remove
    jobs_reap collect report has_pid report_job sweep is_done done_mark jobs_current current_from
    is_live jobs_print_one decimal decimal_loop
session_runs = refl

start-IsPrompt : (ws : List Wait) → IsPrompt (start ws)
unfolding jobs_count
start-IsPrompt ws = omega arith

run-IsPrompt_example : IsPrompt after_session
run-IsPrompt_example =
    run-IsPrompt session (start (exit ∷ [])) after_session true session_runs
      (start-IsPrompt (exit ∷ []))

abbrev pipeline : List Cmd
pipeline = record no_cmd { argv = bytes "ls" ∷ [] } ∷ record no_cmd { argv = bytes "wc" ∷ [] } ∷ []

forks-Positive : Positive (forks_from 100)
forks-Positive i pid h = ground arith

abbrev sleep_job : Job
sleep_job = record {
  jid = 0;
  pgid = 0;
  state = running;
  background = true;
  nlive = 0;
  cmds = record no_cmd { argv = bytes "sleep" ∷ [] } ∷ [];
  cmdline = bytes "sleep";
}

abbrev numbered : ℕ → ℕ → Table
numbered n zero = []
numbered n (suc k) = record sleep_job { jid = suc n; pgid = suc n; nlive = 1 } ∷ numbered (suc n) k

abbrev crowded : World
crowded = record (start []) { table = numbered 0 20 }

crowded-IsTable : IsTable crowded.table
unfolding jobs_count
crowded-IsTable = omega arith

exec_job_untracked_example :
    (w' : World) × (exec_job (forks_from 100) sleep_job crowded ≡ some w')
    × (w'.table ≡ crowded.table)
    × ((rest : List Effect) × (w'.trace ≡ spawn 100 100 ∷ rest))
    × (killed (leave w').trace ≡ killed_groups crowded.table)
unfolding jobs_count
exec_job_untracked_example =
    exec_job_untracked (forks_from 100) sleep_job (record no_cmd { argv = bytes "sleep" ∷ [] }) []
      crowded 100 crowded-IsTable (omega arith) refl refl refl
