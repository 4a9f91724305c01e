-- ===== src/Yashd/Tests.antt =====
-- Tests of Project 2/yashd, and its theorems at concrete inputs.
use system_prog.Base.{
  ℕ, zero, suc, ◌+◌, ◌≤◌, ◌≡◌, refl, true, false, none, some, List, [], ◌∷◌, ◌++◌, arith, Str,
  bytes,
}
use system_prog.Yash.Types.{no_cmd, running, done}
use system_prog.Yashd.Types.{
  buf_size, Job, Session, Effect, Sent, sent, deliver, spawn, kill_group, close_fd, log, sigkill,
  emit, feed, sigint, sigtstp,
}
use system_prog.Yash.Parse.{
  is_blank, skip_blanks, cut_token, strtok, take_token, tokenize_loop, tokenize, redirect_slot,
  round_amp, round_word, round, scan, is_trailing, trim, finish, parse_tokens,
}
use system_prog.Yash.Parse
use system_prog.Yash.Jobs.{is_live, is_done}
use system_prog.Yash.Shell.{builtin_of}
use system_prog.Yashd.Parse.{without_infd, parse_line}
use system_prog.Yashd.Output.Delivery.{Wrote, session_write-Wrote}
use system_prog.Yashd.Output.{
  write_loop, session_write, session_puts, session_prompt, session_printf,
}
use system_prog.Yashd.Input.{
  Read, got, Line, session_readsocket, split_line, strip_cr, buf_take_line, buf_fill, after_fill,
  fill_round,
}
use system_prog.Yashd.Input
use system_prog.Yashd.Input.Framing.{Received, session_readsocket-Received}
use system_prog.Yashd.Jobs.{
  died, eintr, poll_job, jobs_count, count_jobs, jobs_add, jobs_reap, collect, sweep, jobs_kill_all,
  kill_each, outwait, next_jid, done_mark, jobs_current, current_from, jobs_print_one, row,
  jobs_remove, unlink, reap_job, polled, is_fg, find_job, put_job, clear_pid, clear_in,
}
use system_prog.Yashd.Jobs.Counting.{IsCounted, poll_job-IsCounted}
use system_prog.Yashd.Exec.{Spawn, launch, enter, pipe_ends, exec_job, fork_all}
use system_prog.Yashd.Foreground.{
  Round, foreground, settle, is_done_job, run_builtin, builtin_try, jobs_wait_fg, live_children,
  fg_round, pumped, poll_fg, polled_fg, finish_fg,
}
use system_prog.Yashd.Session.{
  Turn, run_job, is_quit, handle_cmd, dispatch, after_read, session_destroy, turn, session_main,
}
use system_prog.Yashd.Dispatch.{
  timeout, readable, has_prefix, session_pump, after_select, drain, dispatch_running, handle_ctl,
  ctl_of, ctl_action, signal_fg, fg_job, handle_text, open_input, feed_line, write_feed,
  write_feed_on,
}
use system_prog.Yashd.Session.Running.{spawned, jobs_wait_fg_alone}
use system_prog.Yashd.Session.Wellformed.{IsIdle}
use system_prog.Yashd.Session.Loop.{turn-IsIdle, killed, groups, session_at_end, session_main_ends}
use system_prog.Yashd.Session.Deaf.{jobs_wait_fg_deaf}
use system_prog.Yashd.Session.Full.{Starts, IsFork, shut_down, exec_job_full}

abbrev fresh : Session
fresh = record {
  cfd = 4;
  table = [];
  fg = none;
  inbuf = [];
  quit = false;
  sends = [];
  feeds = [];
  trace = [];
}

abbrev split_writes : Session
split_writes = record fresh { sends = sent 1 ∷ Sent.interrupted ∷ sent 1 ∷ [] }

session_write-Wrote_example :
    Wrote (bytes "\n# ") split_writes (session_write (bytes "\n# ") split_writes)
session_write-Wrote_example = session_write-Wrote (bytes "\n# ") split_writes

abbrev packets : List Read
packets = got (bytes "CM") ∷ Input.interrupted ∷ got (bytes "D ls\nCTL") ∷ []

session_readsocket-Received_example :
    Received (bytes "CMD ls") (bytes "CTL") false buf_size packets fresh
session_readsocket-Received_example =
    session_readsocket-Received packets false buf_size fresh (bytes "CMD ls") (bytes "CTL")
      (ground arith) (omega arith) (omega arith) (omega arith) refl

-- A line that fills the buffer.
abbrev filled : ℕ → Str
filled zero = []
filled (suc n) = b'x' ∷ filled n

-- A pipeline of which one child is left.
abbrev pipeline : Job
pipeline = record {
  jid = 1;
  pgid = 100;
  state = running;
  background = false;
  nlive = 2;
  infd = some 7;
  cmds =
      record no_cmd { argv = bytes "ls" ∷ []; pid = 100 }
      ∷ record no_cmd { argv = bytes "wc" ∷ []; pid = 101 }
      ∷ [];
  cmdline = bytes "ls | wc";
}

abbrev half_done : Job
half_done = record pipeline {
  nlive = 1;
  cmds =
      record no_cmd { argv = bytes "ls" ∷ []; pid = 0 }
      ∷ record no_cmd { argv = bytes "wc" ∷ []; pid = 101 }
      ∷ [];
}

poll_job-IsCounted_example : IsCounted half_done × (1 ≤ 2)
unfolding poll_job clear_pid clear_in
poll_job-IsCounted_example =
    poll_job-IsCounted (eintr ∷ died 100 ∷ []) pipeline half_done false false [] refl (omega arith)
      refl

-- The client sends a CMD and an interrupt while the pipeline runs in the foreground.
abbrev busy : Session
busy = record fresh { table = pipeline ∷ []; fg = some 1; inbuf = bytes "CMD ls\nCTL c\nCT" }

abbrev rounds : List Round
rounds =
    record { ready = timeout; polls = died 100 ∷ [] }
    ∷ record { ready = readable (got (bytes "L z\n")); polls = died 101 ∷ [] }
    ∷ []

abbrev calmed : Session
calmed = record fresh {
  table =
      record half_done {
        state = done;
        nlive = 0;
        cmds =
            record no_cmd { argv = bytes "ls" ∷ [] }
            ∷ record no_cmd { argv = bytes "wc" ∷ [] }
            ∷ [];
      }
      ∷ [];
  fg = some 1;
  trace =
      feed 7 (bytes "CMD ls")
      ∷ feed 7 (bytes "\n")
      ∷ kill_group 100 sigint
      ∷ kill_group 100 sigtstp
      ∷ [];
}

busy_waits : jobs_wait_fg rounds 1 busy ≡ some calmed
unfolding jobs_wait_fg live_children find_job fg_round session_pump after_select drain buf_take_line
    split_line strip_cr dispatch_running has_prefix handle_ctl ctl_of ctl_action signal_fg fg_job
    handle_text open_input feed_line write_feed write_feed_on buf_fill pumped poll_fg polled_fg
    poll_job clear_pid clear_in put_job finish_fg
busy_waits = refl

jobs_wait_fg_alone_example : (calmed.fg ≡ busy.fg) × (spawned calmed.trace ≡ spawned busy.trace)
jobs_wait_fg_alone_example = jobs_wait_fg_alone rounds 1 busy calmed busy_waits

-- Pids from `first` on; descriptors 7 and 8 for the input pipe, 9 and 10 for a pipeline's.
abbrev forks_from : ℕ → Spawn
forks_from first = record {
  inpipe = some (7, 8);
  pipe = some (9, 10);
  fork = λ i. some (first + i);
  memory = true;
}

abbrev turn_on : Str → ℕ → Turn
turn_on text first = record {
  polls = λ jid. [];
  reads = got text ∷ [];
  eintr = false;
  rounds = record { ready = timeout; polls = died first ∷ [] } ∷ [];
  spawn = forks_from first;
}

-- A background job, a foreground job, and `quit`.
abbrev commands : List Turn
commands =
    turn_on (bytes "CMD sleep 9 &\nCMD l") 100
    ∷ turn_on (bytes "s\r\n") 200
    ∷ turn_on (bytes "CMD quit\n") 300
    ∷ []

abbrev sleeping : Job
sleeping = record {
  jid = 1;
  pgid = 100;
  state = running;
  background = true;
  nlive = 1;
  infd = none;
  cmds = record no_cmd { argv = bytes "sleep" ∷ bytes "9" ∷ []; pid = 100 } ∷ [];
  cmdline = bytes "sleep 9";
}

abbrev after_sleep : Session
after_sleep = record fresh {
  table = sleeping ∷ [];
  inbuf = bytes "CMD l";
  trace =
      deliver (bytes "\n# ")
      ∷ log (bytes "sleep 9 &")
      ∷ spawn 100 100
      ∷ close_fd 7
      ∷ close_fd 8
      ∷ [];
}

sleep_runs : turn (turn_on (bytes "CMD sleep 9 &\nCMD l") 100) fresh ≡ some (after_sleep, true)
unfolding turn jobs_reap collect reap_job polled sweep is_done done_mark jobs_current current_from
    is_live jobs_print_one row session_printf session_prompt session_puts session_write write_loop
    session_readsocket buf_take_line split_line strip_cr fill_round buf_fill after_fill after_read
    dispatch has_prefix handle_cmd parse_line without_infd Parse.parse_line tokenize tokenize_loop
    take_token strtok skip_blanks cut_token is_blank parse_tokens scan round redirect_slot round_amp
    round_word finish trim is_trailing run_job is_quit builtin_try builtin_of run_builtin exec_job
    pipe_ends enter launch fork_all jobs_add jobs_count count_jobs next_jid foreground settle
    is_done_job jobs_remove unlink is_fg jobs_wait_fg live_children find_job fg_round session_pump
    after_select drain pumped poll_fg polled_fg poll_job clear_pid clear_in put_job finish_fg
sleep_runs = refl

fresh-IsIdle : IsIdle fresh
unfolding count_jobs
fresh-IsIdle = record { table = omega arith; fg = refl }

turn-IsIdle_example : IsIdle after_sleep
turn-IsIdle_example =
    turn-IsIdle (turn_on (bytes "CMD sleep 9 &\nCMD l") 100) fresh after_sleep true fresh-IsIdle
      sleep_runs

abbrev ended : Session
ended = record fresh {
  quit = true;
  trace =
      deliver (bytes "\n# ")
      ∷ log (bytes "sleep 9 &")
      ∷ spawn 100 100
      ∷ close_fd 7
      ∷ close_fd 8
      ∷ deliver (bytes "\n# ")
      ∷ log (bytes "ls")
      ∷ spawn 200 200
      ∷ close_fd 7
      ∷ close_fd 8
      ∷ deliver (bytes "\n# ")
      ∷ log (bytes "quit")
      ∷ kill_group 100 sigkill
      ∷ close_fd 4
      ∷ [];
}

session_runs : session_main commands (λ jid. died 100 ∷ []) fresh ≡ some ended
unfolding session_main session_destroy jobs_kill_all kill_each outwait turn jobs_reap collect
    reap_job polled sweep is_done done_mark jobs_current current_from is_live jobs_print_one row
    session_printf session_prompt session_puts session_write write_loop session_readsocket
    buf_take_line split_line strip_cr fill_round buf_fill after_fill after_read dispatch has_prefix
    handle_cmd parse_line without_infd Parse.parse_line tokenize tokenize_loop take_token strtok
    skip_blanks cut_token is_blank parse_tokens scan round redirect_slot round_amp round_word finish
    trim is_trailing run_job is_quit builtin_try builtin_of run_builtin exec_job pipe_ends enter
    launch fork_all jobs_add jobs_count count_jobs next_jid foreground settle is_done_job
    jobs_remove unlink is_fg jobs_wait_fg live_children find_job fg_round session_pump after_select
    drain pumped poll_fg polled_fg poll_job clear_pid clear_in put_job finish_fg
session_runs = refl

session_main_ends_example :
    (t : Session) × (es : List Effect) × (session_at_end commands fresh ≡ some t)
    × IsIdle t
    × (ended.trace ≡ (t.trace ++ es) ++ close_fd t.cfd ∷ [])
    × (killed es ≡ groups t.table)
    × (ended.table ≡ [])
    × (ended.fg ≡ none)
session_main_ends_example =
    session_main_ends commands (λ jid. died 100 ∷ []) fresh ended fresh-IsIdle session_runs

abbrev numbered : ℕ → ℕ → List Job
numbered n zero = []
numbered n (suc k) = record sleeping { jid = suc n; pgid = suc n } ∷ numbered (suc n) k

abbrev crowded : Session
crowded = record fresh { table = numbered 0 20 }

forks-IsFork : IsFork (forks_from 100)
forks-IsFork i pid h = ground arith

exec_job_full_example :
    (es : List Effect) × (g : ℕ) × Starts g es
    × (exec_job (forks_from 100) [] pipeline crowded
        ≡ some (
            emit
              ((es ++ ((close_fd 9 ∷ close_fd 10 ∷ []) ++ close_fd 7 ∷ [])) ++ shut_down false g 8)
              crowded))
unfolding jobs_count count_jobs pipe_ends fork_all
exec_job_full_example =
    exec_job_full (forks_from 100) [] pipeline crowded 7 8 (close_fd 9 ∷ close_fd 10 ∷ [])
      forks-IsFork (omega arith) refl refl (omega arith)

abbrev closed_job : Job
closed_job = record pipeline { infd = none }

-- The client has sent CTL c behind the CTL d, and is gone when the children die.
abbrev unheard : Session
unheard = record fresh { table = closed_job ∷ []; fg = some 1; inbuf = bytes "CTL c\n" }

abbrev deaf_rounds : List Round
deaf_rounds =
    record { ready = readable (got (bytes "CTL c\n")); polls = died 100 ∷ died 101 ∷ [] } ∷ []

abbrev unheard_end : Session
unheard_end = record unheard {
  quit = true;
  table =
      record closed_job {
        state = done;
        nlive = 0;
        cmds =
            record no_cmd { argv = bytes "ls" ∷ [] }
            ∷ record no_cmd { argv = bytes "wc" ∷ [] }
            ∷ [];
      }
      ∷ [];
}

unheard_waits :
    jobs_wait_fg deaf_rounds 1 (dispatch_running (bytes "CTL d") unheard) ≡ some unheard_end
unfolding jobs_wait_fg live_children find_job fg_round dispatch_running has_prefix handle_ctl ctl_of
    ctl_action fg_job open_input poll_fg polled_fg poll_job clear_pid clear_in put_job finish_fg
unheard_waits = refl

jobs_wait_fg_deaf_example :
    (unheard_end.trace ≡ unheard.trace) × (unheard_end.inbuf ≡ unheard.inbuf)
unfolding open_input fg_job find_job
jobs_wait_fg_deaf_example =
    jobs_wait_fg_deaf deaf_rounds 1 [] unheard unheard_end refl unheard_waits
