-- ===== src/Yash/Tests.antt =====
-- Tests of the models of Project 1/yash, and the theorems about it at concrete inputs.
use system_prog.Base.{
  ℕ, ◌+◌, ◌≤◌, ◌≡◌, refl, Bool, true, false, none, some, List, [], ◌∷◌, arith, Str, bytes, All,
}
use system_prog.Yash.Types.{
  Cmd, no_cmd, Job, JobState, running, stopped, done, max_line, max_tokens,
}
use system_prog.Yash.Parse.{
  input, output, is_blank, skip_blanks, cut_token, strtok, take_token, tokenize_loop, tokenize,
  is_operator, redirect_slot, round_redirect, round_bar, round_amp, round_word, round, scan,
  is_trailing, trim, finish, parse_tokens, parse_line, ok, empty, error,
}
use system_prog.Yash.Parse.Tokens.{IsToken}
use system_prog.Yash.Parse.Grammar.{Line, piped, IsLine, print_line}
use system_prog.Yash.Parse.Accepts.{job_of, parse_line-print_line}
use system_prog.Yash.Parse.Sound.{parse_line_sound}
use system_prog.Yash.Jobs.{
  Table, Status, wif_exited, Wait, exit, stop, interrupted, jobs_count, jobs_remove, jobs_current,
  current_from, jobs_recent_stopped, recent_stopped_from, is_live, is_stopped, is_done, has_pid,
  report_job, report, collect, sweep, done_mark, jobs_reap, jobs_print_one, decimal, decimal_loop,
  jobs_wait_fg,
}
use system_prog.Yash.Jobs.Order.{IsTable}
use system_prog.Yash.Jobs.Reap.{kept, done_rows, mark_for, any_live, jobs_reap_lem}
use system_prog.Yash.Jobs.WaitFg.{jobs_wait_fg_done}
use system_prog.Yash.Redirect.{Streams, inherited, opened_write, child_streams}
use system_prog.Yash.Redirect.Precedence.{child_streams_lem}
use system_prog.Yash.Parse.Trim.{trim-append}

-- `sort -r < in > out | wc`
abbrev sort_wc : Line
sort_wc =
    piped
      (record {
        words = bytes "sort" ∷ bytes "-r" ∷ [];
        redirs = (input, bytes "in") ∷ (output, bytes "out") ∷ [];
      })
      (record { words = bytes "wc" ∷ []; redirs = [] })

sort_wc-IsLine : IsLine sort_wc
unfolding is_operator
sort_wc-IsLine = (
  record {
    some_word = omega arith;
    few_words = omega arith;
    words = (refl, (refl, tt));
    files = (refl, (refl, tt));
    distinct = (((λ e. cc), tt), (tt, tt));
  },
  record {
    some_word = omega arith;
    few_words = omega arith;
    words = (refl, tt);
    files = tt;
    distinct = tt;
  },
)

sort_wc-tokens : All IsToken (print_line sort_wc)
unfolding is_blank
sort_wc-tokens = ground arith

parse_line-print_line_example :
    parse_line (some (bytes "sort -r < in > out | wc"))
    ≡ ok (job_of sort_wc (bytes "sort -r < in > out | wc"))
parse_line-print_line_example =
    parse_line-print_line sort_wc sort_wc-IsLine sort_wc-tokens (omega arith)

parse_background :
    parse_line (some (bytes " sleep 5 & "))
    ≡ ok (record {
      jid = 0;
      pgid = 0;
      state = running;
      background = true;
      nlive = 0;
      cmds = record no_cmd { argv = bytes "sleep" ∷ bytes "5" ∷ [] } ∷ [];
      cmdline = bytes " sleep 5";
    })
unfolding parse_line tokenize tokenize_loop take_token strtok skip_blanks cut_token is_blank
    parse_tokens scan round redirect_slot round_amp round_word finish trim is_trailing
parse_background = refl

-- A second `&` before the end of the line, two pipes and a missing file are errors.
parse_errors :
    (parse_line (some (bytes "a & b")) ≡ error)
    × (parse_line (some (bytes "a | b | c")) ≡ error)
    × (parse_line (some (bytes "a >")) ≡ error)
    × (parse_line (some (bytes "a | b &")) ≡ error)
    × (parse_line (some (bytes "  ")) ≡ empty)
    × (parse_line none ≡ error)
unfolding parse_line tokenize tokenize_loop take_token strtok skip_blanks cut_token is_blank
    parse_tokens scan round redirect_slot round_amp round_bar round_redirect round_word finish
parse_errors = (refl, refl, refl, refl, refl, refl)

ls_job : Job
ls_job = record {
  jid = 0;
  pgid = 0;
  state = running;
  background = false;
  nlive = 0;
  cmds = record no_cmd { argv = bytes "ls" ∷ bytes "-l" ∷ [] } ∷ [];
  cmdline = bytes "ls -l";
}

parse_line_sound_example :
    (l : Line) × IsLine l
    × (5 ≤ max_line)
    × (tokenize (bytes "ls -l") max_tokens ≡ some (print_line l))
    × (ls_job ≡ job_of l (bytes "ls -l"))
unfolding ls_job parse_line tokenize tokenize_loop take_token strtok skip_blanks cut_token is_blank
    parse_tokens scan round redirect_slot round_word finish
parse_line_sound_example = parse_line_sound (bytes "ls -l") ls_job refl

-- The argument `a&` loses its ampersand.
trim-append_example : trim (bytes "echo a& &") ≡ trim (bytes "echo a")
unfolding is_trailing
trim-append_example = trim-append (bytes "echo a") (bytes "& &") (refl, (refl, (refl, tt)))

abbrev job_at : ℕ → JobState → Job
job_at n st = record {
  jid = n;
  pgid = 100 + n;
  state = st;
  background = true;
  nlive = 1;
  cmds = record no_cmd { argv = bytes "sleep" ∷ []; pid = 100 + n } ∷ [];
  cmdline = bytes "sleep";
}

abbrev three : Table
three = job_at 1 running ∷ job_at 2 stopped ∷ job_at 4 running ∷ []

three-IsTable : IsTable three
unfolding jobs_count
three-IsTable = omega arith

jobs_current_of_three :
    (jobs_current three ≡ some (job_at 4 running))
    × (jobs_recent_stopped three ≡ some (job_at 2 stopped))
unfolding jobs_current current_from is_live jobs_recent_stopped recent_stopped_from is_stopped
jobs_current_of_three = (refl, refl)

abbrev deaths : List (ℕ × Status)
deaths = (101, wif_exited) ∷ (7, wif_exited) ∷ (104, wif_exited) ∷ []

jobs_reap_lem_example :
    let now = collect deaths three in
    (jobs_reap deaths three ≡ (kept now, done_rows (mark_for (any_live now)) now))
jobs_reap_lem_example = jobs_reap_lem deaths three three-IsTable

jobs_reap_of_three :
    jobs_reap deaths three
    ≡ (job_at 2 stopped ∷ [], bytes "[1] - Done\tsleep &\n" ∷ bytes "[4] - Done\tsleep &\n" ∷ [])
unfolding jobs_reap collect report has_pid report_job sweep jobs_remove is_done done_mark
    jobs_current current_from is_live jobs_print_one decimal decimal_loop
jobs_reap_of_three = refl

jobs_wait_fg_done_example :
    (rest : List Wait) × (jobs_wait_fg (interrupted ∷ exit ∷ stop ∷ []) (job_at 1 running)
      ≡ some (record (job_at 1 running) { nlive = 0; state = done }, rest))
jobs_wait_fg_done_example =
    jobs_wait_fg_done (interrupted ∷ exit ∷ stop ∷ []) (job_at 1 running) (omega arith)

abbrev sort_cmd : Cmd
sort_cmd = record no_cmd { argv = bytes "sort" ∷ []; outfile = some (bytes "out") }

abbrev terminal_streams : Streams
terminal_streams = record { stdin = inherited 0; stdout = inherited 1; stderr = inherited 2 }

abbrev any_path : Str → Bool
any_path path = true

child_streams_lem_example :
    child_streams any_path any_path true 0 sort_cmd terminal_streams
    ≡ some
        (record { stdin = inherited 0; stdout = opened_write (bytes "out"); stderr = inherited 2 })
child_streams_lem_example =
    (child_streams_lem any_path any_path true 0 sort_cmd terminal_streams).0 refl refl refl
