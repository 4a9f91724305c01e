-- ===== src/Yashd/Foreground.antt =====
-- The foreground wait and the builtins: jobs_wait_fg of Project 2/yashd/server/src/jobs.c and
-- builtins.c.
use system_prog.Base.{
  ℕ, Bool, true, false, Option, none, some, List, [], ◌∷◌, ◌++◌, ◌==◌, if◌then◌else◌,
}
use system_prog.Yash.Types.{running, done}
use system_prog.Yash.Jobs.{is_stopped, is_done, running_word}
use system_prog.Yash.Shell.{Builtin, jobs_cmd, fg_cmd, bg_cmd, no_builtin, builtin_of}
use system_prog.Yashd.Types.{Job, sigcont, sigkill, Effect, kill_group, Session, emit}
use system_prog.Yashd.Output.{session_printf}
use system_prog.Yashd.Jobs.{
  Poll, find_job, jobs_remove, jobs_current, jobs_recent_stopped, poll_job, jobs_print_one,
  jobs_print,
}
use system_prog.Yashd.Dispatch.{update, Ready, session_pump}

-- A round of `jobs_wait_fg`: what `select` and the calls of `waitpid` come to.
pub record Round : Type 0 where
  pub ready : Ready
  pub polls : List Poll

-- `poll_job` on the job of the table; the flag is its result.
unfoldable pub polled_fg : Option (Job × Bool × List Poll) → Session → Option (Session × Bool)
polled_fg none s = none
polled_fg (some (job, hit, ps)) s = some (update job s, hit)

unfoldable pub poll_fg : List Poll → Bool → Option Job → Session → Option (Session × Bool)
poll_fg ps block none s = some (s, false)
poll_fg ps block (some job) s = polled_fg (poll_job ps job block) s

-- The client vanished: nothing can interrupt the job now.
unfoldable pub abandon : Option Job → Session → Session
abandon none s = record s { quit = true }
abandon (some job) s = emit (kill_group job.pgid sigkill ∷ []) (record s { quit = true })

unfoldable pub pumped : ℕ → Session × Bool → Session
pumped jid (s, true) = s
pumped jid (s, false) = abandon (find_job jid s.table) s

unfoldable pub fg_round : Round → ℕ → Session → Option (Session × Bool)
fg_round r jid s =
    if s.quit
    then poll_fg r.polls true (find_job jid s.table) s
    else (let s' = pumped jid (session_pump r.ready s) in
        poll_fg r.polls false (find_job jid s'.table) s')

unfoldable pub live_children : Option Job → ℕ
live_children none = 0
live_children (some job) = job.nlive

unfoldable pub finish_fg : Option Job → Session → Session
finish_fg none s = s
finish_fg (some job) s = update (record job { state = done }) s

-- `none` while the wait goes on.
unfoldable pub jobs_wait_fg : List Round → ℕ → Session → Option Session
jobs_wait_fg [] jid s =
    if live_children (find_job jid s.table) == 0
    then some (finish_fg (find_job jid s.table) s)
    else none
jobs_wait_fg (r ∷ rs) jid s = elim (live_children (find_job jid s.table) == 0) [
  | true ↦ some (finish_fg (find_job jid s.table) s)
  | false ↦ elim (fg_round r jid s) [
    | none ↦ none
    | some (s', hit) ↦ elim hit [ true ↦ some s' | false ↦ jobs_wait_fg rs jid s' ]
  ]
]

unfoldable pub is_done_job : Option Job → Bool
is_done_job none = false
is_done_job (some job) = is_done job.state

-- `s->fg_job = job; jobs_wait_fg(s, job); s->fg_job = NULL; if (done) jobs_remove(s, job);`
unfoldable pub settle : ℕ → Option Session → Option Session
settle jid none = none
settle jid (some s) =
    let s' = record s { fg = none } in
    some (if is_done_job (find_job jid s.table) then jobs_remove jid s' else s')

unfoldable pub foreground : List Round → ℕ → Session → Option Session
foreground rs jid s = settle jid (jobs_wait_fg rs jid (record s { fg = some jid }))

abbrev pub resume_effects : Job → List Effect
resume_effects job = if is_stopped job.state then kill_group job.pgid sigcont ∷ [] else []

unfoldable pub do_fg : List Round → Session → Option Session
do_fg rs s = elim (jobs_current s) [
  | none ↦ some s
  | some job ↦ foreground rs job.jid (
      emit (resume_effects job) (
        update (record job { background = false; state = running })
          (session_printf (job.cmdline ++ 10 ∷ []) s).0))
]

unfoldable pub do_bg : Session → Session
do_bg s = elim (jobs_recent_stopped s) [
  | none ↦ s
  | some job ↦
      let job' = record job { state = running; background = true } in
      jobs_print_one job' b'+' running_word
        (emit (kill_group job.pgid sigcont ∷ []) (update job' s))
]

unfoldable pub run_builtin : Builtin → List Round → Session → Option (Session × Bool)
run_builtin jobs_cmd rs s = some (jobs_print s, true)
run_builtin fg_cmd rs s = elim (do_fg rs s) [ none ↦ none | some s' ↦ some (s', true) ]
run_builtin bg_cmd rs s = some (do_bg s, true)
run_builtin no_builtin rs s = some (s, false)

unfoldable pub builtin_try : List Round → Job → Session → Option (Session × Bool)
builtin_try rs job s = run_builtin (builtin_of job.cmds) rs s
