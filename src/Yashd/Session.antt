-- ===== src/Yashd/Session.antt =====
-- A session from its start to its end: handle_cmd, dispatch and session_main of
-- Project 2/yashd/server/src/session.c.
pub mod Running
pub mod Drain
pub mod Serving
pub mod Wellformed
pub mod Commands
pub mod Loop
pub mod Full
pub mod Deaf
use system_prog.Base.{
  ℕ, zero, suc, ◌+◌, Bool, true, false, ◌&&◌, not, Option, none, some, List, [], ◌∷◌, ◌++◌, Str,
  length, drop, str_eq, ◌==◌, if◌then◌else◌,
}
use system_prog.Yash.Types.{Cmd, JobState, running, done}
use system_prog.Yash.Jobs.{is_stopped, is_done, running_word}
use system_prog.Yash.Shell.{Builtin, jobs_cmd, fg_cmd, bg_cmd, no_builtin, builtin_of}
use system_prog.Yashd.Types.{
  buf_size, msg_cmd, msg_ctl, Job, Signal, sigint, sigtstp, sigcont, sigkill, Effect, kill_group,
  close_fd, feed, spawn, log, Session, Sent, emit,
}
use system_prog.Yashd.Output.{session_printf, session_prompt}
use system_prog.Yashd.Input.{
  buf_take_line, Read, Fill, end_of_file, buf_fill, Line, line, disconnected, failed,
  session_readsocket,
}
use system_prog.Yashd.Jobs.{
  Poll, jobs_init, find_job, put_job, jobs_add, jobs_remove, jobs_current, jobs_recent_stopped,
  poll_job, jobs_reap, jobs_print_one, jobs_print, jobs_kill_all, close_effects,
}
use system_prog.Yashd.Parse.{Parsed, ok, empty, error, parse_line}
use system_prog.Yashd.Dispatch.{
  fg_job, update, Ctl, ctl_int, ctl_stop, ctl_eof, ctl_other, ctl_of, signal_fg, open_input,
  close_input, ctl_action, handle_ctl, write_feed_on, write_feed, feed_line, handle_text,
  has_prefix, dispatch_running, drain, drain_all, Ready, timeout, readable, after_select,
  session_pump,
}
use system_prog.Yashd.Foreground.{
  Round, polled_fg, poll_fg, abandon, pumped, fg_round, live_children, finish_fg, jobs_wait_fg,
  is_done_job, settle, foreground, resume_effects, do_fg, do_bg, run_builtin, builtin_try,
}
use system_prog.Yashd.Exec.{Spawn, Forked, fork_all, launch, pipe_ends, enter, exec_job}

abbrev pub quit_name : Str
quit_name = b'q' ∷ b'u' ∷ b'i' ∷ b't' ∷ []

unfoldable pub is_quit : List Cmd → Bool
is_quit [] = false
is_quit (c ∷ d ∷ cs) = false
is_quit (c ∷ []) = elim c.argv [ [] ↦ false | name ∷ args ↦ str_eq name quit_name ]

unfoldable pub run_job : Spawn → List Round → Job → Session → Option Session
run_job sp rs job s = elim (is_quit job.cmds) [
  | true ↦ some (record s { quit = true })
  | false ↦ elim (builtin_try rs job s) [
    | none ↦ none
    | some (s', handled) ↦ elim handled [ true ↦ some s' | false ↦ exec_job sp rs job s' ]
  ]
]

-- `log_command` writes one entry for the line.
unfoldable pub handle_cmd : Spawn → List Round → Str → Session → Option Session
handle_cmd sp rs cmdline s = elim (parse_line (some cmdline)) [
  | ok job ↦ run_job sp rs job (emit (log cmdline ∷ []) s)
  | empty ↦ some s
  | error ↦ some s
]

unfoldable pub dispatch : Spawn → List Round → Str → Session → Option Session
dispatch sp rs text s =
    if has_prefix msg_cmd text
    then handle_cmd sp rs (drop 4 text) s
    else some (dispatch_running text s)

-- One round of `session_main`, with what the kernel and the client supply.
pub record Turn : Type 0 where
  pub polls : ℕ → List Poll
  pub reads : List Read
  pub eintr : Bool
  pub rounds : List Round
  pub spawn : Spawn

unfoldable pub after_read : Turn → Option (Line × Session) → Option (Session × Bool)
after_read t none = none
after_read t (some (disconnected, s)) = some (s, false)
after_read t (some (failed, s)) = some (s, false)
after_read t (some (line text, s)) = elim (dispatch t.spawn t.rounds text s) [
  | none ↦ none
  | some s' ↦ some (s', not s'.quit)
]

-- The flag is false where the loop breaks; `none` is a wait for the client or for a job.
unfoldable pub turn : Turn → Session → Option (Session × Bool)
turn t s =
    let (s', sent) = session_prompt (jobs_reap t.polls s) in
    elim sent [
      | false ↦ some (s', false)
      | true ↦ after_read t (session_readsocket t.reads t.eintr buf_size s')
    ]

-- `calloc` may fail; the answers of the kernel to the session's writes are its arguments.
unfoldable pub session_create : Bool → ℕ → List Sent → List Bool → Option Session
session_create memory cfd sends feeds =
    if memory
    then some (
        jobs_init (record {
          cfd = cfd;
          table = [];
          fg = none;
          inbuf = [];
          quit = false;
          sends = sends;
          feeds = feeds;
          trace = [];
        }))
    else none

unfoldable pub session_destroy : (ℕ → List Poll) → Session → Option Session
session_destroy polls s = elim (jobs_kill_all polls s) [
  | none ↦ none
  | some s' ↦ some (emit (close_fd s'.cfd ∷ []) s')
]

unfoldable pub session_main : List Turn → (ℕ → List Poll) → Session → Option Session
session_main [] polls s = none
session_main (t ∷ ts) polls s = elim (turn t s) [
  | none ↦ none
  | some (s', more) ↦ elim more [
    | true ↦ session_main ts polls s'
    | false ↦ session_destroy polls s'
  ]
]
