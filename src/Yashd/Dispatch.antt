-- ===== src/Yashd/Dispatch.antt =====
-- Messages of the client while a job runs: handle_ctl, handle_text, dispatch_running and
-- session_pump of Project 2/yashd/server/src/session.c.
use system_prog.Base.{
  ℕ, zero, suc, Bool, true, false, ◌&&◌, Option, none, some, List, [], ◌∷◌, Str, length, drop, ◌==◌,
  if◌then◌else◌,
}
use system_prog.Yashd.Types.{
  buf_size, msg_ctl, Job, Signal, sigint, sigtstp, kill_group, close_fd, feed, Session, emit,
}
use system_prog.Yashd.Input.{buf_take_line, Read, end_of_file, buf_fill}
use system_prog.Yashd.Jobs.{find_job, put_job}

-- `s->fg_job`, read through the pointer.
unfoldable pub fg_job : Session → Option Job
fg_job s = elim s.fg [ none ↦ none | some jid ↦ find_job jid s.table ]

abbrev pub update : Job → Session → Session
update job s = record s { table = put_job job s.table }

-- The character `arg[0]` of a CTL message.
pub data Ctl : Type 0 where
  ctl_int ctl_stop ctl_eof ctl_other : Ctl

unfoldable pub ctl_of : Str → Ctl
ctl_of [] = ctl_other
ctl_of (c ∷ cs) =
    if c == b'c'
    then ctl_int
    else if c == b'z'
    then ctl_stop
    else if c == b'd'
    then ctl_eof
    else ctl_other

unfoldable pub signal_fg : Option Job → Signal → Session → Session
signal_fg none sig s = s
signal_fg (some job) sig s = emit (kill_group job.pgid sig ∷ []) s

-- `j != NULL && j->infd >= 0`
unfoldable pub open_input : Option Job → Option (Job × ℕ)
open_input none = none
open_input (some job) = elim job.infd [ none ↦ none | some fd ↦ some (job, fd) ]

unfoldable pub close_input : Job → ℕ → Session → Session
close_input job fd s = emit (close_fd fd ∷ []) (update (record job { infd = none }) s)

unfoldable pub ctl_action : Ctl → Session → Session
ctl_action ctl_int s = signal_fg (fg_job s) sigint s
ctl_action ctl_stop s = signal_fg (fg_job s) sigtstp s
ctl_action ctl_eof s = elim (open_input (fg_job s)) [
  | some (job, fd) ↦ close_input job fd s
  | none ↦ record s { quit = true }
]
ctl_action ctl_other s = s

unfoldable pub handle_ctl : Str → Session → Session
handle_ctl arg s = ctl_action (ctl_of arg) s

-- One `write` on the pipe of a job; the flag is false if it fails.
unfoldable pub write_feed_on : List Bool → ℕ → Str → Session → Session × Bool
write_feed_on [] fd text s = (emit (feed fd text ∷ []) s, true)
write_feed_on (true ∷ bs) fd text s = (emit (feed fd text ∷ []) (record s { feeds = bs }), true)
write_feed_on (false ∷ bs) fd text s = (record s { feeds = bs }, false)

unfoldable pub write_feed : ℕ → Str → Session → Session × Bool
write_feed fd text s = write_feed_on s.feeds fd text s

unfoldable pub feed_line : Job → ℕ → Str → Session → Session
feed_line job fd text s =
    let (s1, ok1) = write_feed fd text s in
    let (s2, ok2) = write_feed fd (10 ∷ []) s1 in
    if ok1 then (if ok2 then s2 else close_input job fd s2) else close_input job fd s1

unfoldable pub handle_text : Str → Session → Session
handle_text text s = elim (open_input (fg_job s)) [
  | none ↦ s
  | some (job, fd) ↦ feed_line job fd text s
]

-- `strncmp(line, prefix, MSG_PREFIX_LEN) == 0`
unfoldable pub has_prefix : Str → Str → Bool
has_prefix [] text = true
has_prefix (p ∷ ps) [] = false
has_prefix (p ∷ ps) (c ∷ cs) = (p == c) && has_prefix ps cs

unfoldable pub dispatch_running : Str → Session → Session
dispatch_running text s =
    if has_prefix msg_ctl text then handle_ctl (drop 4 text) s else handle_text text s

-- `while (buf_take_line(…)) dispatch_running(…)`; each round takes a byte at least, so the fuel of
-- `session_pump` is enough.
unfoldable pub drain : ℕ → Session → Session
drain zero s = s
drain (suc f) s = elim (buf_take_line buf_size s) [
  | none ↦ s
  | some (text, s') ↦ drain f (dispatch_running text s')
]

abbrev pub drain_all : Session → Session
drain_all s = drain (suc (length s.inbuf)) s

-- What `select` finds: nothing in time (or EINTR), or bytes to read.
pub data Ready : Type 0 where
  timeout : Ready
  readable : Read → Ready

-- The flag is false for the result 0.
unfoldable pub after_select : Ready → Session → Session × Bool
after_select timeout s = (s, true)
after_select (readable r) s =
    let (s', f) = buf_fill r s in elim f [ end_of_file ↦ (s', false) | _ ↦ (drain_all s', true) ]

unfoldable pub session_pump : Ready → Session → Session × Bool
session_pump ready s = after_select ready (drain_all s)
