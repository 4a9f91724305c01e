-- ===== src/Yashd/Session/Serving.antt =====
-- The job table while a foreground job owns the session: Project 2/yashd.
use system_prog.Base.{
  ℕ, zero, suc, ◌≡◌, refl, ◌∙◌, Bool, true, false, Option, none, some, List, [], ◌∷◌, arith, Str,
  drop, ◌==◌, Bool-cases, Option-cases, inl, inr,
}
use system_prog.Yash.Types.{done}
use system_prog.Yashd.Types.{msg_ctl, Job, Session}
use system_prog.Yashd.Input.{
  split_line, buf_take_line, Read, got, closed, interrupted, broken, Fill, more, end_of_file, full,
  error, buf_fill,
}
use system_prog.Yashd.Parse.{error}
use system_prog.Yashd.Jobs.{find_job, poll_job, Poll}
use system_prog.Yashd.Jobs.Order.{IsTable, put_job-IsTable}
use system_prog.Yashd.Dispatch.{
  fg_job, Ctl, ctl_int, ctl_stop, ctl_eof, ctl_other, ctl_of, signal_fg, open_input, close_input,
  ctl_action, handle_ctl, write_feed_on, write_feed, feed_line, handle_text, has_prefix,
  dispatch_running, drain, drain_all, Ready, timeout, readable, after_select, session_pump,
}
use system_prog.Yashd.Foreground.{
  Round, polled_fg, poll_fg, abandon, pumped, fg_round, live_children, finish_fg, jobs_wait_fg,
}

ctl_action-IsTable : (c : Ctl) (s : Session) → IsTable s.table → IsTable (ctl_action c s).table
unfolding ctl_action signal_fg close_input
ctl_action-IsTable ctl_int s v = elim (Option-cases (fg_job s)) [
  | inl e ↦ rw (e, signal_fg) v
  | inr (job, e) ↦ rw (e, signal_fg) v
]
ctl_action-IsTable ctl_stop s v = elim (Option-cases (fg_job s)) [
  | inl e ↦ rw (e, signal_fg) v
  | inr (job, e) ↦ rw (e, signal_fg) v
]
ctl_action-IsTable ctl_other s v = v
ctl_action-IsTable ctl_eof s v = elim (Option-cases (open_input (fg_job s))) [
  | inl e ↦ rw (e, ctl_action) v
  | inr ((job, fd), e) ↦ rw (e, ctl_action) (put_job-IsTable (record job { infd = none }) s.table v)
]

table-write_feed_on :
    (l : List Bool) (fd : ℕ) (text : Str) (s : Session)
    → ((write_feed_on l fd text s).0).table ≡ s.table
unfolding write_feed_on
table-write_feed_on [] fd text s = refl
table-write_feed_on (true ∷ bs) fd text s = refl
table-write_feed_on (false ∷ bs) fd text s = refl

table-write_feed : (fd : ℕ) (text : Str) (s : Session) → ((write_feed fd text s).0).table ≡ s.table
unfolding write_feed
table-write_feed fd text s = table-write_feed_on s.feeds fd text s

feed_line-IsTable :
    (job : Job) (fd : ℕ) (text : Str) (s : Session)
    → IsTable s.table
    → IsTable (feed_line job fd text s).table
unfolding feed_line close_input
feed_line-IsTable job fd text s v =
    let s1 = (write_feed fd text s).0 in
    let s2 = (write_feed fd (10 ∷ []) s1).0 in
    let e1 = table-write_feed fd text s in
    let e2 = table-write_feed fd (10 ∷ []) s1 ∙ e1 in
    let shut = put_job-IsTable (record job { infd = none }) s.table v in
    elim (Bool-cases (write_feed fd text s).1) [
      | inr e ↦ rw (e, feed_line, e1) shut
      | inl e ↦ elim (Bool-cases (write_feed fd (10 ∷ []) s1).1) [
        | inl f ↦ rw (e, f, feed_line, e2) v
        | inr f ↦ rw (e, f, feed_line, e2) shut
      ]
    ]

pub dispatch_running-IsTable :
    (text : Str) (s : Session) → IsTable s.table → IsTable (dispatch_running text s).table
unfolding dispatch_running handle_ctl handle_text
dispatch_running-IsTable text s v = elim (Bool-cases (has_prefix msg_ctl text)) [
  | inl e ↦ rw (e, dispatch_running) (ctl_action-IsTable (ctl_of (drop 4 text)) s v)
  | inr e ↦
      rw (e, dispatch_running)
        (elim (Option-cases (open_input (fg_job s))) [
          | inl f ↦ rw (f, handle_text) v
          | inr ((job, fd), f) ↦ rw (f, handle_text) (feed_line-IsTable job fd text s v)
        ])
]

drain-IsTable : (f : ℕ) (s : Session) → IsTable s.table → IsTable (drain f s).table
unfolding drain buf_take_line
drain-IsTable zero s v = v
drain-IsTable (suc f) s v = elim (Option-cases (split_line s.inbuf)) [
  | inl e ↦ rw (e, drain, buf_take_line) v
  | inr ((l, rest), e) ↦
      rw (e, drain, buf_take_line)
        (drain-IsTable f _ (dispatch_running-IsTable _ (record s { inbuf = rest }) v))
]

table-buf_fill : (r : Read) (s : Session) → ((buf_fill r s).0).table ≡ s.table
unfolding buf_fill
table-buf_fill (got t) s = ground arith
table-buf_fill closed s = ground arith
table-buf_fill interrupted s = ground arith
table-buf_fill broken s = ground arith

after_select-IsTable :
    (ready : Ready) (s : Session) → IsTable s.table → IsTable ((after_select ready s).0).table
unfolding after_select
after_select-IsTable timeout s v = v
after_select-IsTable (readable r) s v = go (buf_fill r s).1 refl
  where
    filled : IsTable ((buf_fill r s).0).table
    filled = rw (table-buf_fill r s) v

    go : (f : Fill) → (buf_fill r s).1 ≡ f → IsTable ((after_select (readable r) s).0).table
    go end_of_file e = rw (e, after_select) filled
    go more e = rw (e, after_select) (drain-IsTable _ (buf_fill r s).0 filled)
    go full e = rw (e, after_select) (drain-IsTable _ (buf_fill r s).0 filled)
    go (error b) e = rw (e, after_select) (drain-IsTable _ (buf_fill r s).0 filled)

session_pump-IsTable :
    (ready : Ready) (s : Session) → IsTable s.table → IsTable ((session_pump ready s).0).table
unfolding session_pump
session_pump-IsTable ready s v = after_select-IsTable ready (drain_all s) (drain-IsTable _ s v)

pumped-IsTable :
    (jid : ℕ) (s : Session) (b : Bool) → IsTable s.table → IsTable (pumped jid (s, b)).table
unfolding pumped abandon
pumped-IsTable jid s true v = v
pumped-IsTable jid s false v = elim (Option-cases (find_job jid s.table)) [
  | inl e ↦ rw (e, abandon) v
  | inr (job, e) ↦ rw (e, abandon) v
]

poll_fg-IsTable :
    (ps : List Poll) (block hit : Bool) (o : Option Job) (s s' : Session)
    → IsTable s.table
    → poll_fg ps block o s ≡ some (s', hit)
    → IsTable s'.table
unfolding poll_fg polled_fg
poll_fg-IsTable ps block hit none s s' v h = ground arith
poll_fg-IsTable ps block hit (some job) s s' v h = elim (Option-cases (poll_job ps job block)) [
  | inl e ↦ ground arith
  | inr ((job', b, rest), e) ↦ ground (arith, put_job-IsTable job' s.table v)
]

fg_round-IsTable :
    (r : Round) (jid : ℕ) (s s' : Session) (hit : Bool)
    → IsTable s.table
    → fg_round r jid s ≡ some (s', hit)
    → IsTable s'.table
unfolding fg_round
fg_round-IsTable r jid s s' hit v h = elim (Bool-cases s.quit) [
  | inl e ↦ poll_fg-IsTable r.polls true hit (find_job jid s.table) s s' v (ground arith)
  | inr e ↦
      let u = pumped jid (session_pump r.ready s) in
      poll_fg-IsTable r.polls false hit (find_job jid u.table) u s'
        (pumped-IsTable jid (session_pump r.ready s).0 (session_pump r.ready s).1
          (session_pump-IsTable r.ready s v))
        (ground arith)
]

finish_fg-IsTable : (o : Option Job) (s : Session) → IsTable s.table → IsTable (finish_fg o s).table
unfolding finish_fg
finish_fg-IsTable none s v = v
finish_fg-IsTable (some job) s v = put_job-IsTable (record job { state = done }) s.table v

pub jobs_wait_fg-IsTable :
    (rs : List Round) (jid : ℕ) (s s' : Session)
    → IsTable s.table
    → jobs_wait_fg rs jid s ≡ some s'
    → IsTable s'.table
unfolding jobs_wait_fg
jobs_wait_fg-IsTable [] jid s s' v h = ground (arith, finish_fg-IsTable (find_job jid s.table) s v)
jobs_wait_fg-IsTable (r ∷ rs) jid s s' v h =
    elim (Bool-cases (live_children (find_job jid s.table) == 0)) [
      | inl e ↦ ground (arith, finish_fg-IsTable (find_job jid s.table) s v)
      | inr e ↦ elim (Option-cases (fg_round r jid s)) [
        | inl f ↦ ground arith
        | inr ((t, true), f) ↦ ground (arith, fg_round-IsTable r jid s t true v f)
        | inr ((t, false), f) ↦
            jobs_wait_fg-IsTable rs jid t s' (fg_round-IsTable r jid s t false v f) (ground arith)
      ]
    ]
