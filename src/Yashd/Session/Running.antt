-- ===== src/Yashd/Session/Running.antt =====
-- While a foreground job owns the session: session_pump and jobs_wait_fg of Project 2/yashd.
use system_prog.Base.{
  ℕ, zero, suc, ◌≡◌, refl, ap, ◌∙◌, Bool, true, false, Option, none, some, List, [], ◌∷◌, ◌++◌,
  append-nil, arith, Str, drop, ◌==◌, Bool-cases, Option-cases, inl, inr,
}
use system_prog.Yashd.Types.{
  buf_size, msg_ctl, Job, Signal, sigint, sigtstp, sigkill, Effect, deliver, kill_group, close_fd,
  feed, spawn, log, Session, emit,
}
use system_prog.Yashd.Input.{
  buf_take_line, Read, got, closed, interrupted, broken, Fill, more, end_of_file, full, error,
  buf_fill,
}
use system_prog.Yashd.Jobs.{find_job, poll_job, Poll}
use system_prog.Yashd.Dispatch.{
  fg_job, update, Ctl, ctl_int, ctl_stop, ctl_eof, ctl_other, ctl_of, signal_fg, open_input,
  close_input, ctl_action, handle_ctl, write_feed_on, write_feed, feed_line, handle_text,
  has_prefix, dispatch_running, drain, drain_all, Ready, timeout, readable, after_select,
  session_pump,
}
use system_prog.Yashd.Foreground.{
  Round, polled_fg, poll_fg, abandon, pumped, fg_round, live_children, finish_fg, jobs_wait_fg,
}

-- The processes that have been started.
abbrev pub spawned : List Effect → List ℕ
spawned [] = []
spawned (spawn p g ∷ es) = p ∷ spawned es
spawned (_ ∷ es) = spawned es

pub spawned-append : (es fs : List Effect) → spawned (es ++ fs) ≡ spawned es ++ spawned fs
spawned-append [] fs = refl
spawned-append (spawn p g ∷ es) fs = ap (◌∷◌ p) (spawned-append es fs)
spawned-append (deliver s ∷ es) fs = spawned-append es fs
spawned-append (kill_group g k ∷ es) fs = spawned-append es fs
spawned-append (close_fd f ∷ es) fs = spawned-append es fs
spawned-append (feed f t ∷ es) fs = spawned-append es fs
spawned-append (log t ∷ es) fs = spawned-append es fs

-- Effects that start nothing.
pub spawned-idle :
    (s : Session) (es : List Effect) → spawned es ≡ [] → spawned (emit es s).trace ≡ spawned s.trace
spawned-idle s es h =
    spawned-append s.trace es ∙ ap (◌++◌ (spawned s.trace)) h ∙ append-nil (spawned s.trace)

-- What a message to a running job leaves alone.
pub record Keeps (s t : Session) : Type 0 where
  pub inbuf : t.inbuf ≡ s.inbuf
  pub fg : t.fg ≡ s.fg
  pub cfd : t.cfd ≡ s.cfd
  pub spawned : spawned t.trace ≡ spawned s.trace

Keeps-refl : (s : Session) → Keeps s s
Keeps-refl s = record { inbuf = refl; fg = refl; cfd = refl; spawned = refl }

Keeps-trans : {s t u : Session} → Keeps s t → Keeps t u → Keeps s u
Keeps-trans a b = record {
  inbuf = b.inbuf ∙ a.inbuf;
  fg = b.fg ∙ a.fg;
  cfd = b.cfd ∙ a.cfd;
  spawned = b.spawned ∙ a.spawned;
}

Keeps-emit : (s t : Session) (es : List Effect) → spawned es ≡ [] → Keeps s t → Keeps s (emit es t)
Keeps-emit s t es h v = record {
  inbuf = v.inbuf;
  fg = v.fg;
  cfd = v.cfd;
  spawned = spawned-idle t es h ∙ v.spawned;
}

signal_fg-Keeps : (o : Option Job) (sig : Signal) (s : Session) → Keeps s (signal_fg o sig s)
unfolding signal_fg
signal_fg-Keeps none sig s = Keeps-refl s
signal_fg-Keeps (some job) sig s = Keeps-emit s s (kill_group job.pgid sig ∷ []) refl (Keeps-refl s)

close_input-Keeps :
    (job : Job) (fd : ℕ) (s t : Session) → Keeps s t → Keeps s (close_input job fd t)
unfolding close_input
close_input-Keeps job fd s t v =
    Keeps-emit s (update (record job { infd = none }) t) (close_fd fd ∷ []) refl
      (record { inbuf = v.inbuf; fg = v.fg; cfd = v.cfd; spawned = v.spawned })

ctl_action-Keeps : (c : Ctl) (s : Session) → Keeps s (ctl_action c s)
unfolding ctl_action
ctl_action-Keeps ctl_int s = signal_fg-Keeps (fg_job s) sigint s
ctl_action-Keeps ctl_stop s = signal_fg-Keeps (fg_job s) sigtstp s
ctl_action-Keeps ctl_other s = Keeps-refl s
ctl_action-Keeps ctl_eof s = elim (Option-cases (open_input (fg_job s))) [
  | inl e ↦ rw (e, ctl_action) (record { inbuf = refl; fg = refl; cfd = refl; spawned = refl })
  | inr ((job, fd), e) ↦ rw (e, ctl_action) (close_input-Keeps job fd s s (Keeps-refl s))
]

write_feed_on-Keeps :
    (l : List Bool) (fd : ℕ) (text : Str) (s : Session) → Keeps s (write_feed_on l fd text s).0
unfolding write_feed_on
write_feed_on-Keeps [] fd text s = Keeps-emit s s (feed fd text ∷ []) refl (Keeps-refl s)
write_feed_on-Keeps (true ∷ bs) fd text s =
    Keeps-emit s (record s { feeds = bs }) (feed fd text ∷ []) refl
      (record { inbuf = refl; fg = refl; cfd = refl; spawned = refl })
write_feed_on-Keeps (false ∷ bs) fd text s = record {
  inbuf = refl;
  fg = refl;
  cfd = refl;
  spawned = refl;
}

write_feed-Keeps : (fd : ℕ) (text : Str) (s : Session) → Keeps s (write_feed fd text s).0
unfolding write_feed
write_feed-Keeps fd text s = write_feed_on-Keeps s.feeds fd text s

feed_line-Keeps :
    (job : Job) (fd : ℕ) (text : Str) (s : Session) → Keeps s (feed_line job fd text s)
unfolding feed_line
feed_line-Keeps job fd text s =
    let one = write_feed-Keeps fd text s in
    let s1 = (write_feed fd text s).0 in
    let two = Keeps-trans one (write_feed-Keeps fd (10 ∷ []) s1) in
    elim (Bool-cases (write_feed fd text s).1) [
      | inr e ↦ rw (e, feed_line) (close_input-Keeps job fd s s1 one)
      | inl e ↦ elim (Bool-cases (write_feed fd (10 ∷ []) s1).1) [
        | inl f ↦ rw (e, f, feed_line) two
        | inr f ↦
            rw (e, f, feed_line) (close_input-Keeps job fd s (write_feed fd (10 ∷ []) s1).0 two)
      ]
    ]

pub dispatch_running-Keeps : (text : Str) (s : Session) → Keeps s (dispatch_running text s)
unfolding dispatch_running handle_ctl handle_text
dispatch_running-Keeps text s = elim (Bool-cases (has_prefix msg_ctl text)) [
  | inl e ↦ rw (e, dispatch_running) (ctl_action-Keeps (ctl_of (drop 4 text)) s)
  | inr e ↦
      rw (e, dispatch_running)
        (elim (Option-cases (open_input (fg_job s))) [
          | inl f ↦ rw (f, handle_text) (Keeps-refl s)
          | inr ((job, fd), f) ↦ rw (f, handle_text) (feed_line-Keeps job fd text s)
        ])
]

-- What the service of the socket leaves alone while a job runs.
record Serves (s t : Session) : Type 0 where
  pub fg : t.fg ≡ s.fg
  pub spawned : spawned t.trace ≡ spawned s.trace

Serves-trans : {s t u : Session} → Serves s t → Serves t u → Serves s u
Serves-trans a b = record { fg = b.fg ∙ a.fg; spawned = b.spawned ∙ a.spawned }

take_line-Serves :
    (n : ℕ) (s s' : Session) (text : Str) → buf_take_line n s ≡ some (text, s') → Serves s s'
unfolding buf_take_line
take_line-Serves n s s' text h = record { fg = ground arith; spawned = ground arith }

drain-Serves : (f : ℕ) (s : Session) → Serves s (drain f s)
unfolding drain
drain-Serves zero s = record { fg = refl; spawned = refl }
drain-Serves (suc f) s = elim (Option-cases (buf_take_line buf_size s)) [
  | inl e ↦ rw (e, drain) (record { fg = refl; spawned = refl })
  | inr ((text, s'), e) ↦
      let one = take_line-Serves buf_size s s' text e in
      let two = dispatch_running-Keeps text s' in
      rw (e, drain)
        (Serves-trans one (
          Serves-trans (record { fg = two.fg; spawned = two.spawned })
            (drain-Serves f (dispatch_running text s'))))
]

fill-Serves : (r : Read) (s : Session) → Serves s (buf_fill r s).0
unfolding buf_fill
fill-Serves (got t) s = record { fg = ground arith; spawned = ground arith }
fill-Serves closed s = record { fg = ground arith; spawned = ground arith }
fill-Serves interrupted s = record { fg = ground arith; spawned = ground arith }
fill-Serves broken s = record { fg = ground arith; spawned = ground arith }

after_select-Serves : (ready : Ready) (s : Session) → Serves s (after_select ready s).0
unfolding after_select
after_select-Serves timeout s = record { fg = refl; spawned = refl }
after_select-Serves (readable r) s = go (buf_fill r s).1 refl
  where
    go : (f : Fill) → (buf_fill r s).1 ≡ f → Serves s (after_select (readable r) s).0
    go end_of_file e = rw (e, after_select) (fill-Serves r s)
    go more e =
        rw (e, after_select) (Serves-trans (fill-Serves r s) (drain-Serves _ (buf_fill r s).0))
    go full e =
        rw (e, after_select) (Serves-trans (fill-Serves r s) (drain-Serves _ (buf_fill r s).0))
    go (error b) e =
        rw (e, after_select) (Serves-trans (fill-Serves r s) (drain-Serves _ (buf_fill r s).0))

session_pump-Serves : (ready : Ready) (s : Session) → Serves s (session_pump ready s).0
unfolding session_pump
session_pump-Serves ready s =
    Serves-trans (drain-Serves _ s) (after_select-Serves ready (drain_all s))

abandon-Serves : (o : Option Job) (s : Session) → Serves s (abandon o s)
unfolding abandon
abandon-Serves none s = record { fg = refl; spawned = refl }
abandon-Serves (some job) s = record {
  fg = refl;
  spawned = spawned-idle s (kill_group job.pgid sigkill ∷ []) refl;
}

pumped-Serves : (jid : ℕ) (s t : Session) (b : Bool) → Serves s t → Serves s (pumped jid (t, b))
unfolding pumped
pumped-Serves jid s t true v = v
pumped-Serves jid s t false v = Serves-trans v (abandon-Serves (find_job jid t.table) t)

poll_fg-Serves :
    (ps : List Poll) (block hit : Bool) (o : Option Job) (s s' : Session)
    → poll_fg ps block o s ≡ some (s', hit)
    → Serves s s'
unfolding poll_fg polled_fg
poll_fg-Serves ps block hit none s s' h = record { fg = ground arith; spawned = ground arith }
poll_fg-Serves ps block hit (some job) s s' h = elim (Option-cases (poll_job ps job block)) [
  | inl e ↦ record { fg = ground arith; spawned = ground arith }
  | inr ((job', b, rest), e) ↦ record { fg = ground arith; spawned = ground arith }
]

fg_round-Serves :
    (r : Round) (jid : ℕ) (s s' : Session) (hit : Bool)
    → fg_round r jid s ≡ some (s', hit)
    → Serves s s'
unfolding fg_round
fg_round-Serves r jid s s' hit h = elim (Bool-cases s.quit) [
  | inl e ↦ poll_fg-Serves r.polls true hit (find_job jid s.table) s s' (ground arith)
  | inr e ↦
      let u = pumped jid (session_pump r.ready s) in
      Serves-trans
        (pumped-Serves jid s (session_pump r.ready s).0 (session_pump r.ready s).1
          (session_pump-Serves r.ready s))
        (poll_fg-Serves r.polls false hit (find_job jid u.table) u s' (ground arith))
]

finish_fg-Serves : (o : Option Job) (s : Session) → Serves s (finish_fg o s)
unfolding finish_fg
finish_fg-Serves none s = record { fg = refl; spawned = refl }
finish_fg-Serves (some job) s = record { fg = refl; spawned = refl }

-- Whatever the client sends while a job is in the foreground, CMD messages among it, the wait for
-- the job starts no process and the job stays in the foreground until the wait is over.
pub jobs_wait_fg_alone :
    (rs : List Round) (jid : ℕ) (s s' : Session)
    → jobs_wait_fg rs jid s ≡ some s'
    → (s'.fg ≡ s.fg) × (spawned s'.trace ≡ spawned s.trace)
unfolding jobs_wait_fg
jobs_wait_fg_alone [] jid s s' h =
    let v = finish_fg-Serves (find_job jid s.table) s in ground (arith, v.fg, v.spawned)
jobs_wait_fg_alone (r ∷ rs) jid s s' h =
    elim (Bool-cases (live_children (find_job jid s.table) == 0)) [
      | inl e ↦ let v = finish_fg-Serves (find_job jid s.table) s in ground (arith, v.fg, v.spawned)
      | inr e ↦ elim (Option-cases (fg_round r jid s)) [
        | inl f ↦ ground arith
        | inr ((t, true), f) ↦
            let v = fg_round-Serves r jid s t true f in ground (arith, v.fg, v.spawned)
        | inr ((t, false), f) ↦
            let v = fg_round-Serves r jid s t false f in
            let w = jobs_wait_fg_alone rs jid t s' (ground arith) in (w.0 ∙ v.fg, w.1 ∙ v.spawned)
      ]
    ]
