-- ===== src/Yashd/Session/Loop.antt =====
-- The loop of session_main of Project 2/yashd/server/src/session.c and the end of a session.
use system_prog.Base.{
  subst, ℕ, ◌≡◌, refl, ◌∙◌, Bool, true, false, Option, none, some, List, [], ◌∷◌, ◌++◌, arith, Str,
  length, ◌==◌, Bool-cases, Option-cases, inl, inr,
}
use system_prog.Yashd.Types.{
  buf_size, yash_prompt, Job, sigkill, Effect, kill_group, close_fd, Session,
}
use system_prog.Yashd.Output.{session_prompt, session_puts}
use system_prog.Yashd.Input.{
  buf_take_line, Read, got, closed, interrupted, broken, Fill, more, end_of_file, full, error,
  buf_fill, Line, line, disconnected, failed, session_readsocket, Next, return, again, after_fill,
  fill_round,
}
use system_prog.Yashd.Parse.{error}
use system_prog.Yashd.Jobs.{Poll, jobs_reap}
use system_prog.Yashd.Jobs.Order.{table-write_loop}
use system_prog.Yashd.Jobs.{close_effects}
use system_prog.Yashd.Output.{session_write}
use system_prog.Yashd.Session.{dispatch, Turn, after_read, turn, session_destroy, session_main}
use system_prog.Yashd.Session.Wellformed.{IsIdle, reap-IsIdle, fg-write_loop}
use system_prog.Yashd.Session.Commands.{dispatch-IsIdle}
use system_prog.Yashd.Jobs.{outwait, kill_each, jobs_kill_all}

take_line-IsIdle :
    (n : ℕ) (s s' : Session) (text : Str)
    → IsIdle s
    → buf_take_line n s ≡ some (text, s')
    → IsIdle s'
unfolding buf_take_line
take_line-IsIdle n s s' text v h = record {
  table = ground (arith, v.table);
  fg = ground (arith, v.fg);
}

inbuf-IsIdle : (b : Str) (s : Session) → IsIdle s → IsIdle (record s { inbuf = b })
inbuf-IsIdle b s v = record { table = v.table; fg = v.fg }

buf_fill-IsIdle : (r : Read) (s : Session) → IsIdle s → IsIdle (buf_fill r s).0
unfolding buf_fill
buf_fill-IsIdle (got t) s v =
    ground (arith, v, inbuf-IsIdle [] s v, inbuf-IsIdle (s.inbuf ++ t) s v)
buf_fill-IsIdle closed s v = ground (arith, v, inbuf-IsIdle [] s v)
buf_fill-IsIdle interrupted s v = ground (arith, v, inbuf-IsIdle [] s v)
buf_fill-IsIdle broken s v = ground (arith, v, inbuf-IsIdle [] s v)

abbrev IsIdleNext : Next → Type 0
IsIdleNext (return l t) = IsIdle t
IsIdleNext (again e t) = IsIdle t

after_fill-IsIdle :
    (eintr : Bool) (s : Session) (f : Fill) → IsIdle s → IsIdleNext (after_fill eintr s f)
unfolding after_fill
after_fill-IsIdle eintr s more v = v
after_fill-IsIdle eintr s end_of_file v = v
after_fill-IsIdle eintr s (error true) v = v
after_fill-IsIdle eintr s (error false) v = v
after_fill-IsIdle true s full v = v
after_fill-IsIdle false s full v = v

fill_round-IsIdle :
    (r : Read) (eintr : Bool) (s : Session) → IsIdle s → IsIdleNext (fill_round r eintr s)
unfolding fill_round
fill_round-IsIdle r eintr s v = go (after_fill eintr s1 f) refl
  where
    s1 : Session
    s1 = (buf_fill r s).0

    f : Fill
    f = (buf_fill r s).1

    one : IsIdle s1
    one = buf_fill-IsIdle r s v

    go : (n : Next) → after_fill eintr s1 f ≡ n → IsIdleNext (fill_round r eintr s)
    go (return l t) e = rw (e, fill_round) (subst IsIdleNext e (after_fill-IsIdle eintr s1 f one))
    go (again b t) e = elim (Bool-cases (length s.inbuf == buf_size)) [
      | inl full_buf ↦
          rw (e, full_buf, fill_round)
            (after_fill-IsIdle b (buf_fill r s1).0 (buf_fill r s1).1 (buf_fill-IsIdle r s1 one))
      | inr room ↦ rw (e, room, fill_round) (subst IsIdleNext e (after_fill-IsIdle eintr s1 f one))
    ]

session_readsocket-IsIdle :
    (rs : List Read) (eintr : Bool) (n : ℕ) (s s' : Session) (l : Line)
    → IsIdle s
    → session_readsocket rs eintr n s ≡ some (l, s')
    → IsIdle s'
unfolding session_readsocket
session_readsocket-IsIdle [] eintr n s s' l v h = elim (Option-cases (buf_take_line n s)) [
  | inl e ↦ ground (arith, inbuf-IsIdle [] s v)
  | inr ((text, t), e) ↦ ground (arith, take_line-IsIdle n s t text v e)
]
session_readsocket-IsIdle (r ∷ rs) eintr n s s' l v h = elim (Option-cases (buf_take_line n s)) [
  | inr ((text, t), e) ↦ ground (arith, take_line-IsIdle n s t text v e)
  | inl e ↦
      go e (λ b t w k. session_readsocket-IsIdle rs b n t s' l w k) (fill_round r eintr s) refl
]
  where
    go :
        buf_take_line n s ≡ none
        → ((b : Bool) (t : Session)
            → IsIdle t
            → session_readsocket rs b n t ≡ some (l, s')
            → IsIdle s')
        → (m : Next) → fill_round r eintr s ≡ m
        → IsIdle s'
    go none_yet next (return l' t) e =
        ground (arith, subst IsIdleNext e (fill_round-IsIdle r eintr s v))
    go none_yet next (again b t) e =
        next b t (subst IsIdleNext e (fill_round-IsIdle r eintr s v)) (ground arith)

prompt-IsIdle : (s : Session) → IsIdle s → IsIdle (session_prompt s).0
unfolding session_prompt session_puts session_write
prompt-IsIdle s v = record {
  table = rw (table-write_loop s.sends yash_prompt s) v.table;
  fg = fg-write_loop s.sends yash_prompt s ∙ v.fg;
}

after_read-IsIdle :
    (t : Turn) (l : Line) (s s' : Session) (goes_on : Bool)
    → IsIdle s
    → after_read t (some (l, s)) ≡ some (s', goes_on)
    → IsIdle s'
unfolding after_read
after_read-IsIdle t disconnected s s' goes_on v h = ground (arith, v)
after_read-IsIdle t failed s s' goes_on v h = ground (arith, v)
after_read-IsIdle t (line text) s s' goes_on v h =
    elim (Option-cases (dispatch t.spawn t.rounds text s)) [
      | inl e ↦ ground arith
      | inr (u, e) ↦ ground (arith, dispatch-IsIdle t.spawn t.rounds text s u v e)
    ]

-- One round of the session thread, whatever the client sends and the kernel answers, leaves a job
-- table with rising numbers and at most 20 jobs, and no job in the foreground.
pub turn-IsIdle :
    (t : Turn) (s s' : Session) (goes_on : Bool)
    → IsIdle s
    → turn t s ≡ some (s', goes_on)
    → IsIdle s'
unfolding turn after_read
turn-IsIdle t s s' goes_on v h = go (session_prompt s1).1 refl
  where
    s1 : Session
    s1 = jobs_reap t.polls s

    s2 : Session
    s2 = (session_prompt s1).0

    idle : IsIdle s2
    idle = prompt-IsIdle s1 (reap-IsIdle t.polls s v)

    go : (sent_all : Bool) → (session_prompt s1).1 ≡ sent_all → IsIdle s'
    go false e = ground (arith, idle)
    go true e = elim (Option-cases (session_readsocket t.reads t.eintr buf_size s2)) [
      | inl f ↦ ground arith
      | inr ((l, u), f) ↦
          after_read-IsIdle t l u s' goes_on
            (session_readsocket-IsIdle t.reads t.eintr buf_size s2 u l idle f) (ground arith)
    ]

-- The process groups that are killed, and those of a table.
abbrev pub killed : List Effect → List ℕ
killed [] = []
killed (kill_group g sigkill ∷ es) = g ∷ killed es
killed (_ ∷ es) = killed es

abbrev pub groups : List Job → List ℕ
groups [] = []
groups (j ∷ js) = j.pgid ∷ groups js

killed-close : (o : Option ℕ) (es : List Effect) → killed (close_effects o ++ es) ≡ killed es
killed-close none es = refl
killed-close (some fd) es = refl

killed-kill_each :
    (polls : ℕ → List Poll) (t : List Job) (es : List Effect)
    → kill_each polls t ≡ some es
    → killed es ≡ groups t
unfolding kill_each
killed-kill_each polls [] es h = ground arith
killed-kill_each polls (j ∷ js) es h = elim (Bool-cases (outwait (polls j.jid) j.nlive)) [
  | inr e ↦ ground arith
  | inl e ↦ elim (Option-cases (kill_each polls js)) [
    | inl f ↦ ground arith
    | inr (fs, f) ↦
        let rest = killed-kill_each polls js fs f in ground (arith, rest, killed-close j.infd fs)
  ]
]

-- The session after the round of the loop that ends it.
abbrev pub session_at_end : List Turn → Session → Option Session
session_at_end [] s = none
session_at_end (t ∷ ts) s = elim (turn t s) [
  | none ↦ none
  | some (u, true) ↦ session_at_end ts u
  | some (u, false) ↦ some u
]

-- When the thread of a session returns, its loop has ended in a well-formed session, and after the
-- loop the thread has sent SIGKILL to the group of every job of that session's table, each once
-- and in order, and to no other group, and at last it has closed the socket. No job is left, and
-- none is in the foreground.
pub session_main_ends :
    (ts : List Turn) (polls : ℕ → List Poll) (s s' : Session)
    → IsIdle s
    → session_main ts polls s ≡ some s'
    → (t : Session) × (es : List Effect) × (session_at_end ts s ≡ some t)
      × IsIdle t
      × (s'.trace ≡ (t.trace ++ es) ++ close_fd t.cfd ∷ [])
      × (killed es ≡ groups t.table)
      × (s'.table ≡ [])
      × (s'.fg ≡ none)
unfolding session_main session_destroy jobs_kill_all
session_main_ends [] polls s s' v h = ground arith
session_main_ends (t ∷ ts) polls s s' v h = elim (Option-cases (turn t s)) [
  | inl e ↦ ground arith
  | inr ((u, true), e) ↦
      let (w, es, end, idle, trace, all_killed, table, fg) =
        session_main_ends ts polls u s' (turn-IsIdle t s u true v e) (ground arith) in
      (w, es, rw (e, session_at_end) end, idle, trace, all_killed, table, fg)
  | inr ((u, false), e) ↦ elim (Option-cases (kill_each polls u.table)) [
    | inl f ↦ ground arith
    | inr (es, f) ↦ (
      u,
      es,
      rw (e, session_at_end) refl,
      turn-IsIdle t s u false v e,
      ground arith,
      killed-kill_each polls u.table es f,
      ground arith,
      ground arith,
    )
  ]
]
