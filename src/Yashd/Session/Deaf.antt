-- ===== src/Yashd/Session/Deaf.antt =====
-- A second CTL d while a job runs: handle_ctl and jobs_wait_fg of Project 2/yashd/server/src.
use system_prog.Base.{
  ℕ, ◌≡◌, refl, ◌∙◌, Bool, true, Option, none, some, List, [], ◌∷◌, ◌++◌, arith, Str, ◌==◌,
  Bool-cases, Option-cases, inl, inr,
}
use system_prog.Yashd.Types.{msg_ctl, Job, Session}
use system_prog.Yashd.Jobs.{find_job, Poll, poll_job}
use system_prog.Yashd.Dispatch.{
  fg_job, open_input, ctl_of, ctl_action, handle_ctl, has_prefix, dispatch_running,
}
use system_prog.Yashd.Foreground.{
  Round, polled_fg, poll_fg, fg_round, live_children, finish_fg, jobs_wait_fg,
}

-- Nothing is read from the client and nothing sent to anyone.
record Deaf (s t : Session) : Type 0 where
  pub quit : t.quit ≡ s.quit
  pub trace : t.trace ≡ s.trace
  pub inbuf : t.inbuf ≡ s.inbuf

Deaf-trans : {s t u : Session} → Deaf s t → Deaf t u → Deaf s u
Deaf-trans a b = record {
  quit = b.quit ∙ a.quit;
  trace = b.trace ∙ a.trace;
  inbuf = b.inbuf ∙ a.inbuf;
}

poll_fg-Deaf :
    (ps : List Poll) (block hit : Bool) (o : Option Job) (s s' : Session)
    → poll_fg ps block o s ≡ some (s', hit)
    → Deaf s s'
unfolding poll_fg polled_fg
poll_fg-Deaf ps block hit none s s' h = record {
  quit = ground arith;
  trace = ground arith;
  inbuf = ground arith;
}
poll_fg-Deaf ps block hit (some job) s s' h = elim (Option-cases (poll_job ps job block)) [
  | inl e ↦ record { quit = ground arith; trace = ground arith; inbuf = ground arith }
  | inr ((job', b, rest), e) ↦ record {
    quit = ground arith;
    trace = ground arith;
    inbuf = ground arith;
  }
]

finish_fg-Deaf : (o : Option Job) (s : Session) → Deaf s (finish_fg o s)
unfolding finish_fg
finish_fg-Deaf none s = record { quit = refl; trace = refl; inbuf = refl }
finish_fg-Deaf (some job) s = record { quit = refl; trace = refl; inbuf = refl }

jobs_wait_fg-Deaf :
    (rs : List Round) (jid : ℕ) (s s' : Session)
    → s.quit ≡ true
    → jobs_wait_fg rs jid s ≡ some s'
    → Deaf s s'
unfolding jobs_wait_fg fg_round
jobs_wait_fg-Deaf [] jid s s' q h =
    let v = finish_fg-Deaf (find_job jid s.table) s in
    record {
      quit = ground (arith, v.quit);
      trace = ground (arith, v.trace);
      inbuf = ground (arith, v.inbuf);
    }
jobs_wait_fg-Deaf (r ∷ rs) jid s s' q h =
    elim (Bool-cases (live_children (find_job jid s.table) == 0)) [
      | inl e ↦
          let v = finish_fg-Deaf (find_job jid s.table) s in
          record {
            quit = ground (arith, v.quit);
            trace = ground (arith, v.trace);
            inbuf = ground (arith, v.inbuf);
          }
      | inr e ↦ elim (Option-cases (poll_fg r.polls true (find_job jid s.table) s)) [
        | inl f ↦ record { quit = ground arith; trace = ground arith; inbuf = ground arith }
        | inr ((t, hit), f) ↦
            let v = poll_fg-Deaf r.polls true hit (find_job jid s.table) s t f in
            elim (Bool-cases hit) [
              | inl stopped ↦ record {
                quit = ground (arith, v.quit);
                trace = ground (arith, v.trace);
                inbuf = ground (arith, v.inbuf);
              }
              | inr running ↦
                  Deaf-trans v (jobs_wait_fg-Deaf rs jid t s' (v.quit ∙ q) (ground arith))
            ]
      ]
    ]

-- Once the stdin of the foreground job is closed, a CTL d makes the wait for the job deaf: until
-- the job ends or stops by itself no message is read and no signal is sent, neither for a CTL c
-- nor when the client disconnects.
pub jobs_wait_fg_deaf :
    (rs : List Round) (jid : ℕ) (rest : Str) (s s' : Session)
    → open_input (fg_job s) ≡ none
    → jobs_wait_fg rs jid (dispatch_running (msg_ctl ++ b'd' ∷ rest) s) ≡ some s'
    → (s'.trace ≡ s.trace) × (s'.inbuf ≡ s.inbuf)
unfolding dispatch_running has_prefix handle_ctl ctl_of ctl_action
jobs_wait_fg_deaf rs jid rest s s' closed h =
    let v = jobs_wait_fg-Deaf rs jid (record s { quit = true }) s' refl (ground (arith, h)) in
    (v.trace, v.inbuf)
