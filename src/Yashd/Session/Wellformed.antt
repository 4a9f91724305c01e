-- ===== src/Yashd/Session/Wellformed.antt =====
-- The session between two commands: session_main of Project 2/yashd.
use system_prog.Base.{
  ℕ, take, ◌≡◌, refl, ◌∙◌, false, Option, none, some, List, [], ◌∷◌, ◌++◌, arith, Str, length, drop,
  ◌==◌, Bool-cases, Option-cases, inl, inr,
}
use system_prog.Yash.Types.{running}
use system_prog.Yashd.Types.{Job, Effect, deliver, Session, emit}
use system_prog.Yashd.Output.{session_printf}
use system_prog.Yashd.Jobs.{
  find_job, Poll, jobs_remove, jobs_current, jobs_recent_stopped, jobs_reap, print_rows,
  jobs_print_one, row,
}
use system_prog.Yashd.Jobs.Order.{
  IsTable, jobs_remove-IsTable, put_job-IsTable, table-print, jobs_reap-IsTable,
}
use system_prog.Yashd.Jobs.{is_fg, sweep, collect, done_mark}
use system_prog.Yashd.Types.{Sent, sent}
use system_prog.Yash.Jobs.{is_done, done_word}
use system_prog.Yashd.Output.{write_loop, session_write}
use system_prog.Yashd.Session.Serving.{jobs_wait_fg-IsTable}
use system_prog.Yashd.Dispatch.{update}
use system_prog.Yashd.Foreground.{
  Round, jobs_wait_fg, settle, foreground, resume_effects, do_fg, do_bg,
}

-- A session whose thread waits for a command.
pub record IsIdle (s : Session) : Type 0 where
  pub table : IsTable s.table
  pub fg : s.fg ≡ none

pub fg-write_loop : (rs : List Sent) (text : Str) (s : Session) → (write_loop rs text s).0.fg ≡ s.fg
unfolding write_loop
fg-write_loop [] text s = refl
fg-write_loop (Sent.interrupted ∷ rs) text s = ground (arith, fg-write_loop rs text s)
fg-write_loop (Sent.broken ∷ rs) text s = ground arith
fg-write_loop (sent n ∷ rs) text s =
    ground (arith, fg-write_loop rs (drop n text) (emit (deliver (take n text) ∷ []) s))

fg-print : (text : Str) (s : Session) → (session_printf text s).0.fg ≡ s.fg
unfolding session_printf session_write
fg-print text s = elim (Bool-cases (length text == 0)) [
  | inl e ↦ rw (e, session_printf)
  | inr e ↦ rw (e, session_printf) (fg-write_loop s.sends _ s)
]

pub print-IsIdle : (text : Str) (s : Session) → IsIdle s → IsIdle (session_printf text s).0
print-IsIdle text s v = record {
  table = rw (table-print text s) v.table;
  fg = fg-print text s ∙ v.fg;
}

pub emit-IsIdle : (es : List Effect) (s : Session) → IsIdle s → IsIdle (emit es s)
emit-IsIdle es s v = record { table = v.table; fg = v.fg }

pub update-IsIdle : (job : Job) (s : Session) → IsIdle s → IsIdle (update job s)
update-IsIdle job s v = record { table = put_job-IsTable job s.table v.table; fg = v.fg }

fg-jobs_remove : (jid : ℕ) (s : Session) → s.fg ≡ none → (jobs_remove jid s).fg ≡ none
unfolding jobs_remove is_fg
fg-jobs_remove jid s h = elim (Option-cases (find_job jid s.table)) [
  | inl e ↦ rw (e, jobs_remove) h
  | inr (job, e) ↦ ground (arith, h)
]

pub remove-IsIdle : (jid : ℕ) (s : Session) → IsIdle s → IsIdle (jobs_remove jid s)
remove-IsIdle jid s v = record {
  table = jobs_remove-IsTable jid s v.table;
  fg = fg-jobs_remove jid s v.fg;
}

fg-sweep : (rest : List Job) (t : Session) → t.fg ≡ none → (sweep rest t).fg ≡ none
unfolding sweep jobs_print_one
fg-sweep [] t h = h
fg-sweep (j ∷ rest) t h = elim (Bool-cases (is_done j.state)) [
  | inl e ↦
      rw (e, sweep)
        (fg-sweep rest _ (
          fg-jobs_remove j.jid (session_printf (row j (done_mark t) done_word) t).0
            (fg-print (row j (done_mark t) done_word) t ∙ h)))
  | inr e ↦ rw (e, sweep) (fg-sweep rest t h)
]

pub reap-IsIdle : (polls : ℕ → List Poll) (s : Session) → IsIdle s → IsIdle (jobs_reap polls s)
unfolding jobs_reap
reap-IsIdle polls s v = record {
  table = jobs_reap-IsTable polls s v.table;
  fg = fg-sweep (collect polls s.table) (record s { table = collect polls s.table }) v.fg;
}

pub print_rows-IsIdle :
    (cur : Option Job) (t : List Job) (s : Session) → IsIdle s → IsIdle (print_rows cur t s)
unfolding print_rows jobs_print_one
print_rows-IsIdle cur [] s v = v
print_rows-IsIdle cur (j ∷ js) s v = print_rows-IsIdle cur js _ (print-IsIdle _ s v)

-- After the wait the pointer is cleared, whether or not the job is removed.
pub foreground-IsIdle :
    (rs : List Round) (jid : ℕ) (s s' : Session)
    → IsTable s.table
    → foreground rs jid s ≡ some s'
    → IsIdle s'
unfolding foreground settle
foreground-IsIdle rs jid s s' v h =
    elim (Option-cases (jobs_wait_fg rs jid (record s { fg = some jid }))) [
      | inl e ↦ ground arith
      | inr (t, e) ↦
          let idle : IsIdle (record t { fg = none }) = record {
            table = jobs_wait_fg-IsTable rs jid (record s { fg = some jid }) t v e;
            fg = refl;
          } in
          ground (arith, idle, remove-IsIdle jid (record t { fg = none }) idle)
    ]

pub do_fg-IsIdle : (rs : List Round) (s s' : Session) → IsIdle s → do_fg rs s ≡ some s' → IsIdle s'
unfolding do_fg
do_fg-IsIdle rs s s' v h = elim (Option-cases (jobs_current s)) [
  | inl e ↦ ground arith
  | inr (job, e) ↦
      let shown = (session_printf (job.cmdline ++ 10 ∷ []) s).0 in
      let job' = record job { background = false; state = running } in
      let resumed = emit (resume_effects job) (update job' shown) in
      foreground-IsIdle rs job.jid resumed s'
        (put_job-IsTable job' shown.table (print-IsIdle (job.cmdline ++ 10 ∷ []) s v).table)
        (ground arith)
]

pub do_bg-IsIdle : (s : Session) → IsIdle s → IsIdle (do_bg s)
unfolding do_bg jobs_print_one
do_bg-IsIdle s v = elim (Option-cases (jobs_recent_stopped s)) [
  | inl e ↦ rw (e, do_bg) v
  | inr (job, e) ↦ rw (e, do_bg) (print-IsIdle _ _ (emit-IsIdle _ _ (update-IsIdle _ s v)))
]
