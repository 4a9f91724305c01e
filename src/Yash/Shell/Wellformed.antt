-- ===== src/Yash/Shell/Wellformed.antt =====
-- What holds at every prompt of yash (Project 1/yash/src/main.c): the job table is in order and
-- the shell owns the terminal.
use system_prog.Base.{
  ℕ, ◌<◌, ◌≡◌, refl, Bool, true, false, Option, none, some, List, [], ◌∷◌, arith, Str, ◌==◌,
  Option-cases, if-cases, inl, inr, length, not, ◌&&◌, dec_le,
}
use system_prog.Yash.Types.{Job, running, max_jobs}
use system_prog.Yash.Parse.{ok, empty, error, parse_line, Parsed}
use system_prog.Yash.Jobs.{
  Table, Wait, Status, jobs_add, jobs_current, jobs_recent_stopped, jobs_wait_fg, jobs_count,
  jobs_kill_all,
}
use system_prog.Yash.Jobs.Order.{IsTable, jobs_add_lem, jobs_remove-IsTable, put_job-IsTable}
use system_prog.Yash.Jobs.Reap.{jobs_reap-IsTable}
use system_prog.Yash.Shell.{
  World, Spawn, Forked, Builtin, jobs_cmd, fg_cmd, bg_cmd, no_builtin, Input, line, eof,
  interrupted, Turn, sig_give_terminal, settle, foreground, fg_job, do_fg, bg_job, do_bg,
  builtin_of, run_builtin, builtin_try, fork_all, launch, enter, exec_job, run_job, run_line, reap,
  leave, act, turn, run, chomp, emit, complain, pipe_word,
}

-- The table is in order, and the shell can take the terminal.
pub record IsReady (w : World) : Type 0 where
  pub table : IsTable w.table
  pub positive : 0 < w.shell_pgid

-- And it has the terminal.
pub record IsPrompt (w : World) : Type 0 where
  pub ready : IsReady w
  pub owner : w.terminal ≡ w.shell_pgid

settle-IsPrompt :
    (o : Option (Job × List Wait)) (w w' : World) → settle o w ≡ some w' → IsReady w → IsPrompt w'
unfolding settle sig_give_terminal
settle-IsPrompt none w w' h v = absurd (ground arith)
settle-IsPrompt (some (job, ws)) w w' h v =
    ground (arith, jobs_remove-IsTable job.jid w.table v.table, put_job-IsTable job w.table v.table)

foreground-IsPrompt :
    (job : Job) (w w' : World) → foreground job w ≡ some w' → IsReady w → IsPrompt w'
unfolding foreground sig_give_terminal
foreground-IsPrompt job w w' h v =
    settle-IsPrompt (jobs_wait_fg w.waits job) (sig_give_terminal job.pgid w) w' h (ground arith)

do_fg-IsPrompt : (w w' : World) → do_fg w ≡ some w' → IsPrompt w → IsPrompt w'
unfolding do_fg fg_job
do_fg-IsPrompt w w' h v = elim (Option-cases (jobs_current w.table)) [
  | inl e ↦ ground arith
  | inr (job, e) ↦
      let job' : Job = record job { background = false; state = running } in
      foreground-IsPrompt job' _ w' (rw (e, do_fg) at h)
        (record { table = put_job-IsTable job' w.table v.ready.table; positive = v.ready.positive })
]

do_bg-IsPrompt : (w : World) → IsPrompt w → IsPrompt (do_bg w)
unfolding do_bg bg_job
do_bg-IsPrompt w v = elim (Option-cases (jobs_recent_stopped w.table)) [
  | inl e ↦ rw (e, do_bg) v
  | inr (job, e) ↦
      rw (e, do_bg)
        (record {
          ready = record {
            table =
                put_job-IsTable (record job { state = running; background = true }) w.table
                  v.ready.table;
            positive = v.ready.positive;
          };
          owner = v.owner;
        })
]

run_builtin-IsPrompt :
    (b : Builtin) (w w' : World) (handled : Bool)
    → run_builtin b w ≡ some (w', handled)
    → IsPrompt w
    → IsPrompt w'
unfolding run_builtin
run_builtin-IsPrompt jobs_cmd w w' k h v = ground arith
run_builtin-IsPrompt no_builtin w w' k h v = ground arith
run_builtin-IsPrompt bg_cmd w w' k h v = ground (arith, do_bg-IsPrompt w v)
run_builtin-IsPrompt fg_cmd w w' k h v = elim (Option-cases (do_fg w)) [
  | inl e ↦ ground arith
  | inr (u, e) ↦ ground (arith, do_fg-IsPrompt w u e v)
]

-- A new job enters the table.
jobs_add-IsTable :
    (memory : Bool) (t : Table) (p : Job) (r : Table × Job)
    → IsTable t
    → jobs_add memory t p ≡ some r
    → IsTable r.0
jobs_add-IsTable true t p r v h = elim (dec_le max_jobs (jobs_count t)) [
  | yes full ↦ absurd (cc ((jobs_add_lem true t p v).0 full))
  | no room ↦
      let added = (jobs_add_lem true t p v).2 refl (omega arith) in ground (arith, added.1, added.3)
]
jobs_add-IsTable false t p r v h = absurd (cc ((jobs_add_lem false t p v).1 refl))

launch-IsPrompt :
    (o : Option (Table × Job)) (w w' : World)
    → launch o w ≡ some w'
    → ((r : Table × Job) → o ≡ some r → IsTable r.0)
    → IsPrompt w
    → IsPrompt w'
unfolding launch
launch-IsPrompt none w w' h t v = ground arith
launch-IsPrompt (some (table, job)) w w' h t v =
    elim (if-cases job.background (some (record w { table = table }))
      (foreground job (record w { table = table })) (some w') h) [
        | inl (b, e) ↦ ground (arith, t (table, job) refl)
        | inr (b, e) ↦
            foreground-IsPrompt job (record w { table = table }) w' e
              (record { table = t (table, job) refl; positive = v.ready.positive })
      ]

exec_job-IsPrompt :
    (sp : Spawn) (job : Job) (w w' : World) → exec_job sp job w ≡ some w' → IsPrompt w → IsPrompt w'
unfolding exec_job enter
exec_job-IsPrompt sp job w w' h v =
    elim (if-cases ((length job.cmds == 2) && not sp.pipe) (some (emit (complain pipe_word ∷ []) w))
      (enter sp job forked w) (some w') h) [
        | inl (b, e) ↦ ground arith
        | inr (b, e) ↦
            elim (if-cases (forked.nlive == 0) (some (emit forked.effects w))
              (launch added (emit forked.effects w)) (some w') e) [
                | inl (c, f) ↦ ground arith
                | inr (c, f) ↦
                    launch-IsPrompt added (emit forked.effects w) w' f
                      (λ r k. jobs_add-IsTable sp.memory w.table proto r v.ready.table k)
                      (record {
                        ready = record { table = v.ready.table; positive = v.ready.positive };
                        owner = v.owner;
                      })
              ]
      ]
  where
    forked : Forked
    forked = fork_all sp 0 0 job.cmds

    proto : Job
    proto = record job { cmds = forked.cmds; pgid = forked.pgid; nlive = forked.nlive }

    added : Option (Table × Job)
    added = jobs_add sp.memory w.table proto

run_job-IsPrompt :
    (sp : Spawn) (job : Job) (w w' : World) → run_job sp job w ≡ some w' → IsPrompt w → IsPrompt w'
unfolding run_job builtin_try
run_job-IsPrompt sp job w w' h v = elim (Option-cases (run_builtin (builtin_of job.cmds) w)) [
  | inl e ↦ absurd (ground arith)
  | inr ((u, true), e) ↦ ground (arith, run_builtin-IsPrompt (builtin_of job.cmds) w u true e v)
  | inr ((u, false), e) ↦
      exec_job-IsPrompt sp job u w' (ground arith)
        (run_builtin-IsPrompt (builtin_of job.cmds) w u false e v)
]

run_line-IsPrompt :
    (sp : Spawn) (text : Str) (w w' : World)
    → run_line sp text w ≡ some w'
    → IsPrompt w
    → IsPrompt w'
unfolding run_line
run_line-IsPrompt sp text w w' h v = go (parse_line (some (chomp text))) h
  where
    go :
        (p : Parsed)
        → (elim p [ ok job ↦ run_job sp job w | empty ↦ some w | error ↦ some w ]) ≡ some w'
        → IsPrompt w'
    go (ok job) k = run_job-IsPrompt sp job w w' k v
    go empty k = ground arith
    go error k = ground arith

reap-IsPrompt : (rs : List (ℕ × Status)) (w : World) → IsPrompt w → IsPrompt (reap rs w)
unfolding reap
reap-IsPrompt rs w v = record {
  ready = record {
    table = jobs_reap-IsTable rs w.table v.ready.table;
    positive = v.ready.positive;
  };
  owner = v.owner;
}

act-IsPrompt :
    (sp : Spawn) (i : Input) (w w' : World) (more : Bool)
    → act sp i w ≡ some (w', more)
    → IsPrompt w
    → IsPrompt w'
unfolding act leave jobs_kill_all jobs_count
act-IsPrompt sp eof w w' more h v = ground arith
act-IsPrompt sp interrupted w w' more h v = ground arith
act-IsPrompt sp (line text) w w' more h v = elim (Option-cases (run_line sp text w)) [
  | inl e ↦ absurd (ground arith)
  | inr (u, e) ↦ ground (arith, run_line-IsPrompt sp text w u e v)
]

turn-IsPrompt :
    (t : Turn) (w w' : World) (more : Bool) → turn t w ≡ some (w', more) → IsPrompt w → IsPrompt w'
unfolding turn
turn-IsPrompt t w w' more h v =
    act-IsPrompt t.spawn t.input (reap t.reports w) w' more h (reap-IsPrompt t.reports w v)

-- Whatever the user types and the kernel reports, after any number of rounds of the loop of `main`
-- that come to an end the job table holds at most YASH_MAX_JOBS jobs, numbered in growing order
-- from above 0, and the shell's own process group owns the terminal, if both held at the start.
pub run-IsPrompt :
    (ts : List Turn) (w w' : World) (more : Bool)
    → run ts w ≡ some (w', more)
    → IsPrompt w
    → IsPrompt w'
unfolding run
run-IsPrompt [] w w' more h v = ground arith
run-IsPrompt (t ∷ ts) w w' more h v = elim (Option-cases (turn t w)) [
  | inl e ↦ absurd (ground arith)
  | inr ((u, true), e) ↦ run-IsPrompt ts u w' more (ground arith) (turn-IsPrompt t w u true e v)
  | inr ((u, false), e) ↦ ground (arith, turn-IsPrompt t w u false e v)
]
