-- ===== src/Yashd/Session/Commands.antt =====
-- A command of the client, from builtin_try to dispatch: Project 2/yashd/server/src.
use system_prog.Base.{
  ℕ, ◌≡◌, refl, ◌∙◌, Bool, true, false, none, some, List, [], ◌∷◌, ◌++◌, arith, Str, drop, ◌==◌,
  if◌then◌else◌, Bool-cases, Option-cases, inl, inr,
}
use system_prog.Yash.Shell.{Builtin, jobs_cmd, fg_cmd, bg_cmd, no_builtin, builtin_of}
use system_prog.Yashd.Types.{
  msg_cmd, Job, sigkill, Effect, kill_group, close_fd, log, Session, emit,
}
use system_prog.Yashd.Input.{error}
use system_prog.Yashd.Parse.{Parsed, ok, empty, error, parse_line}
use system_prog.Yashd.Jobs.{jobs_current, jobs_add, jobs_print}
use system_prog.Yashd.Jobs.Order.{jobs_add-IsTable}
use system_prog.Yashd.Jobs.{close_effects}
use system_prog.Yashd.Session.Running.{dispatch_running-Keeps}
use system_prog.Yashd.Session.Serving.{dispatch_running-IsTable}
use system_prog.Yashd.Dispatch.{has_prefix, dispatch_running}
use system_prog.Yashd.Foreground.{Round, do_fg, run_builtin, builtin_try}
use system_prog.Yashd.Exec.{Spawn, Forked, fork_all, launch, enter, pipe_ends, exec_job}
use system_prog.Yashd.Session.{is_quit, run_job, handle_cmd, dispatch}
use system_prog.Yashd.Session.Wellformed.{
  IsIdle, emit-IsIdle, print_rows-IsIdle, foreground-IsIdle, do_fg-IsIdle, do_bg-IsIdle,
}

run_builtin-IsIdle :
    (b : Builtin) (rs : List Round) (s s' : Session) (handled : Bool)
    → IsIdle s
    → run_builtin b rs s ≡ some (s', handled)
    → IsIdle s'
unfolding run_builtin jobs_print
run_builtin-IsIdle jobs_cmd rs s s' handled v h =
    ground (arith, print_rows-IsIdle (jobs_current s) s.table s v)
run_builtin-IsIdle fg_cmd rs s s' handled v h = elim (Option-cases (do_fg rs s)) [
  | inl e ↦ ground arith
  | inr (t, e) ↦ ground (arith, do_fg-IsIdle rs s t v e)
]
run_builtin-IsIdle bg_cmd rs s s' handled v h = ground (arith, do_bg-IsIdle s v)
run_builtin-IsIdle no_builtin rs s s' handled v h = ground (arith, v)

fg-jobs_add :
    (memory : Bool) (proto job : Job) (s s' : Session)
    → jobs_add memory proto s ≡ some (job, s')
    → s'.fg ≡ s.fg
unfolding jobs_add
fg-jobs_add memory proto job s s' h = ground arith

launch-IsIdle :
    (memory : Bool) (rs : List Round) (proto : Job) (s s' : Session)
    → IsIdle s
    → launch rs proto (jobs_add memory proto s) s ≡ some s'
    → IsIdle s'
unfolding launch
launch-IsIdle memory rs proto s s' v h = elim (Option-cases (jobs_add memory proto s)) [
  | inl e ↦
      ground (arith, emit-IsIdle (kill_group proto.pgid sigkill ∷ close_effects proto.infd) s v)
  | inr ((job, t), e) ↦
      let table = jobs_add-IsTable memory proto job s t v.table e in
      let idle : IsIdle t = record {
        table = table;
        fg = fg-jobs_add memory proto job s t e ∙ v.fg;
      } in
      elim (Bool-cases job.background) [
        | inl f ↦ ground (arith, idle)
        | inr f ↦ foreground-IsIdle rs job.jid t s' table (ground arith)
      ]
]

enter-IsIdle :
    (ends : List Effect) (sp : Spawn) (rd wr : ℕ) (rs : List Round) (proto : Job) (f : Forked)
    (s s' : Session)
    → IsIdle s
    → enter ends sp rd wr rs proto f s ≡ some s'
    → IsIdle s'
unfolding enter
enter-IsIdle ends sp rd wr rs proto f s s' v h =
    let s1 = emit (f.effects ++ (ends ++ close_fd rd ∷ [])) s in
    let job : Job = record proto {
      cmds = f.cmds;
      pgid = f.pgid;
      nlive = f.nlive;
      infd = if proto.background then none else some wr;
    } in
    let idle = emit-IsIdle (f.effects ++ (ends ++ close_fd rd ∷ [])) s v in
    elim (Bool-cases (f.nlive == 0)) [
      | inl e ↦ ground (arith, emit-IsIdle (close_fd wr ∷ []) s1 idle)
      | inr e ↦ elim (Bool-cases proto.background) [
        | inl b ↦
            launch-IsIdle sp.memory rs (record job { infd = none }) (emit (close_fd wr ∷ []) s1) s'
              (emit-IsIdle (close_fd wr ∷ []) s1 idle) (ground arith)
        | inr b ↦
            launch-IsIdle sp.memory rs (record job { infd = some wr }) s1 s' idle (ground arith)
      ]
    ]

exec_job-IsIdle :
    (sp : Spawn) (rs : List Round) (proto : Job) (s s' : Session)
    → IsIdle s
    → exec_job sp rs proto s ≡ some s'
    → IsIdle s'
unfolding exec_job
exec_job-IsIdle sp rs proto s s' v h = elim (Option-cases sp.inpipe) [
  | inl e ↦ ground (arith, v)
  | inr ((rd, wr), e) ↦ elim (Option-cases (pipe_ends sp proto.cmds)) [
    | inl p ↦ ground (arith, emit-IsIdle (close_fd rd ∷ close_fd wr ∷ []) s v)
    | inr (ends, p) ↦
        enter-IsIdle ends sp rd wr rs proto (fork_all sp 0 0 proto.cmds) s s' v (ground arith)
  ]
]

quit-IsIdle : (s : Session) → IsIdle s → IsIdle (record s { quit = true })
quit-IsIdle s v = record { table = v.table; fg = v.fg }

run_job-IsIdle :
    (sp : Spawn) (rs : List Round) (job : Job) (s s' : Session)
    → IsIdle s
    → run_job sp rs job s ≡ some s'
    → IsIdle s'
unfolding run_job builtin_try
run_job-IsIdle sp rs job s s' v h = elim (Bool-cases (is_quit job.cmds)) [
  | inl e ↦ ground (arith, quit-IsIdle s v)
  | inr e ↦ elim (Option-cases (run_builtin (builtin_of job.cmds) rs s)) [
    | inl f ↦ ground arith
    | inr ((t, true), f) ↦ ground (arith, run_builtin-IsIdle (builtin_of job.cmds) rs s t true v f)
    | inr ((t, false), f) ↦
        exec_job-IsIdle sp rs job t s' (run_builtin-IsIdle (builtin_of job.cmds) rs s t false v f)
          (ground arith)
  ]
]

handle_cmd-IsIdle :
    (sp : Spawn) (rs : List Round) (text : Str) (s s' : Session)
    → IsIdle s
    → handle_cmd sp rs text s ≡ some s'
    → IsIdle s'
unfolding handle_cmd
handle_cmd-IsIdle sp rs text s s' v h = go (parse_line (some text)) refl
  where
    go : (p : Parsed) → parse_line (some text) ≡ p → IsIdle s'
    go (ok job) e =
        run_job-IsIdle sp rs job (emit (log text ∷ []) s) s' (emit-IsIdle (log text ∷ []) s v)
          (ground arith)
    go empty e = ground (arith, v)
    go error e = ground (arith, v)

pub dispatch-IsIdle :
    (sp : Spawn) (rs : List Round) (text : Str) (s s' : Session)
    → IsIdle s
    → dispatch sp rs text s ≡ some s'
    → IsIdle s'
unfolding dispatch
dispatch-IsIdle sp rs text s s' v h = elim (Bool-cases (has_prefix msg_cmd text)) [
  | inl e ↦ handle_cmd-IsIdle sp rs (drop 4 text) s s' v (ground arith)
  | inr e ↦
      let w : IsIdle (dispatch_running text s) = record {
        table = dispatch_running-IsTable text s v.table;
        fg = (dispatch_running-Keeps text s).fg ∙ v.fg;
      } in
      ground (arith, w)
]
