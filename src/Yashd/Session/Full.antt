-- ===== src/Yashd/Session/Full.antt =====
-- exec_job of Project 2/yashd/server/src/exec.c when the job table is full.
use system_prog.Base.{
  ℕ, suc, ◌≤◌, ◌<◌, ◌≡◌, ◌∙◌, refl, ap, Bool, true, false, Option, none, some, List, [], ◌∷◌, ◌++◌,
  append_assoc, arith, ◌==◌, Bool-cases, Option-cases, inl, inr,
}
use system_prog.Yash.Types.{Cmd, max_jobs}
use system_prog.Yashd.Types.{Job, sigkill, Effect, kill_group, close_fd, spawn, Session, emit}
use system_prog.Yashd.Jobs.{jobs_add, jobs_count, close_effects}
use system_prog.Yashd.Exec.{Spawn, Forked, fork_all, launch, enter, pipe_ends, exec_job}
use system_prog.Yashd.Foreground.{Round}

-- The effects start processes of the group `g` only, and do nothing else.
abbrev pub Starts : ℕ → List Effect → Type 0
Starts g [] = Unit
Starts g (spawn p k ∷ es) = (k ≡ g) × Starts g es
Starts g (_ ∷ es) = ⊥

-- What `fork` gives is the number of a process, which is not 0.
abbrev pub IsFork : Spawn → Type 0
IsFork sp = (i pid : ℕ) → sp.fork i ≡ some pid → 0 < pid

fork_all-keeps :
    (sp : Spawn) (i g : ℕ) (cs : List Cmd)
    → 0 < g
    → IsFork sp
    → (Starts g (fork_all sp i g cs).effects) × ((fork_all sp i g cs).pgid ≡ g)
unfolding fork_all
fork_all-keeps sp i g [] h f = (tt, refl)
fork_all-keeps sp i g (c ∷ cs) h f = elim (Option-cases (sp.fork i)) [
  | inl e ↦ rw (e, fork_all) (tt, refl)
  | inr (pid, e) ↦ ground (arith, fork_all-keeps sp (suc i) g cs h f)
]

pub fork_all-Starts :
    (sp : Spawn) (cs : List Cmd)
    → IsFork sp
    → Starts (fork_all sp 0 0 cs).pgid (fork_all sp 0 0 cs).effects
unfolding fork_all
fork_all-Starts sp [] f = tt
fork_all-Starts sp (c ∷ cs) f = elim (Option-cases (sp.fork 0)) [
  | inl e ↦ rw (e, fork_all) tt
  | inr (pid, e) ↦ ground (arith, fork_all-keeps sp 1 pid cs (f 0 pid e) f)
]

jobs_add-full :
    (memory : Bool) (proto : Job) (s : Session)
    → max_jobs ≤ jobs_count s
    → jobs_add memory proto s ≡ none
unfolding jobs_add
jobs_add-full memory proto s h = ground arith

-- What ends the group `g`, and the input pipe's write end `wr` with it.
abbrev pub shut_down : Bool → ℕ → ℕ → List Effect
shut_down true g wr = close_fd wr ∷ kill_group g sigkill ∷ []
shut_down false g wr = kill_group g sigkill ∷ close_fd wr ∷ []

emit-join : (es fs : List Effect) (s : Session) → emit fs (emit es s) ≡ emit (es ++ fs) s
emit-join es fs s = ap (λ t. record s { trace = t }) (append_assoc s.trace es fs)

emit-join₃ :
    (es fs gs : List Effect) (s : Session)
    → emit gs (emit fs (emit es s)) ≡ emit (es ++ (fs ++ gs)) s
emit-join₃ es fs gs s = emit-join fs gs (emit es s) ∙ emit-join es (fs ++ gs) s

launch-full :
    (memory : Bool) (rs : List Round) (proto : Job) (s : Session)
    → max_jobs ≤ jobs_count s
    → launch rs proto (jobs_add memory proto s) s
      ≡ some (emit (kill_group proto.pgid sigkill ∷ close_effects proto.infd) s)
unfolding launch
launch-full memory rs proto s h = rw (jobs_add-full memory proto s h)

enter-full :
    (ends : List Effect) (sp : Spawn) (rd wr : ℕ) (rs : List Round) (proto : Job) (f : Forked)
    (s : Session)
    → max_jobs ≤ jobs_count s
    → 0 < f.nlive
    → enter ends sp rd wr rs proto f s
      ≡ some (
          emit
            ((f.effects ++ (ends ++ close_fd rd ∷ [])) ++ shut_down proto.background f.pgid wr)
            s)
unfolding enter jobs_count
enter-full ends sp rd wr rs proto f s full live =
    let nz : (f.nlive == 0) ≡ false = ground arith in
    let es = f.effects ++ (ends ++ close_fd rd ∷ []) in
    let job : Bool → Option ℕ → Job = λ bg fd. record proto {
      background = bg;
      cmds = f.cmds;
      pgid = f.pgid;
      nlive = f.nlive;
      infd = fd;
    } in
    elim (Bool-cases proto.background) [
      | inl b ↦
          rw (b, nz, enter)
            (launch-full sp.memory rs (job true none) (emit (close_fd wr ∷ []) (emit es s)) full
              ∙ ap some (emit-join₃ es (close_fd wr ∷ []) (kill_group f.pgid sigkill ∷ []) s))
      | inr b ↦
          rw (b, nz, enter)
            (launch-full sp.memory rs (job false (some wr)) (emit es s) full
              ∙ ap some (emit-join es (kill_group f.pgid sigkill ∷ close_fd wr ∷ []) s))
    ]

-- With a full table exec_job, once it has its pipes, may start children, all of one process group;
-- it then kills that group, and the table stays as it was.
-- `ends` closes the pipe of a pipeline.
pub exec_job_full :
    (sp : Spawn) (rs : List Round) (proto : Job) (s : Session) (rd wr : ℕ) (ends : List Effect)
    → IsFork sp
    → max_jobs ≤ jobs_count s
    → sp.inpipe ≡ some (rd, wr)
    → pipe_ends sp proto.cmds ≡ some ends
    → 0 < (fork_all sp 0 0 proto.cmds).nlive
    → (es : List Effect) × (g : ℕ) × Starts g es
      × (exec_job sp rs proto s
          ≡ some (emit ((es ++ (ends ++ close_fd rd ∷ [])) ++ shut_down proto.background g wr) s))
unfolding exec_job
exec_job_full sp rs proto s rd wr ends f full inpipe pipe live =
    let forked = fork_all sp 0 0 proto.cmds in
    (
      forked.effects,
      forked.pgid,
      fork_all-Starts sp proto.cmds f,
      ground (arith, enter-full ends sp rd wr rs proto forked s full live),
    )
