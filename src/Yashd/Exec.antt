-- ===== src/Yashd/Exec.antt =====
-- The parent's part of exec_job of Project 2/yashd/server/src/exec.c.
use system_prog.Base.{
  ℕ, suc, Bool, Option, none, some, List, [], ◌∷◌, ◌++◌, length, ◌==◌, if◌then◌else◌,
}
use system_prog.Yash.Types.{Cmd}
use system_prog.Yashd.Types.{Job, sigkill, Effect, kill_group, close_fd, spawn, Session, emit}
use system_prog.Yashd.Jobs.{jobs_add, close_effects}
use system_prog.Yashd.Foreground.{Round, foreground}

-- What the system calls of one `exec_job` return: the two ends of the input pipe, the pipe of a
-- pipeline, the forks and the allocation.
pub record Spawn : Type 0 where
  pub inpipe : Option (ℕ × ℕ)
  pub pipe : Option (ℕ × ℕ)
  pub fork : ℕ → Option ℕ
  pub memory : Bool

pub record Forked : Type 0 where
  pub cmds : List Cmd
  pub pgid : ℕ
  pub nlive : ℕ
  pub effects : List Effect

unfoldable pub fork_all : Spawn → ℕ → ℕ → List Cmd → Forked
fork_all sp i pgid [] = record { cmds = []; pgid = pgid; nlive = 0; effects = [] }
fork_all sp i pgid (c ∷ cs) = elim (sp.fork i) [
  | none ↦ record { cmds = c ∷ cs; pgid = pgid; nlive = 0; effects = [] }
  | some pid ↦
      let group : ℕ = if pgid == 0 then pid else pgid in
      let more : Forked = fork_all sp (suc i) group cs in
      record {
        cmds = record c { pid = pid } ∷ more.cmds;
        pgid = more.pgid;
        nlive = suc more.nlive;
        effects = spawn pid group ∷ more.effects;
      }
]

-- What follows `jobs_add`.
unfoldable pub launch : List Round → Job → Option (Job × Session) → Session → Option Session
launch rs proto none s = some (emit (kill_group proto.pgid sigkill ∷ close_effects proto.infd) s)
launch rs proto (some (job, s')) s =
    let fore = foreground rs job.jid s' in if job.background then some s' else fore

-- The pipe of a pipeline: what closes its ends in the parent, nothing without one, and `none` where
-- it cannot be had.
unfoldable pub pipe_ends : Spawn → List Cmd → Option (List Effect)
pipe_ends sp cmds =
    if length cmds == 2
    then elim sp.pipe [ none ↦ none | some (rd, wr) ↦ some (close_fd rd ∷ close_fd wr ∷ []) ]
    else some []

-- What follows the forks. `ends` closes the pipe; the input pipe's read end is closed once the
-- children have it; a background job's stdin is closed at once.
unfoldable pub enter :
    List Effect → Spawn → ℕ → ℕ → List Round → Job → Forked → Session → Option Session
enter ends sp rd wr rs proto f s =
    let s1 = emit (f.effects ++ (ends ++ close_fd rd ∷ [])) s in
    let proto' = record proto {
      cmds = f.cmds;
      pgid = f.pgid;
      nlive = f.nlive;
      infd = if proto.background then none else some wr;
    } in
    let s2 = if proto.background then emit (close_fd wr ∷ []) s1 else s1 in
    let launched = launch rs proto' (jobs_add sp.memory proto' s2) s2 in
    if f.nlive == 0 then some (emit (close_fd wr ∷ []) s1) else launched

unfoldable pub exec_job : Spawn → List Round → Job → Session → Option Session
exec_job sp rs proto s = elim sp.inpipe [
  | none ↦ some s
  | some (rd, wr) ↦ elim (pipe_ends sp proto.cmds) [
    | none ↦ some (emit (close_fd rd ∷ close_fd wr ∷ []) s)
    | some ends ↦ enter ends sp rd wr rs proto (fork_all sp 0 0 proto.cmds) s
  ]
]
