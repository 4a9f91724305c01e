-- ===== src/Yash/Shell/Children.antt =====
-- What becomes of the processes that `exec_job` of Project 1/yash/src/exec.c starts.
use system_prog.Base.{
  ℕ, zero, suc, ◌≤◌, ◌<◌, ◌≡◌, ◌≢◌, refl, true, some, List, [], ◌∷◌, ◌++◌, arith, ◌==◌,
  if◌then◌else◌, Option-cases, inl, inr, append_assoc, ap, ◌∙◌, append-nil,
}
use system_prog.Yash.Types.{Cmd, Job, max_jobs}
use system_prog.Yash.Jobs.{jobs_count, killed_groups, jobs_kill_all}
use system_prog.Yash.Jobs.Order.{IsTable, jobs_add_lem}
use system_prog.Yash.Shell.{
  World, Spawn, Forked, Effect, spawn, complain, print, kill_group, sigkill, fork_all, launch,
  enter, exec_job, emit, too_many, sigint, sigtstp, sigcont, leave, kill_effects,
}

-- The children that the effects start, each with its group.
abbrev pub children : List Effect → List (ℕ × ℕ)
children [] = []
children (spawn pid g ∷ es) = (pid, g) ∷ children es
children (_ ∷ es) = children es

-- The pids of the commands that have been started: the first `n`.
abbrev pub started : ℕ → List Cmd → List ℕ
started zero cs = []
started (suc n) [] = []
started (suc n) (c ∷ cs) = c.pid ∷ started n cs

abbrev pub in_group : ℕ → List ℕ → List (ℕ × ℕ)
in_group g [] = []
in_group g (p ∷ ps) = (p, g) ∷ in_group g ps

-- Every pid that `fork` returns is positive.
abbrev pub Positive : Spawn → Type 0
Positive sp = (i pid : ℕ) → sp.fork i ≡ some pid → 0 < pid

-- Once the group is known every later child joins it.
fork_all-group :
    (sp : Spawn) (cs : List Cmd) (i g : ℕ)
    → 0 < g
    → let f = fork_all sp i g cs in
      (f.pgid ≡ g) × (children f.effects ≡ in_group g (started f.nlive f.cmds))
unfolding fork_all
fork_all-group sp [] i g h = (refl, refl)
fork_all-group sp (c ∷ cs) i g h = elim (Option-cases (sp.fork i)) [
  | inl e ↦ ground arith
  | inr (pid, e) ↦ ground (arith, fork_all-group sp cs (suc i) g h)
]

-- All children of one job are in one process group, that of the first child, whose number the job
-- gets; `nlive` counts them and `cmds` holds their pids. So one signal to the group reaches the
-- whole pipeline.
pub fork_all_one_group :
    (sp : Spawn) (cs : List Cmd)
    → Positive sp
    → let f = fork_all sp 0 0 cs in
      (children f.effects ≡ in_group f.pgid (started f.nlive f.cmds))
      × ((f.nlive ≢ 0) → sp.fork 0 ≡ some f.pgid)
unfolding fork_all
fork_all_one_group sp [] p = (refl, λ h. absurd (h refl))
fork_all_one_group sp (c ∷ cs) p = elim (Option-cases (sp.fork 0)) [
  | inl e ↦ ground arith
  | inr (pid, e) ↦ ground (arith, fork_all-group sp cs 1 pid (p 0 pid e))
]

-- The groups that get SIGKILL.
abbrev pub killed : List Effect → List ℕ
killed [] = []
killed (kill_group g sigkill ∷ es) = g ∷ killed es
killed (_ ∷ es) = killed es

killed-append : (es fs : List Effect) → killed (es ++ fs) ≡ killed es ++ killed fs
killed-append [] fs = refl
killed-append (print s ∷ es) fs = killed-append es fs
killed-append (complain s ∷ es) fs = killed-append es fs
killed-append (spawn p g ∷ es) fs = killed-append es fs
killed-append (kill_group g sigkill ∷ es) fs = ap (◌∷◌ g) (killed-append es fs)
killed-append (kill_group g sigint ∷ es) fs = killed-append es fs
killed-append (kill_group g sigtstp ∷ es) fs = killed-append es fs
killed-append (kill_group g sigcont ∷ es) fs = killed-append es fs

killed-fork_all : (sp : Spawn) (cs : List Cmd) (i g : ℕ) → killed (fork_all sp i g cs).effects ≡ []
unfolding fork_all
killed-fork_all sp [] i g = refl
killed-fork_all sp (c ∷ cs) i g = elim (Option-cases (sp.fork i)) [
  | inl e ↦ ground arith
  | inr (pid, e) ↦ ground (arith, killed-fork_all sp cs (suc i) (if g == 0 then pid else g))
]

killed-kill_effects : (gs : List ℕ) → killed (kill_effects gs) ≡ gs
killed-kill_effects [] = refl
killed-kill_effects (g ∷ gs) = ap (◌∷◌ g) (killed-kill_effects gs)

-- Leaving kills the group of every job of the table, and nothing else.
pub killed-leave : (w : World) → killed (leave w).trace ≡ killed w.trace ++ killed_groups w.table
unfolding leave jobs_kill_all
killed-leave w =
    killed-append w.trace (print (10 ∷ []) ∷ kill_effects (killed_groups w.table))
    ∙ ap (◌++◌ (killed w.trace)) (killed-kill_effects (killed_groups w.table))

fork_all-started :
    (sp : Spawn) (c : Cmd) (cs : List Cmd) (g : ℕ)
    → sp.fork 0 ≡ some g
    → ((fork_all sp 0 0 (c ∷ cs)).nlive ≢ 0)
      × (rest : List Effect) × ((fork_all sp 0 0 (c ∷ cs)).effects ≡ spawn g g ∷ rest)
unfolding fork_all
fork_all-started sp c cs g e = ((λ h. ground arith), (fork_all sp 1 g cs).effects, ground arith)

-- A background job that finds room is entered with the group of its first child and the number of
-- its children; the shell neither waits nor gives the terminal away.
pub exec_job_background :
    (sp : Spawn) (job : Job) (c : Cmd) (cs : List Cmd) (w : World) (g : ℕ)
    → IsTable w.table
    → jobs_count w.table < max_jobs
    → sp.memory ≡ true
    → sp.pipe ≡ true
    → sp.fork 0 ≡ some g
    → job.cmds ≡ c ∷ cs
    → job.background ≡ true
    → let f = fork_all sp 0 0 (c ∷ cs) in
      (jid : ℕ) × (exec_job sp job w
        ≡ some (record w {
          table =
              w.table
              ++ record job { jid = jid; cmds = f.cmds; pgid = f.pgid; nlive = f.nlive } ∷ [];
          trace = w.trace ++ f.effects;
        }))
unfolding exec_job enter launch
exec_job_background sp job c cs w g v room m p e k b =
    let f : Forked = fork_all sp 0 0 (c ∷ cs) in
    let added =
      (jobs_add_lem sp.memory w.table (record job { cmds = f.cmds; pgid = f.pgid; nlive = f.nlive })
          v).2
        m room in
    (
      (added.0).jid,
      ground (arith, added.1, added.2, (fork_all-started sp c cs g e).0, ap (fork_all sp 0 0) k),
    )

-- With a full table the children are started all the same, and then forgotten: the table stays as
-- it was, so that the exit of the shell kills the groups of the other jobs only.
pub exec_job_untracked :
    (sp : Spawn) (job : Job) (c : Cmd) (cs : List Cmd) (w : World) (g : ℕ)
    → IsTable w.table
    → max_jobs ≤ jobs_count w.table
    → sp.pipe ≡ true
    → sp.fork 0 ≡ some g
    → job.cmds ≡ c ∷ cs
    → (w' : World) × (exec_job sp job w ≡ some w')
      × (w'.table ≡ w.table)
      × ((rest : List Effect) × (w'.trace ≡ w.trace ++ spawn g g ∷ rest))
      × (killed (leave w').trace ≡ killed w.trace ++ killed_groups w.table)
unfolding exec_job enter launch
exec_job_untracked sp job c cs w g v full p e k =
    let f : Forked = fork_all sp 0 0 (c ∷ cs) in
    let refused =
      (jobs_add_lem sp.memory w.table (record job { cmds = f.cmds; pgid = f.pgid; nlive = f.nlive })
          v).0
        full in
    let begun = fork_all-started sp c cs g e in
    let w' : World = emit (complain too_many ∷ []) (emit f.effects w) in
    (
      w',
      ground (arith, refused, begun.0, ap (fork_all sp 0 0) k),
      refl,
      (
        begun.1 ++ complain too_many ∷ [],
        append_assoc w.trace f.effects (complain too_many ∷ [])
            ∙ ap (λ es. w.trace ++ (es ++ complain too_many ∷ [])) begun.2,
      ),
      killed-leave w' ∙ ap (λ ks. ks ++ killed_groups w.table) forgotten,
    )
  where
    forgotten :
        killed ((w.trace ++ (fork_all sp 0 0 (c ∷ cs)).effects) ++ complain too_many ∷ [])
        ≡ killed w.trace
    forgotten = simp (killed-append, killed-fork_all, append-nil)
