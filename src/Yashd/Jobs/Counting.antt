-- ===== src/Yashd/Jobs/Counting.antt =====
-- The count of live children in `poll_job` of Project 2/yashd/server/src/jobs.c.
use system_prog.Base.{
  ℕ, ◌+◌, ◌-◌, ◌≤◌, ◌<◌, ◌≡◌, refl, Bool, some, List, [], ◌∷◌, arith, ◌==◌, if◌then◌else◌,
}
use system_prog.Yash.Types.{Cmd, running}
use system_prog.Yashd.Types.{Job}
use system_prog.Yashd.Jobs.{
  clear_in, clear_pid, Poll, not_ready, eintr, gone, wif_stopped, wif_continued, died, poll_job,
}

-- How many commands have a child that has not been reaped, and how many have this one.
abbrev pub unreaped : List Cmd → ℕ
unreaped [] = 0
unreaped (c ∷ cs) = (if c.pid == 0 then 0 else 1) + unreaped cs

abbrev pub holders : ℕ → List Cmd → ℕ
holders pid [] = 0
holders pid (c ∷ cs) = (if c.pid == pid then 1 else 0) + holders pid cs

abbrev pub IsCounted : Job → Type 0
IsCounted job = job.nlive ≡ unreaped job.cmds

-- The kernel reports the deaths of children that the job has and that have not been reaped, each
-- once, and says that there is no child (ECHILD) only when none is left.
abbrev pub Truthful : List Poll → Job → Type 0
Truthful [] job = Unit
Truthful (died pid ∷ ps) job =
    (0 < pid)
    × (holders pid job.cmds ≡ 1)
    × Truthful ps (record (clear_pid pid job) { nlive = job.nlive - 1 })
Truthful (gone ∷ ps) job = job.nlive ≡ 0
Truthful (wif_continued ∷ ps) job = Truthful ps (record job { state = running })
Truthful (_ ∷ ps) job = Truthful ps job

unreaped-clear :
    (pid : ℕ) (cs : List Cmd) → 0 < pid → unreaped (clear_in pid cs) + holders pid cs ≡ unreaped cs
unfolding clear_in
unreaped-clear pid [] h = refl
unreaped-clear pid (c ∷ cs) h = ground (arith, unreaped-clear pid cs h)

died-IsCounted :
    (pid : ℕ) (job : Job)
    → IsCounted job
    → 0 < pid
    → holders pid job.cmds ≡ 1
    → IsCounted (record (clear_pid pid job) { nlive = job.nlive - 1 })
unfolding clear_pid
died-IsCounted pid job v h k = omega (arith, unreaped-clear pid job.cmds h)

-- As long as the kernel's reports are truthful `nlive` is the number of the job's children that
-- have not been reaped, also after any number of reports, and it never grows.
pub poll_job-IsCounted :
    (ps : List Poll) (job job' : Job) (block hit : Bool) (rest : List Poll)
    → IsCounted job
    → Truthful ps job
    → poll_job ps job block ≡ some (job', hit, rest)
    → IsCounted job' × (job'.nlive ≤ job.nlive)
unfolding poll_job
poll_job-IsCounted [] job job' block hit rest v t h = ground arith
poll_job-IsCounted (not_ready ∷ ps) job job' block hit rest v t h = ground arith
poll_job-IsCounted (eintr ∷ ps) job job' block hit rest v t h =
    ground (arith, poll_job-IsCounted ps job job' block hit rest v t)
poll_job-IsCounted (gone ∷ ps) job job' block hit rest v t h = ground arith
poll_job-IsCounted (wif_stopped ∷ ps) job job' block hit rest v t h = ground arith
poll_job-IsCounted (wif_continued ∷ ps) job job' block hit rest v t h =
    ground (arith, poll_job-IsCounted ps (record job { state = running }) job' block hit rest v t)
poll_job-IsCounted (died pid ∷ ps) job job' block hit rest v t h = ground (
  arith,
  poll_job-IsCounted ps (record (clear_pid pid job) { nlive = job.nlive - 1 }) job' block hit rest
      (died-IsCounted pid job v t.0 t.1) t.2,
)
