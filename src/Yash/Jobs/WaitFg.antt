-- ===== src/Yash/Jobs/WaitFg.antt =====
-- The foreground wait of Project 1/yash/src/jobs.c, on what `waitpid` returns.
use system_prog.Base.{
  ℕ, suc, ◌-◌, ◌≤◌, ◌≡◌, false, some, List, [], ◌∷◌, arith, ◌==◌, Bool-cases, inl, inr, ◌⊎◌,
}
use system_prog.Yash.Types.{Job, stopped, done}
use system_prog.Yash.Jobs.{Wait, stop, exit, interrupted, failed, jobs_wait_fg}

-- The deaths that are reported before anything else but EINTR.
abbrev pub exits : List Wait → ℕ
exits [] = 0
exits (exit ∷ ws) = suc (exits ws)
exits (interrupted ∷ ws) = exits ws
exits (stop ∷ ws) = 0
exits (failed ∷ ws) = 0

-- The wait ends once every child has been reported dead, however often a signal interrupts it: the
-- job is then done, with no live child, and nothing else of it has changed.
pub jobs_wait_fg_done :
    (ws : List Wait) (job : Job)
    → job.nlive ≤ exits ws
    → (rest : List Wait) × (jobs_wait_fg ws job
        ≡ some (record job { nlive = 0; state = done }, rest))
unfolding jobs_wait_fg
jobs_wait_fg_done [] job h = ([], ground arith)
jobs_wait_fg_done (w ∷ ws) job h = elim (Bool-cases (job.nlive == 0)) [
  | inl z ↦ (w ∷ ws, ground arith)
  | inr z ↦
      on_report w h z (λ k. jobs_wait_fg_done ws (record job { nlive = job.nlive - 1 }) k)
        (λ k. jobs_wait_fg_done ws job k)
]
  where
    on_report :
        (w : Wait)
        → job.nlive ≤ exits (w ∷ ws)
        → (job.nlive == 0) ≡ false
        → (job.nlive - 1 ≤ exits ws
            → (rest : List Wait) × (jobs_wait_fg ws (record job { nlive = job.nlive - 1 })
                ≡ some (record job { nlive = 0; state = done }, rest)))
        → (job.nlive ≤ exits ws
            → (rest : List Wait) × (jobs_wait_fg ws job
                ≡ some (record job { nlive = 0; state = done }, rest)))
        → (rest : List Wait) × (jobs_wait_fg (w ∷ ws) job
            ≡ some (record job { nlive = 0; state = done }, rest))
    on_report stop h z died again = absurd (ground arith)
    on_report failed h z died again = absurd (ground arith)
    on_report exit h z died again = let r = died (omega arith) in (r.0, ground (arith, r.1))
    on_report interrupted h z died again = let r = again h in (r.0, ground (arith, r.1))

-- How a job may look after the wait.
pub record Ended (job job' : Job) : Type 0 where
  pub same : job' ≡ record job { nlive = job'.nlive; state = job'.state }
  pub fewer : job'.nlive ≤ job.nlive
  pub state : (job'.state ≡ done) ⊎ ((job'.state ≡ stopped) × (1 ≤ job'.nlive))

-- Whenever the wait ends the job is done or stopped, with no more live children than before; a job
-- that is stopped has a live child, and of the rest of the job nothing has changed.
pub jobs_wait_fg-Ended :
    (ws : List Wait) (job job' : Job) (rest : List Wait)
    → jobs_wait_fg ws job ≡ some (job', rest)
    → Ended job job'
unfolding jobs_wait_fg
jobs_wait_fg-Ended [] job job' rest h = ground arith
jobs_wait_fg-Ended (stop ∷ ws) job job' rest h = ground arith
jobs_wait_fg-Ended (failed ∷ ws) job job' rest h = ground arith
jobs_wait_fg-Ended (interrupted ∷ ws) job job' rest h =
    ground (arith, jobs_wait_fg-Ended ws job job' rest)
jobs_wait_fg-Ended (exit ∷ ws) job job' rest h =
    ground (arith, jobs_wait_fg-Ended ws (record job { nlive = job.nlive - 1 }) job' rest)
