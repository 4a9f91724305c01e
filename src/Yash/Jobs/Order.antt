-- ===== src/Yash/Jobs/Order.antt =====
-- The invariant of the job table of Project 1/yash/src/jobs.c.
use system_prog.Base.{
  ℕ, ◌+◌, ◌≤◌, ◌<◌, ◌≡◌, refl, Bool, true, false, none, some, List, [], ◌∷◌, ◌++◌, arith, ◌⊎◌, inl,
  inr,
}
use system_prog.Yash.Types.{Job, max_jobs}
use system_prog.Yash.Jobs.{
  Table, jobs_count, next_jid, jobs_add, jobs_remove, report_job, report, collect, put_job, Status,
  wif_stopped, wif_continued, wif_exited,
}

-- Job numbers grow along the list, from above `lo`.
abbrev pub Above : ℕ → Table → Type 0
Above lo [] = Unit
Above lo (j ∷ js) = (lo < j.jid) × Above j.jid js

pub record IsTable (t : Table) : Type 0 where
  pub ordered : Above 0 t
  pub bounded : jobs_count t ≤ max_jobs

pub Above-mono : (a b : ℕ) (t : Table) → a ≤ b → Above b t → Above a t
Above-mono a b [] h v = tt
Above-mono a b (j ∷ js) h v = (omega arith, v.1)

-- The next number is above every number in use.
next_jid-lt : (lo : ℕ) (t : Table) → Above lo t → lo < next_jid t ⊎ (t ≡ [])
unfolding next_jid
next_jid-lt lo [] v = inr refl
next_jid-lt lo (j ∷ []) v = inl (omega arith)
next_jid-lt lo (j ∷ k ∷ js) v = ground (arith, next_jid-lt j.jid (k ∷ js) v.1)

Above-snoc :
    (lo : ℕ) (t : Table) (p : Job)
    → Above lo t
    → lo < next_jid t
    → Above lo (t ++ record p { jid = next_jid t } ∷ [])
unfolding next_jid
Above-snoc lo [] p v k = (k, tt)
Above-snoc lo (j ∷ []) p v k = (v.0, (omega arith, tt))
Above-snoc lo (j ∷ i ∷ js) p v k =
    (v.0, Above-snoc j.jid (i ∷ js) p v.1 (ground (arith, next_jid-lt j.jid (i ∷ js) v.1)))

jobs_count-append : (t : Table) (j : Job) → jobs_count (t ++ j ∷ []) ≡ jobs_count t + 1
unfolding jobs_count
jobs_count-append [] j = refl
jobs_count-append (k ∷ t) j = omega (arith, jobs_count-append t j)

next_jid-pos : (t : Table) → Above 0 t → 0 < next_jid t
unfolding next_jid
next_jid-pos [] v = omega arith
next_jid-pos (j ∷ t) v = ground (arith, next_jid-lt 0 (j ∷ t) v)

-- `jobs_add` on every branch: a full table refuses, whatever `malloc` does, and so does a failing
-- `malloc`; otherwise the job stands at the end of the list under a number that keeps the table
-- ordered and within YASH_MAX_JOBS, and nothing else changes.
pub jobs_add_lem :
    (memory : Bool) (t : Table) (p : Job)
    → IsTable t
    → ((max_jobs ≤ jobs_count t) → jobs_add memory t p ≡ none)
      × (memory ≡ false → jobs_add memory t p ≡ none)
      × (memory ≡ true
          → jobs_count t < max_jobs
          → (job : Job) × (jobs_add memory t p ≡ some (t ++ job ∷ [], job))
            × (job ≡ record p { jid = job.jid })
            × IsTable (t ++ job ∷ []))
unfolding jobs_add
jobs_add_lem memory t p v = (
  (λ h. ground arith),
  (λ h. ground arith),
  λ h k. (
    record p { jid = next_jid t },
    ground arith,
    refl,
    record {
      ordered = Above-snoc 0 t p v.ordered (next_jid-pos t v.ordered);
      bounded = omega (arith, jobs_count-append t (record p { jid = next_jid t }));
    },
  ),
)

Above-remove : (lo jid : ℕ) (t : Table) → Above lo t → Above lo (jobs_remove jid t)
unfolding jobs_remove
Above-remove lo jid [] v = tt
Above-remove lo jid (j ∷ js) v =
    ground (arith, Above-remove j.jid jid js v.1, Above-mono lo j.jid js)

count-remove : (jid : ℕ) (t : Table) → jobs_count (jobs_remove jid t) ≤ jobs_count t
unfolding jobs_remove jobs_count
count-remove jid [] = omega arith
count-remove jid (j ∷ js) = ground (arith, count-remove jid js)

pub jobs_remove-IsTable : (jid : ℕ) (t : Table) → IsTable t → IsTable (jobs_remove jid t)
jobs_remove-IsTable jid t v = record {
  ordered = Above-remove 0 jid t v.ordered;
  bounded = omega (arith, count-remove jid t);
}

jid-report_job : (st : Status) (j : Job) → (report_job st j).jid ≡ j.jid
unfolding report_job
jid-report_job wif_stopped j = refl
jid-report_job wif_continued j = refl
jid-report_job wif_exited j = refl

Above-report : (lo pid : ℕ) (st : Status) (t : Table) → Above lo t → Above lo (report pid st t)
unfolding report
Above-report lo pid st [] v = tt
Above-report lo pid st (j ∷ js) v =
    ground (arith, jid-report_job st j, Above-report j.jid pid st js v.1)

count-report : (pid : ℕ) (st : Status) (t : Table) → jobs_count (report pid st t) ≡ jobs_count t
unfolding report jobs_count
count-report pid st [] = refl
count-report pid st (j ∷ js) = ground (arith, count-report pid st js)

pub collect-IsTable : (rs : List (ℕ × Status)) (t : Table) → IsTable t → IsTable (collect rs t)
unfolding collect
collect-IsTable [] t v = v
collect-IsTable ((pid, st) ∷ rs) t v = collect-IsTable rs (report pid st t) (record {
  ordered = Above-report 0 pid st t v.ordered;
  bounded = omega (arith, count-report pid st t);
})

Above-put : (lo : ℕ) (job : Job) (t : Table) → Above lo t → Above lo (put_job job t)
unfolding put_job
Above-put lo job [] v = tt
Above-put lo job (j ∷ js) v = ground (arith, Above-put j.jid job js v.1)

count-put : (job : Job) (t : Table) → jobs_count (put_job job t) ≡ jobs_count t
unfolding put_job jobs_count
count-put job [] = refl
count-put job (j ∷ js) = ground (arith, count-put job js)

pub put_job-IsTable : (job : Job) (t : Table) → IsTable t → IsTable (put_job job t)
put_job-IsTable job t v = record {
  ordered = Above-put 0 job t v.ordered;
  bounded = omega (arith, count-put job t);
}
