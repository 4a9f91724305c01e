-- ===== src/Yashd/Jobs/Order.antt =====
-- The invariant of a session's job table: Project 2/yashd/server/src/jobs.c.
use system_prog.Base.{
  ℕ, suc, ◌+◌, ◌-◌, ◌≤◌, ◌<◌, ◌≡◌, refl, ap, Bool, false, Option, none, some, List, [], ◌∷◌, ◌++◌,
  arith, Str, ◌==◌, ltb, if◌then◌else◌, Bool-cases, inl, inr, ◌⊎◌, length, take, drop,
}
use system_prog.Yash.Types.{max_jobs, running}
use system_prog.Yash.Jobs.{is_done, done_word}
use system_prog.Yashd.Types.{Job, Session, Sent, sent, interrupted, broken, deliver, emit}
use system_prog.Yashd.Output.{write_loop, session_write, session_printf, printf_size}
use system_prog.Yashd.Jobs.{
  Table, count_jobs, jobs_count, next_jid, jobs_add, put_job, unlink, jobs_remove, clear_pid, Poll,
  not_ready, eintr, gone, wif_stopped, wif_continued, died, poll_job, polled, reap_job, collect,
  row, jobs_print_one, done_mark, sweep, jobs_reap,
}

abbrev pub Above : ℕ → Table → Type 0
Above lo [] = Unit
Above lo (j ∷ js) = (lo < j.jid) × Above j.jid js

pub record IsTable (t : Table) : Type 0 where
  pub ordered : Above 0 t
  pub bounded : count_jobs t ≤ max_jobs

Above-mono : (a b : ℕ) (t : Table) → a ≤ b → Above b t → Above a t
Above-mono a b [] h v = tt
Above-mono a b (j ∷ js) h v = (omega arith, v.1)

next_jid-lt : (lo : ℕ) (t : Table) → Above lo t → lo < next_jid t ⊎ (t ≡ [])
unfolding next_jid
next_jid-lt lo [] v = inr refl
next_jid-lt lo (j ∷ []) v = inl (omega arith)
next_jid-lt lo (j ∷ k ∷ js) v = ground (arith, next_jid-lt j.jid (k ∷ js) v.1)

next_jid-pos : (t : Table) → Above 0 t → 0 < next_jid t
unfolding next_jid
next_jid-pos [] v = omega arith
next_jid-pos (j ∷ t) v = ground (arith, next_jid-lt 0 (j ∷ t) v)

Above-snoc :
    (lo : ℕ) (t : Table) (p : Job)
    → Above lo t
    → lo < next_jid t
    → Above lo (t ++ record p { jid = next_jid t } ∷ [])
unfolding next_jid
Above-snoc lo [] p v k = (k, tt)
Above-snoc lo (j ∷ []) p v k = (v.0, (omega arith, tt))
Above-snoc lo (j ∷ i ∷ js) p v k =
    (v.0, Above-snoc j.jid (i ∷ js) p v.1 (ground (arith, next_jid-lt j.jid (i ∷ js) v.1)))

count-snoc : (t : Table) (j : Job) → count_jobs (t ++ j ∷ []) ≡ count_jobs t + 1
unfolding count_jobs
count-snoc [] j = refl
count-snoc (k ∷ t) j = omega (arith, count-snoc t j)

pub jobs_add-IsTable :
    (memory : Bool) (proto job : Job) (s s' : Session)
    → IsTable s.table
    → jobs_add memory proto s ≡ some (job, s')
    → IsTable s'.table
unfolding jobs_add jobs_count
jobs_add-IsTable memory proto job s s' v h = ground (
  arith,
  count-snoc s.table (record proto { jid = next_jid s.table }),
  Above-snoc 0 s.table proto v.ordered (next_jid-pos s.table v.ordered),
)

Above-unlink : (lo jid : ℕ) (t : Table) → Above lo t → Above lo (unlink jid t)
unfolding unlink
Above-unlink lo jid [] v = tt
Above-unlink lo jid (j ∷ js) v =
    ground (arith, Above-unlink j.jid jid js v.1, Above-mono lo j.jid js)

count-unlink : (jid : ℕ) (t : Table) → count_jobs (unlink jid t) ≤ count_jobs t
unfolding unlink count_jobs
count-unlink jid [] = omega arith
count-unlink jid (j ∷ js) = ground (arith, count-unlink jid js)

pub jobs_remove-IsTable :
    (jid : ℕ) (s : Session) → IsTable s.table → IsTable (jobs_remove jid s).table
unfolding jobs_remove
jobs_remove-IsTable jid s v =
    ground (arith, Above-unlink 0 jid s.table v.ordered, count-unlink jid s.table)

Above-put : (lo : ℕ) (job : Job) (t : Table) → Above lo t → Above lo (put_job job t)
unfolding put_job
Above-put lo job [] v = tt
Above-put lo job (j ∷ js) v = ground (arith, Above-put j.jid job js v.1)

count-put : (job : Job) (t : Table) → count_jobs (put_job job t) ≡ count_jobs t
unfolding put_job count_jobs
count-put job [] = refl
count-put job (j ∷ js) = ground (arith, count-put job js)

pub put_job-IsTable : (job : Job) (t : Table) → IsTable t → IsTable (put_job job t)
put_job-IsTable job t v = record {
  ordered = Above-put 0 job t v.ordered;
  bounded = omega (arith, count-put job t);
}

-- Waiting changes neither number nor group of a job.
pub record Same (job job' : Job) : Type 0 where
  pub jid : job'.jid ≡ job.jid
  pub pgid : job'.pgid ≡ job.pgid
  pub infd : job'.infd ≡ job.infd

pub poll_job-Same :
    (ps : List Poll) (job job' : Job) (block hit : Bool) (rest : List Poll)
    → poll_job ps job block ≡ some (job', hit, rest)
    → Same job job'
unfolding poll_job clear_pid
poll_job-Same [] job job' block hit rest h = ground arith
poll_job-Same (not_ready ∷ ps) job job' block hit rest h = ground arith
poll_job-Same (eintr ∷ ps) job job' block hit rest h =
    ground (arith, poll_job-Same ps job job' block hit rest)
poll_job-Same (gone ∷ ps) job job' block hit rest h = ground arith
poll_job-Same (wif_stopped ∷ ps) job job' block hit rest h = ground arith
poll_job-Same (wif_continued ∷ ps) job job' block hit rest h =
    ground (arith, poll_job-Same ps (record job { state = running }) job' block hit rest)
poll_job-Same (died pid ∷ ps) job job' block hit rest h = ground (
  arith,
  poll_job-Same ps (record (clear_pid pid job) { nlive = job.nlive - 1 }) job' block hit rest,
)

jid-polled :
    (job : Job) (o : Option (Job × Bool × List Poll))
    → ((job' : Job) (hit : Bool) (rest : List Poll) → o ≡ some (job', hit, rest) → Same job job')
    → (polled job o).jid ≡ job.jid
unfolding polled
jid-polled job none h = refl
jid-polled job (some (job', hit, rest)) h = ground (arith, h job' hit rest refl)

jid-reap_job : (polls : ℕ → List Poll) (job : Job) → (reap_job polls job).jid ≡ job.jid
unfolding reap_job
jid-reap_job polls job = ground (
  arith,
  jid-polled job (poll_job (polls job.jid) job false)
      (λ job' hit rest h. poll_job-Same (polls job.jid) job job' false hit rest h),
)

Above-collect :
    (lo : ℕ) (polls : ℕ → List Poll) (t : Table) → Above lo t → Above lo (collect polls t)
unfolding collect
Above-collect lo polls [] v = tt
Above-collect lo polls (j ∷ js) v =
    rw (jid-reap_job polls j) (v.0, Above-collect j.jid polls js v.1)

count-collect : (polls : ℕ → List Poll) (t : Table) → count_jobs (collect polls t) ≡ count_jobs t
unfolding collect count_jobs
count-collect polls [] = refl
count-collect polls (j ∷ js) = ap suc (count-collect polls js)

pub table-write_loop :
    (rs : List Sent) (text : Str) (s : Session) → ((write_loop rs text s).0).table ≡ s.table
unfolding write_loop
table-write_loop [] text s = refl
table-write_loop (interrupted ∷ rs) text s = ground (arith, table-write_loop rs text s)
table-write_loop (broken ∷ rs) text s = ground arith
table-write_loop (sent n ∷ rs) text s =
    ground (arith, table-write_loop rs (drop n text) (emit (deliver (take n text) ∷ []) s))

table-write : (text : Str) (s : Session) → ((session_write text s).0).table ≡ s.table
unfolding session_write
table-write text s = table-write_loop s.sends text s

pub table-print : (text : Str) (s : Session) → ((session_printf text s).0).table ≡ s.table
unfolding session_printf
table-print text s = elim (Bool-cases (length text == 0)) [
  | inl e ↦ rw (e, session_printf)
  | inr e ↦
      rw (e, session_printf)
        (table-write (if ltb (length text) printf_size then text else take (printf_size - 1) text)
          s)
]

sweep-IsTable : (rest : Table) (s : Session) → IsTable s.table → IsTable (sweep rest s).table
unfolding sweep jobs_print_one
sweep-IsTable [] s v = v
sweep-IsTable (j ∷ rest) s v = elim (Bool-cases (is_done j.state)) [
  | inl h ↦
      rw (h, sweep)
        (sweep-IsTable rest _ (
          jobs_remove-IsTable j.jid (session_printf (row j (done_mark s) done_word) s).0
            (rw (table-print (row j (done_mark s) done_word) s) v)))
  | inr h ↦ rw (h, sweep) (sweep-IsTable rest s v)
]

pub jobs_reap-IsTable :
    (polls : ℕ → List Poll) (s : Session) → IsTable s.table → IsTable (jobs_reap polls s).table
unfolding jobs_reap
jobs_reap-IsTable polls s v =
    sweep-IsTable (collect polls s.table) (record s { table = collect polls s.table })
      (record {
        ordered = Above-collect 0 polls s.table v.ordered;
        bounded = omega (arith, count-collect polls s.table);
      })
