-- ===== src/Yashd/Jobs.antt =====
-- The job table of a session: Project 2/yashd/server/src/jobs.c, but for the foreground wait. A
-- pointer to a job of the table is the job's `jid`.
pub mod Counting
pub mod Order
use system_prog.Base.{
  ℕ, zero, suc, ◌+◌, ◌-◌, Bool, true, false, ◌&&◌, ◌||◌, not, Option, none, some, List, [], ◌∷◌,
  ◌++◌, Str, ◌==◌, ltb, leb, if◌then◌else◌,
}
use system_prog.Yash.Types.{Cmd, JobState, running, stopped, done, max_jobs}
use system_prog.Yash.Jobs.{is_live, is_stopped, is_done, decimal, has_pid, done_word, state_word}
use system_prog.Yashd.Types.{Job, Session, Effect, close_fd, kill_group, sigkill, emit}
use system_prog.Yashd.Output.{session_printf}

abbrev pub Table : Type 0
Table = List Job

unfoldable pub jobs_init : Session → Session
jobs_init s = record s { table = []; fg = none }

unfoldable pub count_jobs : Table → ℕ
count_jobs [] = 0
count_jobs (j ∷ js) = suc (count_jobs js)

unfoldable pub jobs_count : Session → ℕ
jobs_count s = count_jobs s.table

unfoldable pub next_jid : Table → ℕ
next_jid [] = 1
next_jid (j ∷ []) = j.jid + 1
next_jid (j ∷ k ∷ js) = next_jid (k ∷ js)

unfoldable pub jobs_add : Bool → Job → Session → Option (Job × Session)
jobs_add memory proto s =
    if leb max_jobs (jobs_count s)
    then none
    else if memory
    then (let job = record proto { jid = next_jid s.table } in
        some (job, record s { table = s.table ++ job ∷ [] }))
    else none

-- The job that a pointer means, and a write through the pointer.
unfoldable pub find_job : ℕ → Table → Option Job
find_job jid [] = none
find_job jid (j ∷ js) = if j.jid == jid then some j else find_job jid js

unfoldable pub put_job : Job → Table → Table
put_job job [] = []
put_job job (j ∷ js) = if j.jid == job.jid then job ∷ js else j ∷ put_job job js

unfoldable pub unlink : ℕ → Table → Table
unlink jid [] = []
unlink jid (j ∷ js) = if j.jid == jid then js else j ∷ unlink jid js

abbrev pub close_effects : Option ℕ → List Effect
close_effects none = []
close_effects (some fd) = close_fd fd ∷ []

-- `fg_job == job`
unfoldable pub is_fg : Option ℕ → ℕ → Bool
is_fg none jid = false
is_fg (some k) jid = k == jid

unfoldable pub jobs_remove : ℕ → Session → Session
jobs_remove jid s = elim (find_job jid s.table) [
  | none ↦ s
  | some job ↦
      emit (close_effects job.infd)
        (record s { table = unlink jid s.table; fg = if is_fg s.fg jid then none else s.fg })
]

unfoldable pub current_from : Option Job → Table → Option Job
current_from found [] = found
current_from found (j ∷ js) = current_from (if is_live j.state then some j else found) js

unfoldable pub jobs_current : Session → Option Job
jobs_current s = current_from none s.table

unfoldable pub recent_stopped_from : Option Job → Table → Option Job
recent_stopped_from found [] = found
recent_stopped_from found (j ∷ js) =
    recent_stopped_from (if is_stopped j.state then some j else found) js

unfoldable pub jobs_recent_stopped : Session → Option Job
jobs_recent_stopped s = recent_stopped_from none s.table

unfoldable pub find_pid_in : ℕ → Table → Option Job
find_pid_in pid [] = none
find_pid_in pid (j ∷ js) = if has_pid pid j.cmds then some j else find_pid_in pid js

unfoldable pub jobs_find_pid : Session → ℕ → Option Job
jobs_find_pid s pid = find_pid_in pid s.table

unfoldable pub clear_in : ℕ → List Cmd → List Cmd
clear_in pid [] = []
clear_in pid (c ∷ cs) = (if c.pid == pid then record c { pid = 0 } else c) ∷ clear_in pid cs

unfoldable pub clear_pid : ℕ → Job → Job
clear_pid pid job = record job { cmds = clear_in pid job.cmds }

-- What `waitpid(-pgid, …)` returns: 0, -1 with EINTR, -1 with ECHILD, or a change of a child.
pub data Poll : Type 0 where
  not_ready eintr gone wif_stopped wif_continued : Poll
  died : ℕ → Poll

-- `poll_job` on what the calls of `waitpid` return. The flag is the result 1. When the list ends
-- nothing is ready: a call that blocks then does not return (`none`).
unfoldable pub poll_job : List Poll → Job → Bool → Option (Job × Bool × List Poll)
poll_job [] job block =
    if job.nlive == 0 then some (job, false, []) else if block then none else some (job, false, [])
poll_job (p ∷ ps) job block = elim (job.nlive == 0) [
  | true ↦ some (job, false, p ∷ ps)
  | false ↦ elim p [
    | not_ready ↦ some (job, false, ps)
    | eintr ↦ poll_job ps job block
    | gone ↦ some (record job { nlive = 0 }, false, ps)
    | wif_stopped ↦ some (record job { state = stopped }, true, ps)
    | wif_continued ↦ poll_job ps (record job { state = running }) block
    | died pid ↦ poll_job ps (record (clear_pid pid job) { nlive = job.nlive - 1 }) block
  ]
]

unfoldable pub polled : Job → Option (Job × Bool × List Poll) → Job
polled job none = job
polled job (some (job', hit, ps)) =
    if hit then job' else if job'.nlive == 0 then record job' { state = done } else job'

-- The first loop of `jobs_reap`; `polls` is what `waitpid` returns for each job.
unfoldable pub reap_job : (ℕ → List Poll) → Job → Job
reap_job polls job =
    if not (is_done job.state) && ltb 0 job.nlive
    then polled job (poll_job (polls job.jid) job false)
    else job

unfoldable pub collect : (ℕ → List Poll) → Table → Table
collect polls [] = []
collect polls (j ∷ js) = reap_job polls j ∷ collect polls js

unfoldable pub row : Job → ℕ → Str → Str
row job mark status =
    b'[' ∷ decimal job.jid
    ++ (b']' ∷ b' ' ∷ mark ∷ b' ' ∷ status
        ++ (9 ∷ job.cmdline ++ ((if job.background then b' ' ∷ b'&' ∷ [] else []) ++ 10 ∷ [])))

unfoldable pub jobs_print_one : Job → ℕ → Str → Session → Session
jobs_print_one job mark status s = (session_printf (row job mark status) s).0

unfoldable pub done_mark : Session → ℕ
done_mark s = elim (jobs_current s) [ none ↦ b'+' | some j ↦ b'-' ]

-- The second loop of `jobs_reap`: `rest` is what is still to be visited.
unfoldable pub sweep : Table → Session → Session
sweep [] s = s
sweep (j ∷ rest) s =
    sweep rest (
      if is_done j.state then jobs_remove j.jid (jobs_print_one j (done_mark s) done_word s) else s)

unfoldable pub jobs_reap : (ℕ → List Poll) → Session → Session
jobs_reap polls s = let table' = collect polls s.table in sweep table' (record s { table = table' })

-- `j == cur`
unfoldable pub is_current : Job → Option Job → Bool
is_current j none = false
is_current j (some cur) = j.jid == cur.jid

unfoldable pub print_rows : Option Job → Table → Session → Session
print_rows cur [] s = s
print_rows cur (j ∷ js) s =
    print_rows cur js
      (jobs_print_one j (if is_current j cur then b'+' else b'-') (state_word j.state) s)

unfoldable pub jobs_print : Session → Session
jobs_print s = print_rows (jobs_current s) s.table s

-- The wait of `jobs_kill_all` for a killed job with `nlive` children: whether it returns.
unfoldable pub outwait : List Poll → ℕ → Bool
outwait [] nlive = nlive == 0
outwait (p ∷ ps) nlive = elim (nlive == 0) [
  | true ↦ true
  | false ↦ elim p [ gone ↦ true | died pid ↦ outwait ps (nlive - 1) | _ ↦ outwait ps nlive ]
]

unfoldable pub kill_each : (ℕ → List Poll) → Table → Option (List Effect)
kill_each polls [] = some []
kill_each polls (j ∷ js) = elim (outwait (polls j.jid) j.nlive) [
  | false ↦ none
  | true ↦ elim (kill_each polls js) [
    | none ↦ none
    | some es ↦ some (kill_group j.pgid sigkill ∷ close_effects j.infd ++ es)
  ]
]

-- `none` if a killed child is never reported.
unfoldable pub jobs_kill_all : (ℕ → List Poll) → Session → Option Session
jobs_kill_all polls s = elim (kill_each polls s.table) [
  | none ↦ none
  | some es ↦ some (emit es (record s { table = []; fg = none }))
]
