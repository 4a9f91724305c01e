-- ===== src/Yash/Jobs.antt =====
-- The job table: Project 1/yash/src/jobs.c. A pointer to a job of the table is the job's `jid`,
-- by which `Jobs.Order` proves a job to be the only one.
pub mod Order
pub mod Current
pub mod Reap
pub mod WaitFg
use system_prog.Base.{
  ℕ, zero, suc, ◌+◌, ◌-◌, ◌/◌, ◌%◌, Bool, true, false, ◌||◌, Option, none, some, List, [], ◌∷◌,
  ◌++◌, Str, ◌==◌, leb, if◌then◌else◌, length,
}
use system_prog.Yash.Types.{Cmd, Job, JobState, running, stopped, done, max_jobs}

abbrev pub Table : Type 0
Table = List Job

unfoldable pub jobs_init : Table
jobs_init = []

unfoldable pub jobs_count : Table → ℕ
jobs_count [] = 0
jobs_count (j ∷ js) = suc (jobs_count js)

-- The number for a new job: 1 in an empty list, else one more than the tail's.
unfoldable pub next_jid : Table → ℕ
next_jid [] = 1
next_jid (j ∷ []) = j.jid + 1
next_jid (j ∷ k ∷ js) = next_jid (k ∷ js)

-- `none` for the null pointer; `memory` says whether `malloc` returns a block.
unfoldable pub jobs_add : Bool → Table → Job → Option (Table × Job)
jobs_add memory table proto =
    if leb max_jobs (jobs_count table)
    then none
    else if memory
    then (let job = record proto { jid = next_jid table } in some (table ++ job ∷ [], job))
    else none

unfoldable pub jobs_remove : ℕ → Table → Table
jobs_remove jid [] = []
jobs_remove jid (j ∷ js) = if j.jid == jid then js else j ∷ jobs_remove jid js

unfoldable pub is_live : JobState → Bool
is_live running = true
is_live stopped = true
is_live done = false

unfoldable pub is_stopped : JobState → Bool
is_stopped stopped = true
is_stopped running = false
is_stopped done = false

unfoldable pub is_done : JobState → Bool
is_done done = true
is_done running = false
is_done stopped = false

-- The loops of `jobs_current` and `jobs_recent_stopped`, over the variable `found`.
unfoldable pub current_from : Option Job → Table → Option Job
current_from found [] = found
current_from found (j ∷ js) = current_from (if is_live j.state then some j else found) js

unfoldable pub jobs_current : Table → Option Job
jobs_current table = current_from none table

unfoldable pub recent_stopped_from : Option Job → Table → Option Job
recent_stopped_from found [] = found
recent_stopped_from found (j ∷ js) =
    recent_stopped_from (if is_stopped j.state then some j else found) js

unfoldable pub jobs_recent_stopped : Table → Option Job
jobs_recent_stopped table = recent_stopped_from none table

unfoldable pub has_pid : ℕ → List Cmd → Bool
has_pid pid [] = false
has_pid pid (c ∷ cs) = (c.pid == pid) || has_pid pid cs

unfoldable pub jobs_find_pid : ℕ → Table → Option Job
jobs_find_pid pid [] = none
jobs_find_pid pid (j ∷ js) = if has_pid pid j.cmds then some j else jobs_find_pid pid js

-- What `waitpid` reports of a child, as WIFSTOPPED and WIFCONTINUED tell it apart.
pub data Status : Type 0 where
  wif_stopped wif_continued wif_exited : Status

-- The kernel reports the death of a child once, so `--nlive` runs at a positive count.
unfoldable pub report_job : Status → Job → Job
report_job wif_stopped j = record j { state = stopped }
report_job wif_continued j = record j { state = running }
report_job wif_exited j = record j {
  nlive = j.nlive - 1;
  state = if j.nlive == 1 then done else j.state;
}

-- A write through the pointer that `jobs_find_pid` returned: the first job with the child.
unfoldable pub report : ℕ → Status → Table → Table
report pid st [] = []
report pid st (j ∷ js) = if has_pid pid j.cmds then report_job st j ∷ js else j ∷ report pid st js

-- The first loop of `jobs_reap`, over what `waitpid` returns until it has nothing ready.
unfoldable pub collect : List (ℕ × Status) → Table → Table
collect [] table = table
collect ((pid, st) ∷ rs) table = collect rs (report pid st table)

-- A number as `%d` prints it.
unfoldable pub decimal_loop : ℕ → ℕ → Str → Str
decimal_loop zero n acc = acc
decimal_loop (suc f) n acc =
    let more = decimal_loop f (n / 10) ((b'0' + n % 10) ∷ acc) in
    if n / 10 == 0 then (b'0' + n % 10) ∷ acc else more

unfoldable pub decimal : ℕ → Str
decimal n = decimal_loop (suc n) n []

-- `printf("[%d] %c %s\t%s%s\n", …)`
unfoldable pub jobs_print_one : Job → ℕ → Str → Str
jobs_print_one job mark status =
    b'[' ∷ decimal job.jid
    ++ (b']' ∷ b' ' ∷ mark ∷ b' ' ∷ status
        ++ (9 ∷ job.cmdline ++ ((if job.background then b' ' ∷ b'&' ∷ [] else []) ++ 10 ∷ [])))

abbrev pub done_word : Str
done_word = b'D' ∷ b'o' ∷ b'n' ∷ b'e' ∷ []

abbrev pub running_word : Str
running_word = b'R' ∷ b'u' ∷ b'n' ∷ b'n' ∷ b'i' ∷ b'n' ∷ b'g' ∷ []

abbrev pub stopped_word : Str
stopped_word = b'S' ∷ b't' ∷ b'o' ∷ b'p' ∷ b'p' ∷ b'e' ∷ b'd' ∷ []

-- The mark of a finished job, given the table in which it still stands.
unfoldable pub done_mark : Table → ℕ
done_mark table = elim (jobs_current table) [ none ↦ b'+' | some j ↦ b'-' ]

-- The second loop of `jobs_reap`: `rest` is what is still to be visited, `table` the whole list.
unfoldable pub sweep : Table → Table → Table × List Str
sweep [] table = (table, [])
sweep (j ∷ rest) table =
    let (table', out) = sweep rest (if is_done j.state then jobs_remove j.jid table else table) in
    (table', if is_done j.state then jobs_print_one j (done_mark table) done_word ∷ out else out)

unfoldable pub jobs_reap : List (ℕ × Status) → Table → Table × List Str
jobs_reap reports table = let table' = collect reports table in sweep table' table'

-- A write through a pointer to a job of the table.
unfoldable pub put_job : Job → Table → Table
put_job job [] = []
put_job job (j ∷ js) = if j.jid == job.jid then job ∷ js else j ∷ put_job job js

-- What `waitpid(-pgid, &st, WUNTRACED)` returns: a stop, a death, EINTR or another failure.
pub data Wait : Type 0 where
  stop exit interrupted failed : Wait

-- `jobs_wait_fg` on what the calls of `waitpid` return; `none` while it still blocks.
unfoldable pub jobs_wait_fg : List Wait → Job → Option (Job × List Wait)
jobs_wait_fg [] job = if job.nlive == 0 then some (record job { state = done }, []) else none
jobs_wait_fg (w ∷ ws) job = elim (job.nlive == 0) [
  | true ↦ some (record job { state = done }, w ∷ ws)
  | false ↦ elim w [
    | interrupted ↦ jobs_wait_fg ws job
    | failed ↦ some (record job { state = done }, ws)
    | stop ↦ some (record job { state = stopped }, ws)
    | exit ↦ jobs_wait_fg ws (record job { nlive = job.nlive - 1 })
  ]
]

unfoldable pub state_word : JobState → Str
state_word stopped = stopped_word
state_word running = running_word
state_word done = running_word

-- `j == cur`
unfoldable pub is_current : Job → Option Job → Bool
is_current j none = false
is_current j (some cur) = j.jid == cur.jid

unfoldable pub print_rows : Option Job → Table → List Str
print_rows cur [] = []
print_rows cur (j ∷ js) =
    jobs_print_one j (if is_current j cur then b'+' else b'-') (state_word j.state)
    ∷ print_rows cur js

unfoldable pub jobs_print : Table → List Str
jobs_print table = print_rows (jobs_current table) table

-- The process groups that get SIGKILL; the list is empty afterwards.
unfoldable pub killed_groups : Table → List ℕ
killed_groups [] = []
killed_groups (j ∷ js) = j.pgid ∷ killed_groups js

unfoldable pub jobs_kill_all : Table → Table × List ℕ
jobs_kill_all table = ([], killed_groups table)
