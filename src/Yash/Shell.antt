-- ===== src/Yash/Shell.antt =====
-- The shell process: Project 1/yash/src/builtins.c, the parent's part of exec_job in
-- Project 1/yash/src/exec.c, sig_give_terminal in sig.c and the loop in main.c.
pub mod Wellformed
pub mod Children
mod Tests
use system_prog.Base.{
  ℕ, zero, suc, ◌+◌, Bool, true, false, ◌&&◌, ◌||◌, not, Option, none, some, List, [], ◌∷◌, ◌++◌,
  Str, str_eq, ◌==◌, ltb, if◌then◌else◌, length,
}
use system_prog.Yash.Types.{Cmd, Job, JobState, running, stopped, done}
use system_prog.Yash.Parse.{Parsed, ok, empty, error, parse_line}
use system_prog.Yash.Jobs.{
  Table, Wait, Status, jobs_add, jobs_remove, jobs_current, jobs_recent_stopped, jobs_reap,
  jobs_wait_fg, jobs_print_one, jobs_print, jobs_kill_all, put_job, is_stopped, is_done,
  running_word,
}

pub data Signal : Type 0 where
  sigint sigtstp sigcont sigkill : Signal

-- What the shell does to the world, in order.
pub data Effect : Type 0 where
  print complain : Str → Effect
  kill_group : ℕ → Signal → Effect
  spawn : (pid pgid : ℕ) → Effect

-- `waits` is what the calls of `waitpid` in foreground waits will return. `terminal` is the
-- foreground process group of the terminal.
pub record World : Type 0 where
  pub table : Table
  pub terminal : ℕ
  pub shell_pgid : ℕ
  pub waits : List Wait
  pub trace : List Effect

abbrev pub emit : List Effect → World → World
emit es w = record w { trace = w.trace ++ es }

unfoldable pub sig_give_terminal : ℕ → World → World
sig_give_terminal pgid w = if ltb 0 pgid then record w { terminal = pgid } else w

-- What `do_fg` and `exec_job` do after the wait; `none` if the wait never ends.
unfoldable pub settle : Option (Job × List Wait) → World → Option World
settle none w = none
settle (some (job, ws)) w = some (
    sig_give_terminal w.shell_pgid (record w {
      table = if is_done job.state then jobs_remove job.jid w.table else put_job job w.table;
      waits = ws;
    }))

-- `sig_give_terminal(job->pgid); jobs_wait_fg(job); …`
unfoldable pub foreground : Job → World → Option World
foreground job w = settle (jobs_wait_fg w.waits job) (sig_give_terminal job.pgid w)

abbrev pub resume_effects : Job → List Effect
resume_effects job = if is_stopped job.state then kill_group job.pgid sigcont ∷ [] else []

unfoldable pub fg_job : Job → World → Option World
fg_job job w =
    let job' = record job { background = false; state = running } in
    foreground job' (
      emit (print (job.cmdline ++ 10 ∷ []) ∷ resume_effects job)
        (record w { table = put_job job' w.table }))

unfoldable pub do_fg : World → Option World
do_fg w = elim (jobs_current w.table) [ none ↦ some w | some job ↦ fg_job job w ]

unfoldable pub bg_job : Job → World → World
bg_job job w =
    let job' = record job { state = running; background = true } in
    emit (kill_group job.pgid sigcont ∷ print (jobs_print_one job' b'+' running_word) ∷ [])
      (record w { table = put_job job' w.table })

unfoldable pub do_bg : World → World
do_bg w = elim (jobs_recent_stopped w.table) [ none ↦ w | some job ↦ bg_job job w ]

abbrev pub print_all : List Str → List Effect
print_all [] = []
print_all (s ∷ ss) = print s ∷ print_all ss

abbrev pub jobs_name : Str
jobs_name = b'j' ∷ b'o' ∷ b'b' ∷ b's' ∷ []

abbrev pub fg_name : Str
fg_name = b'f' ∷ b'g' ∷ []

abbrev pub bg_name : Str
bg_name = b'b' ∷ b'g' ∷ []

-- Which command a job runs: its first word if it is the only one, as `builtin_try` tests.
pub data Builtin : Type 0 where
  jobs_cmd fg_cmd bg_cmd no_builtin : Builtin

unfoldable pub builtin_of : List Cmd → Builtin
builtin_of [] = no_builtin
builtin_of (c ∷ d ∷ cs) = no_builtin
builtin_of (c ∷ []) = elim c.argv [
  | [] ↦ no_builtin
  | name ∷ args ↦
      if str_eq name jobs_name
      then jobs_cmd
      else if str_eq name fg_name
      then fg_cmd
      else if str_eq name bg_name
      then bg_cmd
      else no_builtin
]

unfoldable pub run_builtin : Builtin → World → Option (World × Bool)
run_builtin jobs_cmd w = some (emit (print_all (jobs_print w.table)) w, true)
run_builtin fg_cmd w = elim (do_fg w) [ none ↦ none | some w' ↦ some (w', true) ]
run_builtin bg_cmd w = some (do_bg w, true)
run_builtin no_builtin w = some (w, false)

-- The flag is the result 1 of `builtin_try`: the job was a builtin and has been run.
unfoldable pub builtin_try : Job → World → Option (World × Bool)
builtin_try job w = run_builtin (builtin_of job.cmds) w

-- What the system calls of one `exec_job` return.
pub record Spawn : Type 0 where
  pub pipe : Bool
  pub fork : ℕ → Option ℕ
  pub memory : Bool

-- The loop over the commands, from command `i` with the group found so far (0: none). The result
-- is the commands with their pids, the group, how many children there are, and what was done.
pub record Forked : Type 0 where
  pub cmds : List Cmd
  pub pgid : ℕ
  pub nlive : ℕ
  pub effects : List Effect

abbrev pub fork_word : Str
fork_word = b'f' ∷ b'o' ∷ b'r' ∷ b'k' ∷ []

abbrev pub pipe_word : Str
pipe_word = b'p' ∷ b'i' ∷ b'p' ∷ b'e' ∷ []

unfoldable pub fork_all : Spawn → ℕ → ℕ → List Cmd → Forked
fork_all sp i pgid [] = record { cmds = []; pgid = pgid; nlive = 0; effects = [] }
fork_all sp i pgid (c ∷ cs) = elim (sp.fork i) [
  | none ↦ record { cmds = c ∷ cs; pgid = pgid; nlive = 0; effects = complain fork_word ∷ [] }
  | some pid ↦
      let group : ℕ = if pgid == 0 then pid else pgid in
      let more : Forked = fork_all sp (suc i) group cs in
      record {
        cmds = record c { pid = pid } ∷ more.cmds;
        pgid = more.pgid;
        nlive = suc more.nlive;
        effects = spawn pid group ∷ more.effects;
      }
]

abbrev pub too_many : Str
too_many =
    b'y' ∷ b'a' ∷ b's' ∷ b'h' ∷ b':' ∷ b' ' ∷ b't' ∷ b'o' ∷ b'o' ∷ b' ' ∷ b'm' ∷ b'a' ∷ b'n' ∷ b'y'
    ∷ b' ' ∷ b'j' ∷ b'o' ∷ b'b' ∷ b's' ∷ 10 ∷ []

-- What follows `jobs_add`.
unfoldable pub launch : Option (Table × Job) → World → Option World
launch none w = some (emit (complain too_many ∷ []) w)
launch (some (table, job)) w =
    let fore = foreground job (record w { table = table }) in
    if job.background then some (record w { table = table }) else fore

unfoldable pub enter : Spawn → Job → Forked → World → Option World
enter sp proto f w =
    let launched =
      launch
        (jobs_add sp.memory w.table
          (record proto { cmds = f.cmds; pgid = f.pgid; nlive = f.nlive }))
        (emit f.effects w) in
    if f.nlive == 0 then some (emit f.effects w) else launched

unfoldable pub exec_job : Spawn → Job → World → Option World
exec_job sp proto w =
    let entered = enter sp proto (fork_all sp 0 0 proto.cmds) w in
    if (length proto.cmds == 2) && not sp.pipe
    then some (emit (complain pipe_word ∷ []) w)
    else entered

-- `line[strcspn(line, "\n")] = '\0'`
unfoldable pub chomp : Str → Str
chomp [] = []
chomp (c ∷ cs) = if c == 10 then [] else c ∷ chomp cs

-- What `fgets` does: a line, end of file, or a read that a signal interrupts.
pub data Input : Type 0 where
  line : Str → Input
  eof interrupted : Input

-- One round of the loop of `main`, with what the kernel and the user supply. The flag says whether
-- the loop goes on.
pub record Turn : Type 0 where
  pub reports : List (ℕ × Status)
  pub input : Input
  pub spawn : Spawn

unfoldable pub run_job : Spawn → Job → World → Option World
run_job sp job w = elim (builtin_try job w) [
  | none ↦ none
  | some (w', handled) ↦ elim handled [ true ↦ some w' | false ↦ exec_job sp job w' ]
]

unfoldable pub run_line : Spawn → Str → World → Option World
run_line sp text w = elim (parse_line (some (chomp text))) [
  | ok job ↦ run_job sp job w
  | empty ↦ some w
  | error ↦ some w
]

abbrev pub prompt : Str
prompt = b'#' ∷ b' ' ∷ []

unfoldable pub reap : List (ℕ × Status) → World → World
reap reports w =
    let (table, out) = jobs_reap reports w.table in
    emit (print_all out ++ print prompt ∷ []) (record w { table = table })

-- `putchar('\n'); jobs_kill_all();`
abbrev pub kill_effects : List ℕ → List Effect
kill_effects [] = []
kill_effects (g ∷ gs) = kill_group g sigkill ∷ kill_effects gs

unfoldable pub leave : World → World
leave w =
    let (table, groups) = jobs_kill_all w.table in
    emit (print (10 ∷ []) ∷ kill_effects groups) (record w { table = table })

unfoldable pub act : Spawn → Input → World → Option (World × Bool)
act sp eof w = some (leave w, false)
act sp interrupted w = some (emit (print (10 ∷ []) ∷ []) w, true)
act sp (line text) w = elim (run_line sp text w) [ none ↦ none | some w' ↦ some (w', true) ]

unfoldable pub turn : Turn → World → Option (World × Bool)
turn t w = act t.spawn t.input (reap t.reports w)

-- The loop, over the turns that the world supplies; `none` if a foreground wait never ends.
unfoldable pub run : List Turn → World → Option (World × Bool)
run [] w = some (w, true)
run (t ∷ ts) w = elim (turn t w) [
  | none ↦ none
  | some (w', more) ↦ elim more [ true ↦ run ts w' | false ↦ some (w', false) ]
]
