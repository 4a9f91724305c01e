-- ===== src/Yashd/Types.antt =====
-- The data model of the daemon: Project 2/yashd/server/include/yashd.h, session.h and
-- shared/include/protocol.h.
use system_prog.Base.{ℕ, Bool, Option, List, [], ◌∷◌, ◌++◌, Str}
use system_prog.Yash.Types.{Cmd, JobState}

-- YASH_BUF_SIZE
abbrev pub buf_size : ℕ
buf_size = 4096

-- MSG_CMD, MSG_CTL, YASH_PROMPT
abbrev pub msg_cmd : Str
msg_cmd = b'C' ∷ b'M' ∷ b'D' ∷ b' ' ∷ []

abbrev pub msg_ctl : Str
msg_ctl = b'C' ∷ b'T' ∷ b'L' ∷ b' ' ∷ []

abbrev pub yash_prompt : Str
yash_prompt = 10 ∷ b'#' ∷ b' ' ∷ []

-- `job_t`: as in Project 1, with the descriptor that feeds the job's stdin (`none` for -1). The
-- `pid` of a command is 0 once it has been reaped.
pub record Job : Type 0 where
  pub jid : ℕ
  pub pgid : ℕ
  pub state : JobState
  pub background : Bool
  pub nlive : ℕ
  pub infd : Option ℕ
  pub cmds : List Cmd
  pub cmdline : Str

pub data Signal : Type 0 where
  sigint sigtstp sigcont sigkill : Signal

-- What the session does to the world, in order; `deliver` is what reaches the client's socket.
pub data Effect : Type 0 where
  deliver : Str → Effect
  kill_group : ℕ → Signal → Effect
  close_fd : ℕ → Effect
  feed : ℕ → Str → Effect
  spawn : (pid pgid : ℕ) → Effect
  log : Str → Effect

-- What `write` on the socket returns: bytes taken, EINTR, or another error.
pub data Sent : Type 0 where
  sent : ℕ → Sent
  interrupted broken : Sent

-- `session_t`, with what the kernel will answer to its writes: `sends` on the socket and `feeds`
-- on the pipe of a job. When the lists are used up every write succeeds whole. `fg` is the number
-- of `fg_job`; `inbuf` holds the `inlen` bytes in use.
pub record Session : Type 0 where
  pub cfd : ℕ
  pub table : List Job
  pub fg : Option ℕ
  pub inbuf : Str
  pub quit : Bool
  pub sends : List Sent
  pub feeds : List Bool
  pub trace : List Effect

abbrev pub emit : List Effect → Session → Session
emit es s = record s { trace = s.trace ++ es }
