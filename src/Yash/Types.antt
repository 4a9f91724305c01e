-- ===== src/Yash/Types.antt =====
-- The data model of yash: Project 1/yash/include/yash.h.
use system_prog.Base.{ℕ, Bool, Option, none, List, [], Str}

-- YASH_MAX_LINE, YASH_MAX_TOKENS, YASH_MAX_ARGS, YASH_MAX_CMDS and YASH_MAX_JOBS.
abbrev pub max_line : ℕ
max_line = 200

abbrev pub max_tokens : ℕ
max_tokens = 128

abbrev pub max_args : ℕ
max_args = 64

abbrev pub max_cmds : ℕ
max_cmds = 2

abbrev pub max_jobs : ℕ
max_jobs = 20

-- `cmd_t`. A pointer into the job's buffer is the string that it points to, and NULL is `none`;
-- `argc` is the length of `argv`.
pub record Cmd : Type 0 where
  pub argv : List Str
  pub infile : Option Str
  pub outfile : Option Str
  pub errfile : Option Str
  pub pid : ℕ

-- The zeroed command of `memset`.
abbrev pub no_cmd : Cmd
no_cmd = record { argv = []; infile = none; outfile = none; errfile = none; pid = 0 }

-- `job_state_t`
pub data JobState : Type 0 where
  running stopped done : JobState

-- `job_t`. `cmds` holds the `ncmds` commands in use.
pub record Job : Type 0 where
  pub jid : ℕ
  pub pgid : ℕ
  pub state : JobState
  pub background : Bool
  pub nlive : ℕ
  pub cmds : List Cmd
  pub cmdline : Str
