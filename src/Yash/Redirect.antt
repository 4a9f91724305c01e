-- ===== src/Yash/Redirect.antt =====
-- What a child does to its descriptors before `execvp`: Project 1/yash/src/redirect.c, and the
-- child's part of `exec_job` in Project 1/yash/src/exec.c.
pub mod Precedence
use system_prog.Base.{
  ℕ, zero, suc, ◌≡◌, Bool, true, false, Option, none, some, List, [], ◌∷◌, Str, ◌==◌, if◌then◌else◌,
}
use system_prog.Yash.Types.{Cmd}

-- What a descriptor refers to.
pub data File : Type 0 where
  inherited : ℕ → File
  pipe_read pipe_write : File
  opened_read opened_write : Str → File

-- The three standard descriptors; the pipe's own are closed after the `dup2` calls.
pub record Streams : Type 0 where
  pub stdin : File
  pub stdout : File
  pub stderr : File

abbrev pub dup_stdin : File → Streams → Streams
dup_stdin f s = record s { stdin = f }

abbrev pub dup_stdout : File → Streams → Streams
dup_stdout f s = record s { stdout = f }

abbrev pub dup_stderr : File → Streams → Streams
dup_stderr f s = record s { stderr = f }

-- `opens` says whether `open_onto` succeeds on a path; the flags are those of the path's direction.
module _ (opens_read opens_write : Str → Bool) where
  unfoldable pub open_input : Option Str → Streams → Option Streams
  open_input none s = some s
  open_input (some path) s = if opens_read path then some (dup_stdin (opened_read path) s) else none

  unfoldable pub open_output : (File → Streams → Streams) → Option Str → Streams → Option Streams
  open_output dup none s = some s
  open_output dup (some path) s =
      if opens_write path then some (dup (opened_write path) s) else none

  -- `none` is the result -1, after which the child calls `_exit(1)`.
  unfoldable pub redirect_apply : Cmd → Streams → Option Streams
  redirect_apply cmd s = elim (open_input cmd.infile s) [
    | none ↦ none
    | some s1 ↦ elim (open_output dup_stdout cmd.outfile s1) [
      | none ↦ none
      | some s2 ↦ open_output dup_stderr cmd.errfile s2
    ]
  ]

  -- The pipe ends first, if there is a pipe: the write end for command 0, the read end for the
  -- other.
  unfoldable pub attach_pipe : Bool → ℕ → Streams → Streams
  attach_pipe piped i s =
      if piped then (if i == 0 then dup_stdout pipe_write s else dup_stdin pipe_read s) else s

  unfoldable pub child_streams : Bool → ℕ → Cmd → Streams → Option Streams
  child_streams piped i cmd s = redirect_apply cmd (attach_pipe piped i s)
