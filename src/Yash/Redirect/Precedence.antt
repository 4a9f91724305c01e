-- ===== src/Yash/Redirect/Precedence.antt =====
-- Which file each standard stream of a child ends on.
use system_prog.Base.{
  ℕ, ◌≡◌, Bool, true, false, Option, none, some, Str, ◌==◌, if◌then◌else◌, arith,
}
use system_prog.Yash.Types.{Cmd}
use system_prog.Yash.Redirect.{
  File, pipe_read, pipe_write, opened_read, opened_write, Streams, child_streams, redirect_apply,
  attach_pipe, open_input, open_output,
}

-- A path that the child wants, and may not get.
abbrev pub openable : (Str → Bool) → Option Str → Bool
openable opens none = true
openable opens (some path) = opens path

abbrev pub or_file : (Str → File) → Option Str → File → File
or_file opened none f = f
or_file opened (some path) f = opened path

module _ (opens_read opens_write : Str → Bool) (piped : Bool) (i : ℕ) (cmd : Cmd)
    (s : Streams) where
  -- The child gives up exactly if one of its files cannot be opened. Otherwise a redirection wins
  -- over the pipe, the pipe over what the child inherits, and only the right end of the pipe that
  -- belongs to the command is attached.
  pub child_streams_lem :
      (openable opens_read cmd.infile ≡ true
        → openable opens_write cmd.outfile ≡ true
        → openable opens_write cmd.errfile ≡ true
        → child_streams opens_read opens_write piped i cmd s
          ≡ some (record {
            stdin =
                or_file opened_read cmd.infile
                  (if piped then (if i == 0 then s.stdin else pipe_read) else s.stdin);
            stdout =
                or_file opened_write cmd.outfile
                  (if piped then (if i == 0 then pipe_write else s.stdout) else s.stdout);
            stderr = or_file opened_write cmd.errfile s.stderr;
          }))
      × (openable opens_read cmd.infile ≡ false
          → child_streams opens_read opens_write piped i cmd s ≡ none)
      × (openable opens_write cmd.outfile ≡ false
          → child_streams opens_read opens_write piped i cmd s ≡ none)
      × (openable opens_write cmd.errfile ≡ false
          → child_streams opens_read opens_write piped i cmd s ≡ none)
  unfolding child_streams redirect_apply attach_pipe open_input open_output
  child_streams_lem =
      ((λ a b c. ground arith), (λ a. ground arith), (λ a. ground arith), (λ a. ground arith))
