-- ===== src/Yashd/Parse.antt =====
-- The daemon's parser: Project 2/yashd/server/src/parse.c, whose tokenizer and loop are those of
-- Project 1, and which marks the job as having no descriptor for its stdin.
use system_prog.Base.{Option, none, Str}
use system_prog.Yash.Types as Shell
use system_prog.Yash.Parse
use system_prog.Yashd.Types.{Job}

pub data Parsed : Type 0 where
  ok : Job → Parsed
  empty error : Parsed

unfoldable pub without_infd : Shell.Job → Job
without_infd j = record {
  jid = j.jid;
  pgid = j.pgid;
  state = j.state;
  background = j.background;
  nlive = j.nlive;
  infd = none;
  cmds = j.cmds;
  cmdline = j.cmdline;
}

unfoldable pub parse_line : Option Str → Parsed
parse_line line = elim (Parse.parse_line line) [
  | Parse.ok j ↦ ok (without_infd j)
  | Parse.empty ↦ empty
  | Parse.error ↦ error
]
